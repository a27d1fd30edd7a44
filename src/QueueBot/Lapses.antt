-- ===== src/QueueBot/Lapses.antt =====
-- A booking that runs out in a queue bot, in a sweep that has nothing else to tell.
use lockbot.Base.{
  ℕ, ◌+◌, ◌≤◌, ◌<◌, ◌≡◌, ◌∙◌, ap, refl, true, false, Bool-cases, inl, inr, some, List, [], ◌∷◌,
  arith,
}
use lockbot.Keys.{Key, key_eq}
use lockbot.Users.{UserInfo, remove_user_info}
use lockbot.State.{idle, is_idle, Entry, Store, lookup}
use lockbot.State.Laws.{EachEntry}
use lockbot.Config.{Config}
use lockbot.Policy.{is_empty}
use lockbot.Sweep.{sweep_entry, entry_scan}
use lockbot.QueueBot.Sweep.{
  check_and_notify, sweep_store, queue_cons, queue_entry, entry_turn, queue_turn, notify_first,
  with_key,
}
use lockbot.QueueBot.Turns.{remove_first}

-- A line in which nobody is to be told of a turn: it is empty, its first was told and the claim window
-- is open, or it has one booking, whose claim window is over.
pub data QuietLine (now : ℕ) : List UserInfo → Type 0 where
  nobody : QuietLine now []
  still_open :
      (u : UserInfo) (us : List UserInfo)
      → u.is_notified ≡ true
      → now < u.start_time + 300
      → QuietLine now (u ∷ us)
  lapsed : (u : UserInfo) → u.is_notified ≡ true → u.start_time + 300 ≤ now → QuietLine now (u ∷ [])

abbrev pub AllQuiet : ℕ → Store → Type 0
AllQuiet now = EachEntry (λ k e. (e.status ≡ idle) × QuietLine now e.booking_list)

quiet_turn : (now : ℕ) (us : List UserInfo) → QuietLine now us → (queue_turn now us).offers ≡ []
unfolding queue_turn notify_first remove_user_info
quiet_turn now [] nobody = refl
quiet_turn now (u ∷ us) (still_open _ _ told open_) = ground arith
quiet_turn now (u ∷ []) (lapsed _ told over) = ground (arith, remove_first u u [] refl)

idle_sweep :
    (cfg : Config) (now : ℕ) (k : Key) (e : Entry) → e.status ≡ idle → sweep_entry cfg now k e ≡ e
unfolding sweep_entry is_idle
idle_sweep cfg now k e i = rw i

-- In a sweep of quiet entries there is nothing to tell, and nothing fails.
quiet_sweep :
    (cfg : Config) (now : ℕ) (s : Store)
    → AllQuiet now s
    → (is_empty (sweep_store cfg now s).alerts ≡ true)
      × (is_empty (sweep_store cfg now s).offers ≡ true)
      × ((sweep_store cfg now s).failed ≡ false)
unfolding sweep_store queue_cons entry_scan entry_turn is_idle is_empty with_key
quiet_sweep cfg now [] a = (refl, refl, refl)
quiet_sweep cfg now ((k, e) ∷ s) a =
    let here = idle_sweep cfg now k e a.0.0 in
    let turned = quiet_turn now e.booking_list a.0.1 in
    ground (arith, quiet_sweep cfg now s a.1, here, turned, a.0.0)

lapsed_turn :
    (now : ℕ) (us : List UserInfo) (u : UserInfo)
    → us ≡ u ∷ []
    → u.is_notified ≡ true
    → u.start_time + 300 ≤ now
    → ((queue_turn now us).queue ≡ []) × ((queue_turn now us).expired ≡ u.user_id ∷ [])
unfolding queue_turn notify_first remove_user_info
lapsed_turn now [] u line told over = absurd (ground arith)
lapsed_turn now (v ∷ vs) u line told over = ground (arith, remove_first v v vs refl)

-- The lapsed booking goes, and that counts as a change.
lapsed_sweep :
    (cfg : Config) (now : ℕ) (s : Store) (q : Key) (e : Entry) (u : UserInfo)
    → AllQuiet now s
    → lookup q s ≡ some e
    → e.booking_list ≡ u ∷ []
    → u.is_notified ≡ true
    → u.start_time + 300 ≤ now
    → (lookup q (sweep_store cfg now s).store ≡ some (record e { booking_list = [] }))
      × ((sweep_store cfg now s).changed ≡ true)
unfolding sweep_store queue_cons entry_scan entry_turn queue_entry is_idle is_empty with_key lookup
lapsed_sweep cfg now [] q e u a hit line told over = cc
lapsed_sweep cfg now ((k, c) ∷ s) q e u a hit line told over =
    let here = idle_sweep cfg now k c a.0.0 in
    elim (Bool-cases (key_eq k q)) [
      | inl same ↦
          let c≡e : c ≡ e = ground arith in
          let turned =
            lapsed_turn now c.booking_list u (ap (λ x. x.booking_list) c≡e ∙ line) told over in
          ground (arith, here, turned, a.0.0)
      | inr other ↦
          let rest = lapsed_sweep cfg now s q e u a.1 (ground arith) line told over in
          ground (arith, here, rest, a.0.0)
    ]

-- A booking that runs out in a sweep of idle resources, at none of which somebody is to be told of a
-- turn, is cancelled without a word: the change is saved, but no message is sent and nobody is mentioned.
pub lapse-is_silent :
    (cfg : Config) (now : ℕ) (s : Store) (q : Key) (e : Entry) (u : UserInfo)
    → AllQuiet now s
    → lookup q s ≡ some e
    → e.booking_list ≡ u ∷ []
    → u.is_notified ≡ true
    → u.start_time + 300 ≤ now
    → (lookup q (check_and_notify cfg now s).state ≡ some (record e { booking_list = [] }))
      × ((check_and_notify cfg now s).saved ≡ true)
      × ((check_and_notify cfg now s).sent ≡ false)
      × ((check_and_notify cfg now s).mentioned ≡ [])
unfolding check_and_notify
lapse-is_silent cfg now s q e u a hit line told over =
    let quiet = quiet_sweep cfg now s a in
    let swept = lapsed_sweep cfg now s q e u a hit line told over in ground (arith, quiet, swept)
