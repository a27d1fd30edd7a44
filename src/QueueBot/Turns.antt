-- ===== src/QueueBot/Turns.antt =====
-- What the sweep of a queue bot does to the queues.
use lockbot.Base.{
  ℕ, ◌≤◌, ◌<◌, true, false, ◌≡◌, refl, List, [], ◌∷◌, arith, Bool-cases, inl, inr, leb, ◌-◌, subst,
  sym,
}
use lockbot.Keys.{Key}
use lockbot.Users.{UserInfo, has_user, remove_user_info}
use lockbot.Users.Laws.{DistinctUsers, EachUser-mono}
use lockbot.State.{Status, is_idle, Entry, Store}
use lockbot.State.Modes.{Fits-Within, Within, settle-Fits}
use lockbot.State.Laws.{EachEntry}
use lockbot.Config.{Config}
use lockbot.Sweep.{sweep_entry, sweep_user, entry_scan}
use lockbot.Sweep.Users.{survivors, survivors-DistinctUsers, survivors-Each, scan_users-failed}
use lockbot.Sweep.Laws.{sweep_entry-survivors}
use lockbot.QueueBot.Sweep.{
  queue_entry, entry_turn, queue_turn, notify_first, offered, sweep_store, queue_cons,
  check_and_notify, time_to_lock,
}
use lockbot.QueueBot.Invariant.{IsQueued}

survivors-Within :
    (cfg : Config) (now : ℕ) (st : Status) (us : List UserInfo)
    → Within st us
    → Within st (survivors cfg now us)
unfolding survivors
survivors-Within cfg now Status.idle [] w = tt
survivors-Within cfg now Status.idle (u ∷ us) w = absurd w
survivors-Within cfg now Status.exclusive [] w = tt
survivors-Within cfg now Status.exclusive (u ∷ []) w = ground arith
survivors-Within cfg now Status.exclusive (u ∷ v ∷ us) w = absurd w
survivors-Within cfg now Status.shared us w = tt

sweep_entry-IsQueued :
    (cfg : Config) (now : ℕ) (k : Key) (e : Entry)
    → IsQueued now e
    → IsQueued now (sweep_entry cfg now k e)
unfolding sweep_entry sweep_user
sweep_entry-IsQueued cfg now k e v = elim (Bool-cases (is_idle e.status)) [
  | inl i ↦ rw (i, sweep_entry) v
  | inr h ↦ rw (sweep_entry-survivors cfg now k e h v.started v.distinct) (record {
    fits =
        settle-Fits e.status _
          (survivors-Within cfg now e.status e.current_users (Fits-Within e.status _ v.fits));
    distinct = survivors-DistinctUsers cfg now e.current_users v.distinct;
    in_line = v.in_line;
    apart = survivors-Each _ cfg now e.current_users (λ u rest a. ground (arith, a)) v.apart;
    started = survivors-Each _ cfg now e.current_users (λ u rest a. ground (arith, a)) v.started;
  })
]

-- A turn drops at most the first of the queue and changes flags and start of the first after it.
has_user-queue_turn :
    (now : ℕ) (us : List UserInfo) (user : ℕ)
    → has_user us user ≡ false
    → has_user (queue_turn now us).queue user ≡ false
unfolding queue_turn notify_first offered has_user remove_user_info
has_user-queue_turn now [] user h = refl
has_user-queue_turn now (u ∷ []) user h = ground arith
has_user-queue_turn now (u ∷ v ∷ us) user h = ground arith

queue_turn-DistinctUsers :
    (now : ℕ) (us : List UserInfo) → DistinctUsers us → DistinctUsers (queue_turn now us).queue
unfolding queue_turn notify_first offered remove_user_info
queue_turn-DistinctUsers now [] d = tt
queue_turn-DistinctUsers now (u ∷ []) d = ground arith
queue_turn-DistinctUsers now (u ∷ v ∷ us) d = ground arith

pub queue_entry-IsQueued :
    (cfg : Config) (now : ℕ) (k : Key) (e : Entry)
    → IsQueued now e
    → IsQueued now (queue_entry cfg now k e)
unfolding queue_entry entry_turn
queue_entry-IsQueued cfg now k e v =
    let w = sweep_entry-IsQueued cfg now k e v in
    let swept = sweep_entry cfg now k e in
    elim (Bool-cases (is_idle swept.status)) [
      | inr h ↦ rw (h, entry_turn) w
      | inl i ↦
          rw (i, entry_turn)
            (record {
              fits = w.fits;
              distinct = w.distinct;
              in_line = queue_turn-DistinctUsers now swept.booking_list w.in_line;
              apart =
                  EachUser-mono (λ x. has_user swept.booking_list x ≡ false)
                    (λ x. has_user (queue_turn now swept.booking_list).queue x ≡ false)
                    swept.current_users (λ x h. has_user-queue_turn now swept.booking_list x h)
                    w.apart;
              started = w.started;
            })
    ]

pub entry_scan-good :
    (cfg : Config) (now : ℕ) (k : Key) (e : Entry)
    → IsQueued now e
    → (entry_scan cfg now k e).failed ≡ false
unfolding entry_scan
entry_scan-good cfg now k e v =
    ground (arith, scan_users-failed cfg now k e.status e.current_users v.started)

sweep_store-IsQueued :
    (cfg : Config) (now : ℕ) (s : Store)
    → EachEntry (λ k e. IsQueued now e) s
    → EachEntry (λ k e. IsQueued now e) (sweep_store cfg now s).store
      × ((sweep_store cfg now s).failed ≡ false)
unfolding sweep_store queue_cons
sweep_store-IsQueued cfg now [] a = (tt, refl)
sweep_store-IsQueued cfg now ((k, e) ∷ s) a =
    let rest = sweep_store-IsQueued cfg now s a.1 in
    rw (entry_scan-good cfg now k e a.0, sweep_store)
      ((queue_entry-IsQueued cfg now k e a.0, rest.0), rest.1)

pub check_and_notify-IsQueued :
    (cfg : Config) (now : ℕ) (s : Store)
    → EachEntry (λ k e. IsQueued now e) s
    → EachEntry (λ k e. IsQueued now e) (check_and_notify cfg now s).state
      × ((check_and_notify cfg now s).failed ≡ false)
unfolding check_and_notify
check_and_notify-IsQueued cfg now s a =
    let swept = sweep_store-IsQueued cfg now s a in rw (swept.1, check_and_notify) (swept.0, refl)

-- What a turn means for the queue of an idle resource. Nobody is dropped but the first, and only
-- after an offer that has stood for the claim window; whoever is then first has been offered the
-- resource; the others keep their order and their bookings.
pub data TurnOf (now : ℕ) : List UserInfo → List UserInfo → Type 0 where
  empty : TurnOf now [] []
  waits :
      (u : UserInfo) (us : List UserInfo)
      → u.is_notified ≡ true
      → now - u.start_time < time_to_lock
      → TurnOf now (u ∷ us) (u ∷ us)
  offers :
      (u : UserInfo) (us : List UserInfo)
      → u.is_notified ≡ false
      → TurnOf now (u ∷ us) (offered now u ∷ us)
  passes :
      (u v : UserInfo) (us : List UserInfo)
      → u.is_notified ≡ true
      → time_to_lock ≤ now - u.start_time
      → TurnOf now (u ∷ v ∷ us) (offered now v ∷ us)
  ends :
      (u : UserInfo)
      → u.is_notified ≡ true
      → time_to_lock ≤ now - u.start_time
      → TurnOf now (u ∷ []) []

pub remove_first :
    (u v : UserInfo) (us : List UserInfo)
    → u.user_id ≡ v.user_id
    → remove_user_info (u ∷ us) v.user_id ≡ us
unfolding remove_user_info
remove_first u v us h = ground arith

-- The three ways a turn goes for the first in the queue.
module _ (now : ℕ) (u : UserInfo) (us : List UserInfo) where
  turn-new : u.is_notified ≡ false → (queue_turn now (u ∷ us)).queue ≡ offered now u ∷ us
  unfolding queue_turn notify_first
  turn-new new = ground arith

  turn-open :
      u.is_notified ≡ true
      → now - u.start_time < time_to_lock
      → (queue_turn now (u ∷ us)).queue ≡ u ∷ us
  unfolding queue_turn
  turn-open told open_ = ground arith

  turn-over :
      u.is_notified ≡ true
      → time_to_lock ≤ now - u.start_time
      → (queue_turn now (u ∷ us)).queue ≡ (notify_first now (u.user_id ∷ []) us).queue
  unfolding queue_turn
  turn-over told over = ground (arith, remove_first u u us refl)

next_turn :
    (now : ℕ) (u : UserInfo) (us : List UserInfo)
    → time_to_lock ≤ now - u.start_time
    → u.is_notified ≡ true
    → TurnOf now (u ∷ us) (notify_first now (u.user_id ∷ []) us).queue
unfolding notify_first
next_turn now u [] over told = ends u told over
next_turn now u (v ∷ us) over told = passes u v us told over

pub queue_turn-TurnOf : (now : ℕ) (us : List UserInfo) → TurnOf now us (queue_turn now us).queue
unfolding queue_turn
queue_turn-TurnOf now [] = empty
queue_turn-TurnOf now (u ∷ us) = elim (Bool-cases u.is_notified) [
  | inr new ↦ subst (λ q. TurnOf now (u ∷ us) q) (sym (turn-new now u us new)) (offers u us new)
  | inl told ↦ elim (Bool-cases (leb time_to_lock (now - u.start_time))) [
    | inr open_ ↦
        subst (λ q. TurnOf now (u ∷ us) q) (sym (turn-open now u us told (ground arith)))
          (waits u us told (ground arith))
    | inl over ↦
        subst (λ q. TurnOf now (u ∷ us) q) (sym (turn-over now u us told (ground arith)))
          (next_turn now u us (ground arith) told)
  ]
]
