-- ===== src/NodeBot/Expiry.antt =====
-- What the sweep of a node bot frees, keeps and announces.
use lockbot.Base.{
  ℕ, ◌+◌, ◌-◌, ◌≤◌, ◌<◌, ◌⊎◌, subst, sym, true, false, ◌≡◌, refl, Option, none, some, List, [], ◌∷◌,
  ◌++◌, elem, arith, Bool-cases, Option-cases, inl, inr, ◌==◌, if◌then◌else◌, ==_iff, ◌||◌,
  elem-add_to_set, add_to_set,
}
use lockbot.Keys.{Key}
use lockbot.Users.{UserInfo, find_user_info, has_user}
use lockbot.Users.Laws.{Started, DistinctUsers, remaining_duration-eq}
use lockbot.State.{Status, idle, exclusive, shared, is_idle, Entry, Store, lookup}
use lockbot.State.Laws.{holding, held_by, lookup_EachEntry, lookup-modify_each}
use lockbot.State.Modes.{Fits}
use lockbot.Config.{Config}
use lockbot.Sweep.{
  Alert, sweep_entry, sweep_user, check_and_notify, sweep_store, swept_cons, entry_scan, scan_users,
  scan_cons, user_alerts, announces, alert_users,
}
use lockbot.Sweep.Users.{survivors, is_live, scan_users-failed}
use lockbot.Sweep.Laws.{
  AllStarted, check_and_notify-state, sweep_entry-survivors, sweep_store-modify_each,
}
use lockbot.NodeBot.Invariant.{IsSound}
use lockbot.NodeBot.History.{AllSound}

-- What the sweep makes of one record: nothing of a lease that has run out, and of a live one the
-- same lease, perhaps marked as warned.
unfoldable pub after_sweep : Config → ℕ → Option UserInfo → Option UserInfo
after_sweep cfg now none = none
after_sweep cfg now (some u) =
    if is_live now u then some (sweep_user cfg u (u.start_time + u.duration - now)) else none

find-absent :
    (cfg : Config) (now : ℕ) (us : List UserInfo) (user : ℕ)
    → has_user us user ≡ false
    → find_user_info (survivors cfg now us) user ≡ none
unfolding survivors find_user_info sweep_user has_user
find-absent cfg now [] user h = refl
find-absent cfg now (u ∷ us) user h = ground (arith, find-absent cfg now us user)

find-survivors :
    (cfg : Config) (now : ℕ) (us : List UserInfo) (user : ℕ)
    → DistinctUsers us
    → find_user_info (survivors cfg now us) user ≡ after_sweep cfg now (find_user_info us user)
unfolding survivors find_user_info sweep_user after_sweep
find-survivors cfg now [] user d = refl
find-survivors cfg now (u ∷ us) user d =
    ground (arith, find-survivors cfg now us user d.1, find-absent cfg now us user)

idle_find :
    (cfg : Config) (now : ℕ) (st : Status) (us : List UserInfo) (user : ℕ)
    → Fits st us
    → is_idle st ≡ true
    → find_user_info us user ≡ after_sweep cfg now (find_user_info us user)
unfolding find_user_info after_sweep is_idle
idle_find cfg now idle [] user f i = refl
idle_find cfg now idle (u ∷ us) user f i = absurd f
idle_find cfg now exclusive us user f i = cc
idle_find cfg now shared us user f i = cc

sweep_entry-find :
    (cfg : Config) (now : ℕ) (k : Key) (e : Entry) (user : ℕ)
    → IsSound e
    → Started now e.current_users
    → find_user_info (sweep_entry cfg now k e).current_users user
      ≡ after_sweep cfg now (find_user_info e.current_users user)
unfolding sweep_entry after_sweep
sweep_entry-find cfg now k e user v a = elim (Bool-cases (is_idle e.status)) [
  | inl i ↦ rw (i, sweep_entry) (idle_find cfg now e.status e.current_users user v.fits i)
  | inr h ↦
      rw (sweep_entry-survivors cfg now k e h a v.distinct)
        (find-survivors cfg now e.current_users user v.distinct)
]

held-after_sweep :
    (cfg : Config) (now : ℕ) (s : Store) (user : ℕ) (q : Key)
    → AllSound s
    → AllStarted now s
    → holding user q (check_and_notify cfg now s).state ≡ after_sweep cfg now (holding user q s)
unfolding holding held_by after_sweep
held-after_sweep cfg now s user q v a =
    rw (check_and_notify-state cfg now s a, lookup-modify_each (sweep_entry cfg now) q s)
      (elim (Option-cases (lookup q s)) [
        | inl miss ↦ rw miss refl
        | inr (e, hit) ↦ rw hit (
            sweep_entry-find cfg now q e user (lookup_EachEntry _ q s e v hit)
              (lookup_EachEntry _ q s e a hit))
      ])

-- What a sweep makes of one record: nothing of a lease that has ended, and of one that runs the same
-- lease, which has been warned of if it was before.
pub data SweptTo (now : ℕ) : Option UserInfo → Option UserInfo → Type 0 where
  absent : SweptTo now none none
  ended : (u : UserInfo) → u.start_time + u.duration ≤ now → SweptTo now (some u) none
  runs :
      (u v : UserInfo)
      → now < u.start_time + u.duration
      → v.user_id ≡ u.user_id
      → v.start_time ≡ u.start_time
      → v.duration ≡ u.duration
      → v.holding_id ≡ u.holding_id
      → v.source ≡ u.source
      → (v.is_notified ≡ u.is_notified) ⊎ (v.is_notified ≡ true)
      → SweptTo now (some u) (some v)

after_sweep-SweptTo :
    (cfg : Config) (now : ℕ) (o : Option UserInfo) → SweptTo now o (after_sweep cfg now o)
unfolding after_sweep sweep_user
after_sweep-SweptTo cfg now none = absent
after_sweep-SweptTo cfg now (some u) = elim (Bool-cases (is_live now u)) [
  | inr over ↦ rw (over, after_sweep) (ended u (ground arith))
  | inl live ↦
      let v = sweep_user cfg u (u.start_time + u.duration - now) in
      rw (live, after_sweep)
        (runs u v (ground arith) (ground arith) (ground arith) (ground arith) (ground arith)
          (ground arith) (ground arith))
]

-- After a sweep of sound nodes at a time when no lease starts in the future, each record is gone if
-- its lease had ended, and otherwise stands with the same user, start, duration, holding and source, and
-- is marked as warned if it was before.
pub holding-sweep :
    (cfg : Config) (now : ℕ) (s : Store) (user : ℕ) (q : Key)
    → AllSound s
    → AllStarted now s
    → SweptTo now (holding user q s) (holding user q (check_and_notify cfg now s).state)
holding-sweep cfg now s user q v a =
    subst (λ o. SweptTo now (holding user q s) o) (sym (held-after_sweep cfg now s user q v a))
      (after_sweep-SweptTo cfg now (holding user q s))

alert_users-append :
    (user : ℕ) (as_ bs : List Alert)
    → elem ◌==◌ user (alert_users (as_ ++ bs))
      ≡ (elem ◌==◌ user (alert_users as_) || elem ◌==◌ user (alert_users bs))
unfolding alert_users elem
alert_users-append user [] bs = refl
alert_users-append user (a ∷ as_) bs = ground (
  arith,
  alert_users-append user as_ bs,
  elem-add_to_set ◌==◌ ==_iff user a.user (alert_users as_),
  elem-add_to_set ◌==◌ ==_iff user a.user (alert_users (as_ ++ bs)),
)

scan_users-alerts :
    (cfg : Config) (now : ℕ) (k : Key) (st : Status) (us : List UserInfo) (user : ℕ) (u : UserInfo)
    → Started now us
    → find_user_info us user ≡ some u
    → is_live now u ≡ false
    → u.is_notified ≡ false
    → elem ◌==◌ user (alert_users (scan_users cfg now k st us).alerts) ≡ true
unfolding scan_users scan_cons find_user_info user_alerts announces alert_users elem add_to_set
scan_users-alerts cfg now k st [] user u a f e n = cc
scan_users-alerts cfg now k st (v ∷ us) user u a f e n =
    let rest = v.duration - (now - v.start_time) in
    ground (
      arith,
      remaining_duration-eq now v.start_time v.duration a.0,
      scan_users-alerts cfg now k st us user u a.1,
      alert_users-append user (user_alerts cfg k st v rest) (scan_users cfg now k st us).alerts,
    )

sweep_store-alerts :
    (cfg : Config) (now : ℕ) (s : Store) (q : Key) (e : Entry) (user : ℕ) (u : UserInfo)
    → AllStarted now s
    → lookup q s ≡ some e
    → is_idle e.status ≡ false
    → find_user_info e.current_users user ≡ some u
    → is_live now u ≡ false
    → u.is_notified ≡ false
    → elem ◌==◌ user (alert_users (sweep_store cfg now s).alerts) ≡ true
unfolding sweep_store swept_cons entry_scan lookup
sweep_store-alerts cfg now [] q e user u a l h f x n = cc
sweep_store-alerts cfg now ((k, c) ∷ s) q e user u a l h f x n = ground (
  arith,
  scan_users-failed cfg now k c.status c.current_users a.0,
  scan_users-alerts cfg now k c.status c.current_users user u a.0,
  sweep_store-alerts cfg now s q e user u a.1,
  alert_users-append user (entry_scan cfg now k c).alerts (sweep_store cfg now s).alerts,
)

-- A holder whose lease has run out and who was never warned is mentioned in the sweep's message.
pub sweep-mentions :
    (cfg : Config) (now : ℕ) (s : Store) (q : Key) (e : Entry) (user : ℕ) (u : UserInfo)
    → AllStarted now s
    → lookup q s ≡ some e
    → is_idle e.status ≡ false
    → find_user_info e.current_users user ≡ some u
    → is_live now u ≡ false
    → u.is_notified ≡ false
    → elem ◌==◌ user (check_and_notify cfg now s).mentioned ≡ true
unfolding check_and_notify
sweep-mentions cfg now s q e user u a l h f x n = ground (
  arith,
  sweep_store-modify_each cfg now s a,
  sweep_store-alerts cfg now s q e user u a l h f x n,
)
