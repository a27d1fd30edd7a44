-- ===== src/Sweep/Laws.antt =====
-- What a sweep leaves of a store.
use lockbot.Base.{ℕ, false, ◌≡◌, refl, [], ◌∷◌, ap, arith, Bool-cases, inl, inr}
use lockbot.Keys.{Key}
use lockbot.State.{Entry, Store, is_idle, settle, modify_each}
use lockbot.State.Laws.{EachEntry}
use lockbot.Users.Laws.{Started, DistinctUsers}
use lockbot.Config.{Config}
use lockbot.Sweep.{sweep_entry, finish_entry, entry_scan, sweep_store, swept_cons, check_and_notify}
use lockbot.Sweep.Users.{scan_users-failed, survivors, remove_users-scan_users}

module _ (P : Key → Entry → Type 0) (cfg : Config) (now : ℕ)
    (h : (k : Key) (e : Entry) → P k e → P k (sweep_entry cfg now k e)) where
  sweep_store-EachEntry : (s : Store) → EachEntry P s → EachEntry P (sweep_store cfg now s).store
  unfolding sweep_store swept_cons
  sweep_store-EachEntry [] a = tt
  sweep_store-EachEntry ((k, e) ∷ s) a = elim (Bool-cases (entry_scan cfg now k e).failed) [
    | inl bad ↦ rw (bad, sweep_store) (h k e a.0, a.1)
    | inr good ↦ rw (good, sweep_store) (h k e a.0, sweep_store-EachEntry s a.1)
  ]

  -- A statement on entries that the sweep of each keeps holds after the whole, failed or not.
  pub check_and_notify-EachEntry :
      (s : Store) → EachEntry P s → EachEntry P (check_and_notify cfg now s).state
  unfolding check_and_notify
  check_and_notify-EachEntry s a = elim (Bool-cases (sweep_store cfg now s).failed) [
    | inl bad ↦ rw (bad, check_and_notify) (sweep_store-EachEntry s a)
    | inr good ↦ rw (good, check_and_notify) (sweep_store-EachEntry s a)
  ]

-- No lease of the store starts in the future.
abbrev pub AllStarted : ℕ → Store → Type 0
AllStarted now = EachEntry (λ k e. Started now e.current_users)

entry_scan-failed :
    (cfg : Config) (now : ℕ) (k : Key) (e : Entry)
    → Started now e.current_users
    → (entry_scan cfg now k e).failed ≡ false
unfolding entry_scan
entry_scan-failed cfg now k e a =
    ground (arith, scan_users-failed cfg now k e.status e.current_users a)

-- Then the sweep meets every entry.
pub sweep_store-modify_each :
    (cfg : Config) (now : ℕ) (s : Store)
    → AllStarted now s
    → ((sweep_store cfg now s).store ≡ modify_each (sweep_entry cfg now) s)
      × ((sweep_store cfg now s).failed ≡ false)
unfolding sweep_store swept_cons modify_each
sweep_store-modify_each cfg now [] a = (refl, refl)
sweep_store-modify_each cfg now ((k, e) ∷ s) a =
    let rest = sweep_store-modify_each cfg now s a.1 in
    rw (entry_scan-failed cfg now k e a.0, sweep_store)
      (ap (◌∷◌ (k, sweep_entry cfg now k e)) rest.0, rest.1)

pub check_and_notify-state :
    (cfg : Config) (now : ℕ) (s : Store)
    → AllStarted now s
    → (check_and_notify cfg now s).state ≡ modify_each (sweep_entry cfg now) s
unfolding check_and_notify
check_and_notify-state cfg now s a =
    let swept = sweep_store-modify_each cfg now s a in rw (swept.1, check_and_notify) swept.0

-- An entry in use keeps its survivors, and is idle if there are none.
pub sweep_entry-survivors :
    (cfg : Config) (now : ℕ) (k : Key) (e : Entry)
    → is_idle e.status ≡ false
    → Started now e.current_users
    → DistinctUsers e.current_users
    → sweep_entry cfg now k e ≡ record e {
      status = settle e.status (survivors cfg now e.current_users);
      current_users = survivors cfg now e.current_users;
    }
unfolding sweep_entry finish_entry
sweep_entry-survivors cfg now k e h a d = rw (
  h,
  sweep_entry,
  scan_users-failed cfg now k e.status e.current_users a,
  finish_entry,
  remove_users-scan_users cfg now k e.status e.current_users a d,
)
