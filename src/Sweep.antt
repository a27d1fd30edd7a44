-- ===== src/Sweep.antt =====
-- The expiry sweep of a node bot: `_check_and_notify` of python/lockbot/core/node_bot.py.
-- One reading of the clock serves the whole sweep.
use lockbot.Base.{
  ℕ, ◌-◌, Bool, true, false, ◌&&◌, ◌||◌, not, Option, none, some, List, [], ◌∷◌, ◌++◌, ltb, leb,
  ◌==◌, if◌then◌else◌, add_to_set,
}
use lockbot.Keys.{Key}
use lockbot.Users.{UserInfo, remove_user_info, remaining_duration}
use lockbot.State.{Status, idle, exclusive, shared, is_idle, settle, Entry, Store}
use lockbot.Config.{Config}
pub mod Users
pub mod Laws

-- One line of `alert_info`: who, which resource, in which mode, with what time left.
pub record Alert : Type 0 where
  pub user : ℕ
  pub key : Key
  pub mode : Status
  pub remaining : ℕ

-- The round of the loop for one user, once the remaining time is known.
-- The user is warned early, if that is switched on and the end is near.
unfoldable pub warns : Config → UserInfo → ℕ → Bool
warns cfg u rest =
    cfg.early_notify && (not u.is_notified && (ltb 0 rest && leb rest cfg.time_alert))

-- The lease has run out and no warning was sent.
unfoldable pub announces : UserInfo → ℕ → Bool
announces u rest = rest == 0 && not u.is_notified

unfoldable pub sweep_user : Config → UserInfo → ℕ → UserInfo
sweep_user cfg u rest = if warns cfg u rest then record u { is_notified = true } else u

unfoldable pub user_alerts : Config → Key → Status → UserInfo → ℕ → List Alert
user_alerts cfg k st u rest =
    let alert : Alert = record { user = u.user_id; key = k; mode = st; remaining = rest } in
    if announces u rest || warns cfg u rest then alert ∷ [] else []

-- What the loop over the users of an entry has done. `failed` is an AssertionError.
pub record Scan : Type 0 where
  pub users : List UserInfo
  pub removed : List ℕ
  pub alerts : List Alert
  pub changed : Bool
  pub failed : Bool

unfoldable pub scan_cons : Config → Key → Status → UserInfo → ℕ → Scan → Scan
scan_cons cfg k st u rest scan = record {
  users = sweep_user cfg u rest ∷ scan.users;
  removed = if rest == 0 then u.user_id ∷ scan.removed else scan.removed;
  alerts = user_alerts cfg k st u rest ++ scan.alerts;
  changed = rest == 0 || (warns cfg u rest || scan.changed);
  failed = scan.failed;
}

unfoldable pub scan_users : Config → ℕ → Key → Status → List UserInfo → Scan
scan_users cfg now k st [] = record {
  users = [];
  removed = [];
  alerts = [];
  changed = false;
  failed = false;
}
scan_users cfg now k st (u ∷ us) = elim (remaining_duration now u.start_time u.duration) [
  | none ↦ record { users = u ∷ us; removed = []; alerts = []; changed = false; failed = true }
  | some rest ↦ scan_cons cfg k st u rest (scan_users cfg now k st us)
]

-- `for user_id in removed_users_id: remove_user_info(...)`.
unfoldable pub remove_users : List ℕ → List UserInfo → List UserInfo
remove_users [] us = us
remove_users (x ∷ xs) us = remove_users xs (remove_user_info us x)

-- The entry after its loop: a failed assertion skips the removals.
unfoldable pub finish_entry : Entry → Scan → Entry
finish_entry e scan =
    let users = remove_users scan.removed scan.users in
    if scan.failed
    then record e { current_users = scan.users }
    else record e { status = settle e.status users; current_users = users }

unfoldable pub sweep_entry : Config → ℕ → Key → Entry → Entry
sweep_entry cfg now k e =
    if is_idle e.status then e else finish_entry e (scan_users cfg now k e.status e.current_users)

-- What one entry adds to the variables of the sweep.
unfoldable pub entry_scan : Config → ℕ → Key → Entry → Scan
entry_scan cfg now k e =
    if is_idle e.status
    then record { users = []; removed = []; alerts = []; changed = false; failed = false }
    else scan_users cfg now k e.status e.current_users

pub record Swept : Type 0 where
  pub store : Store
  pub alerts : List Alert
  pub changed : Bool
  pub failed : Bool

unfoldable pub swept_cons : Key → Entry → Scan → Swept → Swept
swept_cons k e scan rest = record {
  store = (k, e) ∷ rest.store;
  alerts = scan.alerts ++ rest.alerts;
  changed = scan.changed || rest.changed;
  failed = rest.failed;
}

-- The loop over the resources. An exception leaves the later ones as they were.
unfoldable pub sweep_store : Config → ℕ → Store → Swept
sweep_store cfg now [] = record { store = []; alerts = []; changed = false; failed = false }
sweep_store cfg now ((k, e) ∷ s) =
    let scan = entry_scan cfg now k e in
    elim scan.failed [
      | true ↦ record {
        store = (k, sweep_entry cfg now k e) ∷ s;
        alerts = scan.alerts;
        changed = scan.changed;
        failed = true;
      }
      | false ↦ swept_cons k (sweep_entry cfg now k e) scan (sweep_store cfg now s)
    ]

-- `min_next`; `none` is infinity.
unfoldable pub min_next : Option ℕ → Option ℕ → Option ℕ
min_next none b = b
min_next (some a) none = some a
min_next (some a) (some b) = some (if leb a b then a else b)

-- The wake-up for one user; a difference below zero would be raised to one second in the end.
unfoldable pub next_event : Config → ℕ → UserInfo → Option ℕ
next_event cfg now u = elim (remaining_duration now u.start_time u.duration) [
  | none ↦ none
  | some rest ↦
      if rest == 0
      then none
      else some (if cfg.early_notify && not u.is_notified then rest - cfg.time_alert else rest)
]

unfoldable pub next_of_users : Config → ℕ → List UserInfo → Option ℕ
next_of_users cfg now [] = none
next_of_users cfg now (u ∷ us) = min_next (next_event cfg now u) (next_of_users cfg now us)

unfoldable pub next_of_store : Config → ℕ → Store → Option ℕ
next_of_store cfg now [] = none
next_of_store cfg now ((k, e) ∷ s) =
    let rest = next_of_store cfg now s in
    if is_idle e.status then rest else min_next (next_of_users cfg now e.current_users) rest

-- `max(1.0, min_next)`.
unfoldable pub at_least_one : Option ℕ → Option ℕ
at_least_one none = none
at_least_one (some n) = some (if leb 1 n then n else 1)

unfoldable pub alert_users : List Alert → List ℕ
alert_users [] = []
alert_users (a ∷ as_) = add_to_set ◌==◌ a.user (alert_users as_)

-- What the sweep leaves and returns: the state, whether it was written to disk, the lines and
-- users of the message (none is sent if there is no line), and the seconds to the next event. The loop that
-- computes these reads the clock again, after the state is saved: `next` takes that reading.
pub record Sweep : Type 0 where
  pub state : Store
  pub saved : Bool
  pub alerts : List Alert
  pub mentioned : List ℕ
  pub next : ℕ → Option ℕ
  pub failed : Bool

unfoldable pub check_and_notify : Config → ℕ → Store → Sweep
check_and_notify cfg now s =
    let swept = sweep_store cfg now s in
    if swept.failed
    then record {
      state = swept.store;
      saved = false;
      alerts = [];
      mentioned = [];
      next = λ later. none;
      failed = true;
    }
    else record {
      state = swept.store;
      saved = swept.changed;
      alerts = swept.alerts;
      mentioned = alert_users swept.alerts;
      next = λ later. at_least_one (next_of_store cfg later swept.store);
      failed = false;
    }
