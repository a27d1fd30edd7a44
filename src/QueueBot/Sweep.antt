-- ===== src/QueueBot/Sweep.antt =====
-- The timer's sweep of a queue bot: `_check_and_notify` of python/lockbot/core/queue_bot.py.
-- The loop over the holders has the text of the node bot's.
use lockbot.Base.{
  ℕ, ◌+◌, ◌-◌, Bool, true, false, ◌&&◌, ◌||◌, not, Option, none, some, List, [], ◌∷◌, ◌++◌, leb,
  ◌==◌, if◌then◌else◌, add_to_set,
}
use lockbot.Keys.{Key}
use lockbot.Users.{UserInfo, remove_user_info}
use lockbot.State.{is_idle, Entry, Store}
use lockbot.Config.{Config}
use lockbot.Policy.{is_empty}
use lockbot.Sweep.{
  Alert, Scan, entry_scan, sweep_entry, alert_users, min_next, next_of_users, at_least_one,
}

-- TIME_TO_LOCK, the claim window.
abbrev pub time_to_lock : ℕ
time_to_lock = 300

-- `setdefault("booked_start_time", ...)`.
unfoldable pub set_booked_start : UserInfo → Option ℕ
set_booked_start u = elim u.booked_start_time [ none ↦ some u.start_time | some t ↦ some t ]

-- The first in the queue as `notify_first_booking_user` leaves it.
unfoldable pub offered : ℕ → UserInfo → UserInfo
offered now u = record u {
  booked_start_time = set_booked_start u;
  is_notified = true;
  start_time = now;
}

-- What the second part of the sweep does to a queue: the queue, who has lost the turn, and who is
-- offered the resource.
pub record Turn : Type 0 where
  pub queue : List UserInfo
  pub expired : List ℕ
  pub offers : List ℕ

unfoldable pub notify_first : ℕ → List ℕ → List UserInfo → Turn
notify_first now expired [] = record { queue = []; expired = expired; offers = [] }
notify_first now expired (u ∷ us) = record {
  queue = offered now u ∷ us;
  expired = expired;
  offers = u.user_id ∷ [];
}

unfoldable pub queue_turn : ℕ → List UserInfo → Turn
queue_turn now [] = record { queue = []; expired = []; offers = [] }
queue_turn now (u ∷ us) =
    if not u.is_notified
    then notify_first now [] (u ∷ us)
    else if leb time_to_lock (now - u.start_time)
    then notify_first now (u.user_id ∷ []) (remove_user_info (u ∷ us) u.user_id)
    else record { queue = u ∷ us; expired = []; offers = [] }

-- The second part for an entry whose holders are already swept.
unfoldable pub entry_turn : ℕ → Entry → Turn
entry_turn now e =
    if is_idle e.status
    then queue_turn now e.booking_list
    else record { queue = e.booking_list; expired = []; offers = [] }

unfoldable pub queue_entry : Config → ℕ → Key → Entry → Entry
queue_entry cfg now k e =
    let swept = sweep_entry cfg now k e in
    record swept { booking_list = (entry_turn now swept).queue }

pub record QueueSwept : Type 0 where
  pub store : Store
  pub alerts : List Alert
  pub expired : List (ℕ × Key)
  pub offers : List (ℕ × Key)
  pub changed : Bool
  pub failed : Bool

unfoldable pub with_key : Key → List ℕ → List (ℕ × Key)
with_key k [] = []
with_key k (u ∷ us) = (u, k) ∷ with_key k us

unfoldable pub queue_cons : Key → Entry → Scan → Turn → QueueSwept → QueueSwept
queue_cons k e scan turn rest = record {
  store = (k, e) ∷ rest.store;
  alerts = scan.alerts ++ rest.alerts;
  expired = with_key k turn.expired ++ rest.expired;
  offers = with_key k turn.offers ++ rest.offers;
  changed =
      scan.changed || (not (is_empty turn.expired) || (not (is_empty turn.offers) || rest.changed));
  failed = rest.failed;
}

-- The loop over the resources. An exception in the scan of the holders leaves the later ones, and
-- the queue of this one, as they were.
unfoldable pub sweep_store : Config → ℕ → Store → QueueSwept
sweep_store cfg now [] = record {
  store = [];
  alerts = [];
  expired = [];
  offers = [];
  changed = false;
  failed = false;
}
sweep_store cfg now ((k, e) ∷ s) =
    let scan = entry_scan cfg now k e in
    elim scan.failed [
      | true ↦ record {
        store = (k, sweep_entry cfg now k e) ∷ s;
        alerts = scan.alerts;
        expired = [];
        offers = [];
        changed = scan.changed;
        failed = true;
      }
      | false ↦
          queue_cons k (queue_entry cfg now k e) scan (entry_turn now (sweep_entry cfg now k e))
            (sweep_store cfg now s)
    ]

-- The wake-up for a queue: the end of the claim window, or soon if nobody was told yet. A start
-- at second 0 counts as none.
unfoldable pub next_of_queue : ℕ → List UserInfo → Option ℕ
next_of_queue now [] = none
next_of_queue now (u ∷ us) =
    if u.is_notified && not (u.start_time == 0)
    then some (time_to_lock + u.start_time - now)
    else some 1

unfoldable pub next_of_store : Config → ℕ → Store → Option ℕ
next_of_store cfg now [] = none
next_of_store cfg now ((k, e) ∷ s) =
    let rest = min_next (next_of_queue now e.booking_list) (next_of_store cfg now s) in
    if is_idle e.status then rest else min_next (next_of_users cfg now e.current_users) rest

unfoldable pub add_named : List (ℕ × Key) → List ℕ → List ℕ
add_named [] acc = acc
add_named ((u, k) ∷ us) acc = add_to_set ◌==◌ u (add_named us acc)

-- `user_ids`: those alerted, those who lost their turn, and those who are offered a resource.
unfoldable pub sweep_users : QueueSwept → List ℕ
sweep_users swept = add_named swept.expired (add_named swept.offers (alert_users swept.alerts))

pub record QueueSweep : Type 0 where
  pub state : Store
  pub saved : Bool
  pub sent : Bool
  pub mentioned : List ℕ
  pub next : ℕ → Option ℕ
  pub failed : Bool

-- A message goes out if there is a line on a lease or an offer; `sent` says so.
unfoldable pub check_and_notify : Config → ℕ → Store → QueueSweep
check_and_notify cfg now s =
    let swept = sweep_store cfg now s in
    let sent = not (is_empty swept.alerts) || not (is_empty swept.offers) in
    if swept.failed
    then record {
      state = swept.store;
      saved = false;
      sent = false;
      mentioned = [];
      next = λ later. none;
      failed = true;
    }
    else record {
      state = swept.store;
      saved = swept.changed;
      sent = sent;
      mentioned = if sent then sweep_users swept else [];
      next = λ later. at_least_one (next_of_store cfg later swept.store);
      failed = false;
    }
