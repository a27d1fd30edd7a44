-- ===== src/DeviceBot/Sweep.antt =====
-- The timer's sweep of a device bot, `_check_and_notify` of python/lockbot/core/device_bot.py, and
-- the grouping of its lines in python/lockbot/core/device_usage_alert.py.
use lockbot.Base.{
  ℕ, ◌+◌, Bool, true, false, ◌||◌, Option, none, List, [], ◌∷◌, ◌++◌, ◌==◌, if◌then◌else◌,
}
use lockbot.Keys.{card}
use lockbot.State.{is_idle, Card, Fleet}
use lockbot.Config.{Config}
use lockbot.Sweep.{
  Alert, Scan, entry_scan, sweep_entry, alert_users, min_next, next_of_users, at_least_one,
}

pub record CardsSwept : Type 0 where
  pub cards : List Card
  pub alerts : List Alert
  pub changed : Bool
  pub failed : Bool

unfoldable pub cards_cons : Card → Scan → CardsSwept → CardsSwept
cards_cons c scan rest = record {
  cards = c ∷ rest.cards;
  alerts = scan.alerts ++ rest.alerts;
  changed = scan.changed || rest.changed;
  failed = rest.failed;
}

unfoldable pub sweep_card : Config → ℕ → ℕ → Card → Card
sweep_card cfg now w c = record c { entry = sweep_entry cfg now (card w c.dev_id) c.entry }

-- The inner loop. An exception leaves the later cards as they were.
unfoldable pub sweep_cards : Config → ℕ → ℕ → List Card → CardsSwept
sweep_cards cfg now w [] = record { cards = []; alerts = []; changed = false; failed = false }
sweep_cards cfg now w (c ∷ cs) =
    let scan = entry_scan cfg now (card w c.dev_id) c.entry in
    elim scan.failed [
      | true ↦ record {
        cards = sweep_card cfg now w c ∷ cs;
        alerts = scan.alerts;
        changed = scan.changed;
        failed = true;
      }
      | false ↦ cards_cons (sweep_card cfg now w c) scan (sweep_cards cfg now w cs)
    ]

pub record FleetSwept : Type 0 where
  pub state : Fleet
  pub alerts : List Alert
  pub changed : Bool
  pub failed : Bool

unfoldable pub fleet_cons : ℕ → CardsSwept → FleetSwept → FleetSwept
fleet_cons w here rest = record {
  state = (w, here.cards) ∷ rest.state;
  alerts = here.alerts ++ rest.alerts;
  changed = here.changed || rest.changed;
  failed = rest.failed;
}

unfoldable pub sweep_fleet : Config → ℕ → Fleet → FleetSwept
sweep_fleet cfg now [] = record { state = []; alerts = []; changed = false; failed = false }
sweep_fleet cfg now ((w, cs) ∷ f) =
    let here = sweep_cards cfg now w cs in
    elim here.failed [
      | true ↦ record {
        state = (w, here.cards) ∷ f;
        alerts = here.alerts;
        changed = here.changed;
        failed = true;
      }
      | false ↦ fleet_cons w here (sweep_fleet cfg now f)
    ]

unfoldable pub next_of_cards : Config → ℕ → List Card → Option ℕ
next_of_cards cfg now [] = none
next_of_cards cfg now (c ∷ cs) =
    let rest = next_of_cards cfg now cs in
    if is_idle c.entry.status
    then rest
    else min_next (next_of_users cfg now c.entry.current_users) rest

unfoldable pub next_of_fleet : Config → ℕ → Fleet → Option ℕ
next_of_fleet cfg now [] = none
next_of_fleet cfg now ((w, cs) ∷ f) = min_next (next_of_cards cfg now cs) (next_of_fleet cfg now f)

pub record FleetSweep : Type 0 where
  pub state : Fleet
  pub saved : Bool
  pub alerts : List Alert
  pub mentioned : List ℕ
  pub next : ℕ → Option ℕ
  pub failed : Bool

unfoldable pub check_and_notify : Config → ℕ → Fleet → FleetSweep
check_and_notify cfg now f =
    let swept = sweep_fleet cfg now f in
    if swept.failed
    then record {
      state = swept.state;
      saved = false;
      alerts = [];
      mentioned = [];
      next = λ later. none;
      failed = true;
    }
    else record {
      state = swept.state;
      saved = swept.changed;
      alerts = swept.alerts;
      mentioned = alert_users swept.alerts;
      next = λ later. at_least_one (next_of_fleet cfg later swept.state);
      failed = false;
    }

-- The loop that merges the sorted devices of one group into ranges: `start` and `end` are those of
-- the range at hand.
unfoldable pub merge_from : ℕ → ℕ → List ℕ → List (ℕ × ℕ)
merge_from start end [] = (start, end) ∷ []
merge_from start end (d ∷ ds) =
    let rest = merge_from (if d == end + 1 then start else d) d ds in
    if d == end + 1 then rest else (start, end) ∷ rest

unfoldable pub merge_devices : List ℕ → List (ℕ × ℕ)
merge_devices [] = []
merge_devices (d ∷ ds) = merge_from d d ds
