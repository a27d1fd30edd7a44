-- ===== src/Scheduler/World.antt =====
-- The sections of the scheduler's lock, interleaved.
use lockbot.Base.{ℕ, Bool, true, false, ◌&&◌, ◌||◌, Option, none, some, List, [], ◌∷◌, ◌==◌, not}
use lockbot.Scheduler.{
  Timer, Scheduler, Item, Check, add, remove, reschedule_soon, next_sleep, pop_due, run_check,
  finish,
}

-- The scheduler between sections of its lock: its dictionaries, and the items that the thread has
-- popped and not yet finished, with the outcome of the first one's sweep when it has run.
pub record World : Type 0 where
  pub scheduler : Scheduler
  pub due : List Item
  pub outcome : Option Check

-- The sections, by whichever thread. The scheduler's own thread pops only when it has finished.
pub data Event : Type 0 where
  adds : ℕ → ℕ → ℕ → ℕ → Option ℕ → Option ℕ → ℕ → Event
  removes : Option ℕ → ℕ → Event
  reschedules : ℕ → ℕ → Event
  sleeps fires finishes : ℕ → Event
  sweeps : Check → Event

unfoldable pub fire : ℕ → Scheduler → List Item → Option Check → World
fire now s [] o =
    let (heap, due) = pop_due s now s.heap in
    record { scheduler = record s { heap = heap }; due = due; outcome = none }
fire now s (i ∷ is) o = record { scheduler = s; due = i ∷ is; outcome = o }

-- The sweep of the first item runs, unless it has; it changes no dictionary of the scheduler.
unfoldable pub sweep_first : Check → Scheduler → List Item → Option Check → Option Check
sweep_first sweep s [] o = none
sweep_first sweep s (i ∷ is) (some o) = some o
sweep_first sweep s (i ∷ is) none = some (run_check s i sweep)

-- The first item is finished: at once if it has no instance, and else when its sweep has run.
unfoldable pub finish_first : ℕ → Scheduler → List Item → Option Check → World
finish_first now s [] o = record { scheduler = s; due = []; outcome = none }
finish_first now s (i ∷ is) o = elim i.instance [
  | none ↦ record { scheduler = s; due = is; outcome = none }
  | some x ↦ elim o [
    | none ↦ record { scheduler = s; due = i ∷ is; outcome = none }
    | some outcome ↦ record { scheduler = finish now i outcome s; due = is; outcome = none }
  ]
]

unfoldable pub step : Event → World → World
step (adds now bot i delay callback admission gen) w = record w {
  scheduler = add now bot i delay callback admission gen w.scheduler;
}
step (removes expected bot) w = record w { scheduler = remove expected bot w.scheduler }
step (reschedules now bot) w = record w { scheduler = reschedule_soon now bot w.scheduler }
step (sleeps now) w = record w { scheduler = (next_sleep now w.scheduler).0 }
step (fires now) w = fire now w.scheduler w.due w.outcome
step (sweeps sweep) w = record w { outcome = sweep_first sweep w.scheduler w.due w.outcome }
step (finishes now) w = finish_first now w.scheduler w.due w.outcome

unfoldable pub run_events : List Event → World → World
run_events [] w = w
run_events (c ∷ cs) w = run_events cs (step c w)

unfoldable pub is_missing : Option ℕ → Bool
is_missing none = true
is_missing (some i) = false

-- The heap has an entry of this generation of the bot.
unfoldable pub has_timer : ℕ → ℕ → List Timer → Bool
has_timer bot gen [] = false
has_timer bot gen (t ∷ ts) = (t.bot_id == bot && t.gen == gen) || has_timer bot gen ts

-- An item of this generation, and of this registration, of the bot is to be finished.
unfoldable pub has_item : ℕ → ℕ → ℕ → List Item → Bool
has_item bot gen mgr [] = false
has_item bot gen mgr (i ∷ is) =
    (i.bot_id == bot && (i.gen == gen && (i.mgr_gen == mgr && not (is_missing i.instance))))
    || has_item bot gen mgr is

-- The bot is not registered, or its next sweep is due at some time or about to be finished.
unfoldable pub covers : ℕ → Scheduler → List Item → Bool
covers bot s due =
    is_missing (s.instances bot)
    || (has_timer bot (s.gens bot) s.heap || has_item bot (s.gens bot) (s.mgr_gens bot) due)

unfoldable pub is_covered : ℕ → World → Bool
unfolding covers
is_covered bot w = covers bot w.scheduler w.due
