-- ===== src/Tests/Timers.antt =====
-- The scheduler.
use lockbot.Base.{true, ◌≡◌, refl, ◌==◌, if◌then◌else◌, none, some, List, [], ◌∷◌}
use lockbot.Scheduler.{failed}
use lockbot.Scheduler.Coverage.{run_events-is_covered}
use lockbot.Scheduler.World.{
  World, Event, adds, sleeps, fires, sweeps, finishes, run_events, is_covered, covers, has_timer,
  is_missing,
}

-- Bot 3 is registered, with its first check due at 100; no other bot is.
abbrev registered : World
registered = record {
  scheduler = record {
    instances = λ b. if b == 3 then some 8 else none;
    heap = (record { fire_at = 100; gen = 2; bot_id = 3 }) ∷ [];
    gens = λ b. 2;
    failure_counts = λ b. 4;
    callbacks = λ b. none;
    admissions = λ b. some 1;
    mgr_gens = λ b. 6;
  };
  due = [];
  outcome = none;
}

-- The check of bot 3 fails for the fifth time while a new registration comes in.
abbrev some_events : List Event
some_events =
    fires 120 ∷ sweeps failed ∷ adds 121 3 9 0 none (some 1) 7 ∷ finishes 122 ∷ sleeps 123 ∷ []

registered-is_covered : is_covered 3 registered ≡ true
unfolding is_covered covers has_timer is_missing
registered-is_covered = refl

run_events-is_covered_example : is_covered 3 (run_events some_events registered) ≡ true
run_events-is_covered_example = run_events-is_covered some_events registered 3 registered-is_covered
