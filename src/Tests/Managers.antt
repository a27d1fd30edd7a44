-- ===== src/Tests/Managers.antt =====
-- The bot manager.
use lockbot.Base.{length, ◌+◌, ◌≡◌, refl, true, false, none, some, List, [], ◌∷◌, ◌++◌, all, arith}
use lockbot.Manager.{
  Slot, running, Request, admit, sweep_request, is_at, is_some, still_ours, lease_is_current,
  admit_instance, find_instance,
}
use lockbot.Scheduler.{is_stale}
use lockbot.Manager.World.{
  World, Held, draining, idle, Event, admits, releases, settles, fails, stops, retires, enters,
  exits, run_events, restart_bot, step, after_admit, owns,
}
use lockbot.Manager.Admit.{Verdict, admit-Verdict}
use lockbot.Manager.Sound.{Sound, is_held, count_capped, is_coherent, is_running, is_deep, agrees}
use lockbot.Manager.Retiring.{run_events-Sound, run_events-lease_is_current}
use lockbot.Manager.Retired.{run_events-refuses_sweep, is_over, is_turned_away}
use lockbot.Manager.Drain.{run_events-stops, release_all, settle_all, stopped}
use lockbot.Manager.Lifecycle.{Life, phase}
use lockbot.Manager.Lives.{run_events-Life}
use lockbot.Manager.Restart.{run_events-restarts, at_rest, serving}

-- Instance 7 serves under generation 3.
abbrev serving_slot : Slot
serving_slot = record {
  live = some 7;
  failed = none;
  retiring = false;
  inflight = 1;
  generation = 3;
  health = some running;
  staged = none;
  fatal_pending = 0;
  owner = none;
}

abbrev a_command : Request
a_command = record {
  enforce_cap = true;
  for_read = false;
  expected_generation = none;
  expected_instance = none;
}

abbrev one_held : List Held
one_held =
    (record {
      lease = record { generation = 3; instance = 7; health = some running };
      under_cap = true;
    })
    ∷ []

abbrev serving_world : World
serving_world = record { slot = serving_slot; leases = one_held; fatals = []; stage = idle }

-- Thread 1 waits to retire the generation.
abbrev draining_world : World
draining_world = record {
  slot = record serving_slot { retiring = true; owner = some (1, 2) };
  leases = one_held;
  fatals = [];
  stage = draining 3;
}

serving_world-Sound : Sound 2 serving_world
unfolding is_held count_capped is_coherent is_running is_deep agrees is_at is_some still_ours
serving_world-Sound = (refl, refl, refl, refl, omega arith, refl, refl, refl)

draining_world-Sound : Sound 2 draining_world
unfolding is_held count_capped is_coherent is_running is_deep agrees is_at is_some still_ours
draining_world-Sound = (refl, refl, refl, refl, omega arith, refl, refl, refl)

-- A stop of the bot, a command that comes too late, a fatal error meanwhile, and the end of all.
abbrev a_stop : List Event
a_stop =
    enters 1
    ∷ stops 1
    ∷ admits a_command
    ∷ fails 3
    ∷ releases 0
    ∷ retires 1
    ∷ settles 0
    ∷ retires 1
    ∷ exits 1
    ∷ []

run_events-Sound_example : Sound 2 (run_events 2 a_stop serving_world)
run_events-Sound_example = run_events-Sound a_stop 2 serving_world serving_world-Sound

run_events-lease_is_current_example :
    all
      (λ h. lease_is_current h.lease (run_events 2 (admits a_command ∷ []) serving_world).slot)
      (run_events 2 (admits a_command ∷ []) serving_world).leases
    ≡ true
run_events-lease_is_current_example =
    run_events-lease_is_current (admits a_command ∷ []) 2 serving_world serving_world-Sound (
      unfold run_events step after_admit admit admit_instance find_instance is_some is_at
        is_stale in
      refl)

admit-Verdict_example : Verdict 1 a_command serving_slot (admit 1 a_command serving_slot)
admit-Verdict_example = admit-Verdict 1 a_command serving_slot

run_events-refuses_sweep_example :
    is_turned_away (admit 2 (sweep_request 2 6) (run_events 2 a_stop serving_world).slot) ≡ true
run_events-refuses_sweep_example =
    run_events-refuses_sweep 2 2 6 a_stop serving_world (unfold is_over in refl)

run_events-stops_example :
    run_events 2 (release_all one_held ++ (settle_all [] ++ retires 1 ∷ [])) draining_world
    ≡ stopped 3 (some (1, 2))
run_events-stops_example =
    run_events-stops 2 1 3 draining_world draining_world-Sound refl (unfold owns in refl)

run_events-restarts_example :
    run_events 2
      (restart_bot 1 8 (record serving_slot { inflight = 0 }))
      (at_rest (record serving_slot { inflight = 0 }))
    ≡ serving 8 (3 + 1) none
run_events-restarts_example =
    run_events-restarts 2 1 8 (record serving_slot { inflight = 0 })
      (unfold is_coherent is_some is_running in refl) refl refl refl refl

run_events-Life_example :
    Life
      (phase serving_slot)
      3
      1
      (phase (run_events 2 a_stop serving_world).slot)
      (run_events 2 a_stop serving_world).slot.generation
      (length (run_events 2 a_stop serving_world).leases)
run_events-Life_example = run_events-Life a_stop 2 serving_world serving_world-Sound
