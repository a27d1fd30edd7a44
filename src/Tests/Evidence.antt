-- ===== src/Tests/Evidence.antt =====
-- The evidence of lease changes.
use lockbot.Base.{
  ℕ, ◌+◌, ◌*◌, refl, true, false, none, some, List, [], ◌∷◌, length, map, arith, ◌≤◌, elem,
}
use lockbot.Outbox.{
  Frame, Journal, Save, Canonical, appended, torn, decorate, boundary_of, events_of, default_all,
  set_default, bump_all, bump, prepare_state_write,
}
use lockbot.Outbox.Recover.{recover, accepts, version_refs}
use lockbot.Outbox.Chain.{Chained, Event, prepares, commits, fails, run_events, is_numbered}
use lockbot.Outbox.Saves.{run_events-Chained}
use lockbot.Outbox.Recovery.{Recovered, links, recover-prepare_state_write}

abbrev a_state : Canonical
a_state = record { digest = 50; refs = 3 ∷ []; complete = true }

-- One frame is pending.
abbrev a_frame : Frame
a_frame = record {
  commit_sequence = 4;
  journal_id = 9;
  frame_id = 100;
  atomic_state = true;
  before_digest = 49;
  after_digest = 50;
  boundary = none;
  events = 3 ∷ [];
  versions = (3, 1) ∷ [];
}

abbrev a_journal : Journal
a_journal = record {
  journal_id = 9;
  sequence = 4;
  versions = (3, 1) ∷ [];
  pending = a_frame ∷ [];
  known = [];
  retry_scan = false;
  log = [];
  state = a_state;
  gap = none;
  prepared = none;
}

abbrev a_save : Save
a_save = record {
  current = record { digest = 51; refs = []; complete = true };
  changes = 3 ∷ [];
  reversed = false;
  frame_id = 101;
}

-- A thousand bytes for each frame.
abbrev size : List Frame → ℕ
size fs = length fs * 1000

abbrev some_events : List Event
some_events =
    prepares a_save
    ∷ fails
    ∷ prepares a_save
    ∷ commits (λ f. torn) a_save
    ∷ prepares a_save
    ∷ commits (λ f. appended) a_save
    ∷ []

run_events-Chained_example : Chained (run_events size some_events a_journal)
run_events-Chained_example =
    run_events-Chained some_events size a_journal ((unfold is_numbered in refl, omega arith), tt)

few : length (decorate true a_journal a_save).versions ≤ 4096
unfolding decorate boundary_of events_of default_all set_default bump_all bump
few = omega arith

recover-prepare_state_write_example :
    Recovered
      (recover size a_save.current
        (map (λ f. some f) (prepare_state_write size a_save a_journal).pending)
        a_journal)
      (prepare_state_write size a_save a_journal).pending
      (4 + 1)
      9
recover-prepare_state_write_example =
    recover-prepare_state_write size a_save a_journal a_journal (omega arith) few refl
      (unfold accepts version_refs elem in refl) refl (unfold links in refl, refl)
