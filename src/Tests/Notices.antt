-- ===== src/Tests/Notices.antt =====
-- The notification queue.
use lockbot.Base.{◌≡◌, refl, true, false, none, some, List, [], ◌∷◌, ◌++◌, arith}
use lockbot.Policy.{is_empty}
use lockbot.Notify.{Message, PublicEvent, Limits, Target, Batch, bytes, width, too_long, take_batch}
use lockbot.Notify.Queue.{
  NotificationQueue, Event, offers, takes, finishes, cancels, deferred, settled, run_events,
}
use lockbot.Notify.Bounds.{total}
use lockbot.Notify.Sends.{Bounded}
use lockbot.Notify.Capacity.{run_events-Bounded}
use lockbot.Notify.Pack.{texts}
use lockbot.Notify.Packed.{Notice, Joined, Sendable, Complete, take_batch-Packed}

-- Texts of up to eight characters, three events in a batch.
abbrev limits : Limits
limits = record {
  interval = 10;
  workers = 2;
  max_bots = 2;
  max_events = 3;
  max_bytes = 20;
  max_chars = 8;
  max_text_bytes = 16;
}

abbrev a_target : Target
a_target = record { bot_id = 1; generation = 3; key = 9; overflow_text = λ n. 63 ∷ n ∷ [] }

abbrev an_event : PublicEvent
an_event = record { text = 97 ∷ 252 ∷ []; is_alias = false }

abbrev an_alias : PublicEvent
an_alias = record { text = 120 ∷ []; is_alias = true }

-- Two events and a loss to report.
abbrev a_batch : Batch
a_batch = record {
  ref = 0;
  target = a_target;
  due = 5;
  events = an_event ∷ an_alias ∷ [];
  size = 4;
  dropped = 1;
  sending = false;
  cancelled = false;
  retry_text = none;
  retry_until = 0;
}

abbrev a_queue : NotificationQueue
a_queue = record { batches = a_batch ∷ []; inflight = 0; stopped = false; next_ref = 1; jobs = [] }

abbrev some_events : List Event
some_events =
    offers 4 a_target an_event true
    ∷ takes 6
    ∷ offers 7 a_target an_alias false
    ∷ finishes 8 deferred 0
    ∷ takes 9
    ∷ finishes 10 settled 0
    ∷ cancels 1 none
    ∷ []

run_events-Bounded_example : Bounded limits (run_events limits some_events a_queue)
run_events-Bounded_example = run_events-Bounded some_events limits a_queue (
  refl,
  omega arith,
  omega arith,
  (
    (
      unfold total bytes width in refl,
      omega arith,
      omega arith,
      (unfold too_long bytes width in refl, (unfold too_long bytes width in refl, tt)),
    ),
    tt,
  ),
)

take_batch-Packed_example :
    (packed : List PublicEvent) × (notice : List Message) × (text : Message) × (an_event ∷ an_alias
        ∷ []
      ≡ packed ++ (take_batch limits 6 a_batch).0.events)
    × Notice a_batch notice
    × Joined (texts packed ++ notice) text
    × ((take_batch limits 6 a_batch).1 ≡ some text)
    × Sendable limits text
    × Complete limits (texts packed) notice (take_batch limits 6 a_batch).0.events
take_batch-Packed_example =
    take_batch-Packed limits 6 a_batch
      (unfold bytes width in
        (
          ((omega arith, omega arith), omega arith),
          (((omega arith, omega arith), omega arith), tt),
        ))
      (unfold is_empty in refl) (unfold bytes width in (omega arith, omega arith)) refl refl refl
      (omega arith) (unfold is_empty in refl)
