-- ===== src/Notify/Queue.antt =====
-- The queue of all bots, and its sections with the sends that are under way, interleaved.
use lockbot.Base.{
  ℕ, ◌+◌, ◌-◌, Bool, true, false, ◌&&◌, not, Option, none, some, List, [], ◌∷◌, ◌++◌, ltb, leb,
  ◌==◌, length, if◌then◌else◌, map,
}
use lockbot.Notify.{
  Message, bytes, PublicEvent, Limits, Target, Batch, new_batch, has_pending, append, reserve,
  take_batch,
}

-- `batches` is `_batches` in its order, and `jobs` are the sends that are not finished, each with the
-- identity of its batch.
pub record NotificationQueue : Type 0 where
  pub batches : List Batch
  pub inflight : ℕ
  pub stopped : Bool
  pub next_ref : ℕ
  pub jobs : List (ℕ × Message)

unfoldable pub find_batch : ℕ → List Batch → Option Batch
find_batch bot [] = none
find_batch bot (b ∷ bs) = if b.target.bot_id == bot then some b else find_batch bot bs

unfoldable pub without : ℕ → List Batch → List Batch
without ref [] = []
without ref (b ∷ bs) = if b.ref == ref then bs else b ∷ without ref bs

-- A change of the object `ref`, where the queue still has it.
unfoldable pub update : (Batch → Batch) → ℕ → List Batch → List Batch
update f ref [] = []
update f ref (b ∷ bs) = (if b.ref == ref then f b else b) ∷ update f ref bs

unfoldable pub first_idle : List Batch → Option Batch
first_idle [] = none
first_idle (b ∷ bs) = if not b.sending && not (has_pending b) then some b else first_idle bs

-- The batch that an event is offered to, last in the order, with the other ones; none when all places
-- are taken.
unfoldable pub add_batch : Limits → ℕ → Target → NotificationQueue → Option NotificationQueue
add_batch l now target q =
    let fresh : ℕ → List Batch → NotificationQueue =
      λ ref bs. record q { batches = bs ++ new_batch ref target now ∷ []; next_ref = ref + 1 } in
    if leb l.max_bots (length q.batches)
    then elim (first_idle q.batches) [
      | none ↦ none
      | some idle ↦ some (fresh q.next_ref (without idle.ref q.batches))
    ]
    else some (fresh q.next_ref q.batches)

-- The batch of an older target is cancelled and leaves the queue.
unfoldable pub drop_changed : Target → NotificationQueue → NotificationQueue
drop_changed target q = elim (find_batch target.bot_id q.batches) [
  | none ↦ q
  | some b ↦
      if b.target.key == target.key then q else record q { batches = without b.ref q.batches }
]

unfoldable pub place_batch :
    Limits → ℕ → Target → NotificationQueue → Option Batch → Option NotificationQueue
place_batch l now target q none = add_batch l now target q
place_batch l now target q (some b) =
    some (record q { batches = without b.ref q.batches ++ b ∷ [] })

-- Whether the caller may send the event itself, now.
unfoldable pub may_send : Limits → ℕ → PublicEvent → NotificationQueue → Batch → Bool
may_send l now e q b =
    not b.sending
    && (not (has_pending b)
        && (leb (length e.text) l.max_chars
            && (leb (bytes e.text) l.max_text_bytes
                && (leb b.due now && ltb q.inflight l.workers))))

unfoldable pub start_job : Limits → ℕ → ℕ → Message → NotificationQueue → NotificationQueue
start_job l now ref text q = record q {
  batches = update (reserve l now) ref q.batches;
  inflight = q.inflight + 1;
  jobs = (ref, text) ∷ q.jobs;
}

unfoldable pub offer_to :
    Limits → ℕ → PublicEvent → Bool → NotificationQueue → Option Batch → NotificationQueue
offer_to l now e immediate q none = q
offer_to l now e immediate q (some b) =
    if immediate && may_send l now e q b
    then start_job l now b.ref e.text q
    else record q { batches = update (append l e) b.ref q.batches }

-- `offer`, up to the caller's own send.
unfoldable pub offer :
    Limits → ℕ → Target → PublicEvent → Bool → NotificationQueue → NotificationQueue
offer l now target e immediate q =
    if q.stopped
    then q
    else (let kept = drop_changed target q in
        elim (place_batch l now target kept (find_batch target.bot_id kept.batches)) [
          | none ↦ kept
          | some placed ↦
              offer_to l now e immediate placed (find_batch target.bot_id placed.batches)
        ])

-- `sorted(..., key=due)`, as the identities of the batches.
unfoldable pub insert_due : Batch → List Batch → List Batch
insert_due b [] = b ∷ []
insert_due b (c ∷ cs) = if leb b.due c.due then b ∷ c ∷ cs else c ∷ insert_due b cs

unfoldable pub sort_due : List Batch → List Batch
sort_due [] = []
sort_due (b ∷ bs) = insert_due b (sort_due bs)

unfoldable pub find_ref : ℕ → List Batch → Option Batch
find_ref ref [] = none
find_ref ref (b ∷ bs) = if b.ref == ref then some b else find_ref ref bs

unfoldable pub take_one : Limits → ℕ → ℕ → NotificationQueue → NotificationQueue
take_one l now ref q = elim (find_ref ref q.batches) [
  | none ↦ q
  | some b ↦
      let (taken, text) = take_batch l now b in
      let changed : NotificationQueue = record q {
        batches = update (λ old. taken) ref q.batches;
      } in
      elim text [ none ↦ changed | some t ↦ start_job l now ref t changed ]
]

unfoldable pub take_refs : Limits → ℕ → List ℕ → NotificationQueue → NotificationQueue
take_refs l now [] q = q
take_refs l now (r ∷ rs) q =
    if leb l.workers q.inflight then q else take_refs l now rs (take_one l now r q)

-- `_take_locked`: the new jobs join those under way.
unfoldable pub take_due : Limits → ℕ → NotificationQueue → NotificationQueue
take_due l now q = take_refs l now (map (λ b. b.ref) (sort_due q.batches)) q

-- `_run` after a delivery that is to be tried again, or not; then `_finish`.
unfoldable pub defer_batch : ℕ → Message → Batch → Batch
defer_batch now text b = if b.cancelled then b else record b {
  retry_text = some text;
  retry_until = if b.retry_until == 0 then now + 120 else b.retry_until;
  due = now + 1;
}

unfoldable pub settle_batch : Batch → Batch
settle_batch b = record b { retry_until = 0 }

pub data Delivery : Type 0 where
  deferred settled unknown : Delivery

unfoldable pub deliver : ℕ → Delivery → Message → Batch → Batch
deliver now deferred text b = defer_batch now text b
deliver now settled text b = settle_batch b
deliver now unknown text b = b

unfoldable pub finish_batch : Batch → Batch
finish_batch b = record b { sending = false }

unfoldable pub text_of : ℕ → List (ℕ × Message) → Option Message
text_of ref [] = none
text_of ref ((r, t) ∷ js) = if r == ref then some t else text_of ref js

unfoldable pub drop_job : ℕ → List (ℕ × Message) → List (ℕ × Message)
drop_job ref [] = []
drop_job ref ((r, t) ∷ js) = if r == ref then js else (r, t) ∷ drop_job ref js

unfoldable pub finish_job : ℕ → Delivery → ℕ → NotificationQueue → NotificationQueue
finish_job now outcome ref q = elim (text_of ref q.jobs) [
  | none ↦ q
  | some text ↦ record q {
    batches = update (λ b. finish_batch (deliver now outcome text b)) ref q.batches;
    inflight = q.inflight - 1;
    jobs = drop_job ref q.jobs;
  }
]

-- `cancel` of a bot, of any generation or of one. A batch that is cancelled is emptied and leaves the
-- queue, here and elsewhere; only a send that is under way still refers to it.
unfoldable pub cancel : ℕ → Option ℕ → NotificationQueue → NotificationQueue
cancel bot generation q = elim (find_batch bot q.batches) [
  | none ↦ q
  | some b ↦ elim generation [
    | none ↦ record q { batches = without b.ref q.batches }
    | some g ↦
        if b.target.generation == g then record q { batches = without b.ref q.batches } else q
  ]
]

-- `stop` and `reset`: every batch is cancelled.
unfoldable pub clear : Bool → NotificationQueue → NotificationQueue
clear stopped q = record q { batches = []; stopped = stopped }

pub data Event : Type 0 where
  offers : ℕ → Target → PublicEvent → Bool → Event
  takes : ℕ → Event
  finishes : ℕ → Delivery → ℕ → Event
  cancels : ℕ → Option ℕ → Event
  stops resets : Event

unfoldable pub step : Limits → Event → NotificationQueue → NotificationQueue
step l (offers now target e immediate) q = offer l now target e immediate q
step l (takes now) q = take_due l now q
step l (finishes now outcome ref) q = finish_job now outcome ref q
step l (cancels bot generation) q = cancel bot generation q
step l stops q = clear true q
step l resets q = clear false q

unfoldable pub run_events : Limits → List Event → NotificationQueue → NotificationQueue
run_events l [] q = q
run_events l (e ∷ es) q = run_events l es (step l e q)
