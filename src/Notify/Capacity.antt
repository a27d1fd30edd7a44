-- ===== src/Notify/Capacity.antt =====
-- The bounds of the whole queue hold whatever happens in whatever order.
use lockbot.Base.{
  ℕ, ◌≡◌, refl, subst, Bool, true, ◌&&◌, Option, none, some, List, [], ◌∷◌, ltb, leb, ◌==◌, arith,
  if-either, elim-either, map,
}
use lockbot.Notify.{PublicEvent, Limits, Target, Batch, append, take_batch}
use lockbot.Notify.Queue.{
  NotificationQueue, find_batch, without, update, drop_changed, place_batch, may_send, offer_to,
  offer, find_ref, take_one, take_refs, take_due, sort_due, Delivery, deliver, finish_batch,
  text_of, finish_job, cancel, clear, Event, offers, takes, finishes, cancels, stops, resets, step,
  run_events,
}
use lockbot.Notify.Bounds.{BatchSound, append-Sound, take_batch-Sound, finish_batch-Sound}
use lockbot.Notify.Sends.{
  Bounded, BoundedIf, Holds, length-update, length-without-le, length-drop_job, update-Each,
  without-Each, find_ref-Holds, drop_changed-Bounded, place_batch-Bounded, start_job-Bounded,
}

module _ (l : Limits) where
  update-Bounded :
      (f : Batch → Batch) (ref : ℕ) (q : NotificationQueue)
      → ((b : Batch) → BatchSound l b → BatchSound l (f b))
      → Bounded l q
      → Bounded l (record q { batches = update f ref q.batches })
  update-Bounded f ref q s h = (
    h.0,
    h.1,
    omega (arith, length-update f ref q.batches, h.2),
    update-Each (BatchSound l) f ref s q.batches h.3,
  )

  without-Bounded :
      (ref : ℕ) (q : NotificationQueue)
      → Bounded l q
      → Bounded l (record q { batches = without ref q.batches })
  without-Bounded ref q h = (
    h.0,
    h.1,
    omega (arith, length-without-le ref q.batches, h.2),
    without-Each (BatchSound l) ref q.batches h.3,
  )

  module _ (now : ℕ) where
    offer_to-Bounded :
        (e : PublicEvent) (immediate : Bool) (q : NotificationQueue) (o : Option Batch)
        → Bounded l q
        → Bounded l (offer_to l now e immediate q o)
    unfolding offer_to may_send
    offer_to-Bounded e immediate q none h = h
    offer_to-Bounded e immediate q (some b) h =
        if-either (Bounded l) (immediate && may_send l now e q b)
          (λ may. start_job-Bounded l now b.ref e.text q (ground (arith, may)) h)
          (λ queued. update-Bounded (append l e) b.ref q (append-Sound l e) h)

    offer-Bounded :
        (target : Target) (e : PublicEvent) (immediate : Bool) (q : NotificationQueue)
        → Bounded l q
        → Bounded l (offer l now target e immediate q)
    unfolding offer
    offer-Bounded target e immediate q h =
        let kept = drop_changed target q in
        let kept_ok = drop_changed-Bounded l now target q h in
        let found = find_batch target.bot_id kept.batches in
        if-either (Bounded l) q.stopped (λ stopped. h)
          (λ running.
            elim-either (Bounded l) (place_batch l now target kept found) (λ none_. kept_ok)
              (λ placed p.
                offer_to-Bounded e immediate placed (find_batch target.bot_id placed.batches) (
                  subst (BoundedIf l) p
                    (place_batch-Bounded l now target kept found refl kept_ok))))

    take_one-Bounded :
        (ref : ℕ) (q : NotificationQueue)
        → ltb q.inflight l.workers ≡ true
        → Bounded l q
        → Bounded l (take_one l now ref q)
    unfolding take_one
    take_one-Bounded ref q room h =
        elim-either (Bounded l) (find_ref ref q.batches) (λ gone. h)
          (λ b found.
            let taken = (take_batch l now b).0 in
            let changed : NotificationQueue = record q {
              batches = update (λ old. taken) ref q.batches;
            } in
            let sound : BatchSound l b =
              subst (Holds (BatchSound l)) found
                (find_ref-Holds (BatchSound l) ref q.batches h.3) in
            let ok =
              update-Bounded (λ old. taken) ref q (λ old s. take_batch-Sound l now b sound) h in
            elim-either (Bounded l) (take_batch l now b).1 (λ none_. ok)
              (λ t e. start_job-Bounded l now ref t changed room ok))

    take_refs-Bounded :
        (rs : List ℕ) (q : NotificationQueue) → Bounded l q → Bounded l (take_refs l now rs q)
    unfolding take_refs
    take_refs-Bounded [] q h = h
    take_refs-Bounded (r ∷ rs) q h =
        if-either (Bounded l) (leb l.workers q.inflight) (λ full. h)
          (λ room.
            take_refs-Bounded rs (take_one l now r q)
              (take_one-Bounded r q (ground (arith, room)) h))

    finish_job-Bounded :
        (outcome : Delivery) (ref : ℕ) (q : NotificationQueue)
        → Bounded l q
        → Bounded l (finish_job now outcome ref q)
    unfolding finish_job
    finish_job-Bounded outcome ref q h =
        elim-either (Bounded l) (text_of ref q.jobs) (λ none_. h)
          (λ text there.
            let f : Batch → Batch = λ b. finish_batch (deliver now outcome text b) in
            let ok = update-Bounded f ref q (finish_batch-Sound l now outcome text) h in
            (
              omega (arith, length-drop_job ref q.jobs text there, h.0),
              omega (arith, h.1),
              ok.2,
              ok.3,
            ))

  cancel-Bounded :
      (bot : ℕ) (generation : Option ℕ) (q : NotificationQueue)
      → Bounded l q
      → Bounded l (cancel bot generation q)
  unfolding cancel
  cancel-Bounded bot generation q h =
      elim-either (Bounded l) (find_batch bot q.batches) (λ none_. h)
        (λ b found.
          elim-either (Bounded l) generation (λ any_. without-Bounded b.ref q h)
            (λ g given.
              if-either (Bounded l) (b.target.generation == g) (λ same. without-Bounded b.ref q h)
                (λ other. h)))

  step-Bounded : (e : Event) (q : NotificationQueue) → Bounded l q → Bounded l (step l e q)
  unfolding step clear take_due
  step-Bounded (offers now target e immediate) q h = offer-Bounded now target e immediate q h
  step-Bounded (takes now) q h = take_refs-Bounded now (map (λ b. b.ref) (sort_due q.batches)) q h
  step-Bounded (finishes now outcome ref) q h = finish_job-Bounded now outcome ref q h
  step-Bounded (cancels bot generation) q h = cancel-Bounded bot generation q h
  step-Bounded stops q h = (h.0, h.1, omega arith, tt)
  step-Bounded resets q h = (h.0, h.1, omega arith, tt)

-- Whatever events are offered, taken up, delivered and cancelled in whatever order, from a queue within
-- its bounds: the count of sends under way is right and at most the number of workers, there are no more
-- batches than places for bots, and no batch holds more events than allowed, nor more bytes, nor a text
-- that is too long, while `size` is the bytes of its texts.
pub run_events-Bounded :
    (es : List Event) (l : Limits) (q : NotificationQueue)
    → Bounded l q
    → Bounded l (run_events l es q)
unfolding run_events
run_events-Bounded [] l q h = h
run_events-Bounded (e ∷ es) l q h = run_events-Bounded es l (step l e q) (step-Bounded l e q h)
