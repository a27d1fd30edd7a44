-- ===== src/Notify/Sends.antt =====
-- What the parts of an offer and of a send keep of the bounds of the whole queue.
use lockbot.Base.{
  ℕ, ◌+◌, ◌≤◌, ◌≡◌, refl, subst, true, Option, none, some, List, [], ◌∷◌, ◌++◌, ltb, leb, ◌==◌,
  length, arith, Each, if-either, elim-either, length-append, ==_refl,
}
use lockbot.Notify.{Message, Limits, Target, Batch, new_batch, reserve}
use lockbot.Notify.Queue.{
  NotificationQueue, find_batch, without, update, first_idle, add_batch, drop_changed, place_batch,
  start_job, find_ref, text_of, drop_job,
}
use lockbot.Notify.Bounds.{total, BatchSound}

pub length-update :
    (f : Batch → Batch) (ref : ℕ) (bs : List Batch) → length (update f ref bs) ≡ length bs
unfolding update
length-update f ref [] = refl
length-update f ref (b ∷ bs) = omega (arith, length-update f ref bs)

pub length-without-le : (ref : ℕ) (bs : List Batch) → length (without ref bs) ≤ length bs
unfolding without
length-without-le ref [] = omega arith
length-without-le ref (b ∷ bs) = ground (arith, length-without-le ref bs)

-- A batch that is found takes its place in the length.
length-without-find :
    (bot : ℕ) (bs : List Batch) (b : Batch)
    → find_batch bot bs ≡ some b
    → length (without b.ref bs) + 1 ≡ length bs
unfolding without find_batch
length-without-find bot [] b h = cc
length-without-find bot (x ∷ bs) b h = ground (arith, length-without-find bot bs b, ==_refl b.ref)

length-without-idle :
    (bs : List Batch) (b : Batch)
    → first_idle bs ≡ some b
    → length (without b.ref bs) + 1 ≡ length bs
unfolding without first_idle
length-without-idle [] b h = cc
length-without-idle (x ∷ bs) b h = ground (arith, length-without-idle bs b, ==_refl b.ref)

pub length-drop_job :
    (ref : ℕ) (js : List (ℕ × Message)) (t : Message)
    → text_of ref js ≡ some t
    → length (drop_job ref js) + 1 ≡ length js
unfolding drop_job text_of
length-drop_job ref [] t h = cc
length-drop_job ref (j ∷ js) t h = ground (arith, length-drop_job ref js t)

module _ (P : Batch → Type 0) where
  pub update-Each :
      (f : Batch → Batch) (ref : ℕ)
      → ((b : Batch) → P b → P (f b))
      → (bs : List Batch) → Each P bs
      → Each P (update f ref bs)
  unfolding update
  update-Each f ref h [] a = tt
  update-Each f ref h (b ∷ bs) a =
      (if-either P (b.ref == ref) (λ here. h b a.0) (λ there. a.0), update-Each f ref h bs a.1)

  pub without-Each : (ref : ℕ) (bs : List Batch) → Each P bs → Each P (without ref bs)
  unfolding without
  without-Each ref [] a = tt
  without-Each ref (b ∷ bs) a =
      if-either (Each P) (b.ref == ref) (λ here. a.1) (λ there. (a.0, without-Each ref bs a.1))

  pub append-Each : (bs : List Batch) (b : Batch) → Each P bs → P b → Each P (bs ++ b ∷ [])
  append-Each [] b a h = (h, tt)
  append-Each (x ∷ bs) b a h = (a.0, append-Each bs b a.1 h)

  abbrev pub Holds : Option Batch → Type 0
  Holds none = Unit
  Holds (some b) = P b

  pub find_batch-Holds : (bot : ℕ) (bs : List Batch) → Each P bs → Holds (find_batch bot bs)
  unfolding find_batch
  find_batch-Holds bot [] a = tt
  find_batch-Holds bot (b ∷ bs) a =
      if-either Holds (b.target.bot_id == bot) (λ here. a.0) (λ there. find_batch-Holds bot bs a.1)

  pub find_ref-Holds : (ref : ℕ) (bs : List Batch) → Each P bs → Holds (find_ref ref bs)
  unfolding find_ref
  find_ref-Holds ref [] a = tt
  find_ref-Holds ref (b ∷ bs) a =
      if-either Holds (b.ref == ref) (λ here. a.0) (λ there. find_ref-Holds ref bs a.1)

-- The jobs are counted and no more than the workers; the batches are no more than the places for bots,
-- and each is within its limits.
abbrev pub Bounded : Limits → NotificationQueue → Type 0
Bounded l q =
    (q.inflight ≡ length q.jobs)
    × (q.inflight ≤ l.workers)
    × (length q.batches ≤ l.max_bots)
    × Each (BatchSound l) q.batches

abbrev pub BoundedIf : Limits → Option NotificationQueue → Type 0
BoundedIf l none = Unit
BoundedIf l (some q) = Bounded l q

module _ (l : Limits) (now : ℕ) where
  new_batch-Sound : (ref : ℕ) (target : Target) → BatchSound l (new_batch ref target now)
  unfolding new_batch total
  new_batch-Sound ref target = (refl, omega arith, omega arith, tt)

  pub add_batch-Bounded :
      (target : Target) (q : NotificationQueue)
      → Bounded l q
      → BoundedIf l (add_batch l now target q)
  unfolding add_batch
  add_batch-Bounded target q h =
      if-either (BoundedIf l) (leb l.max_bots (length q.batches))
        (λ full.
          elim-either (BoundedIf l) (first_idle q.batches) (λ none_. tt)
            (λ b found. (
              h.0,
              h.1,
              omega (
                arith,
                length-append (without b.ref q.batches) (new_batch q.next_ref target now ∷ []),
                length-without-idle q.batches b found,
                h.2,
              ),
              append-Each (BatchSound l) (without b.ref q.batches) _
                  (without-Each (BatchSound l) b.ref q.batches h.3)
                  (new_batch-Sound q.next_ref target),
            )))
        (λ room. (
          h.0,
          h.1,
          ground (arith, length-append q.batches (new_batch q.next_ref target now ∷ []), room),
          append-Each (BatchSound l) q.batches _ h.3 (new_batch-Sound q.next_ref target),
        ))

  pub drop_changed-Bounded :
      (target : Target) (q : NotificationQueue) → Bounded l q → Bounded l (drop_changed target q)
  unfolding drop_changed
  drop_changed-Bounded target q h =
      elim-either (Bounded l) (find_batch target.bot_id q.batches) (λ none_. h)
        (λ b found.
          if-either (Bounded l) (b.target.key == target.key) (λ same. h)
            (λ other. (
              h.0,
              h.1,
              omega (arith, length-without-le b.ref q.batches, h.2),
              without-Each (BatchSound l) b.ref q.batches h.3,
            )))

  pub place_batch-Bounded :
      (target : Target) (q : NotificationQueue) (o : Option Batch)
      → find_batch target.bot_id q.batches ≡ o
      → Bounded l q
      → BoundedIf l (place_batch l now target q o)
  unfolding place_batch
  place_batch-Bounded target q none e h = add_batch-Bounded target q h
  place_batch-Bounded target q (some b) e h = (
    h.0,
    h.1,
    omega (
      arith,
      length-append (without b.ref q.batches) (b ∷ []),
      length-without-find target.bot_id q.batches b e,
      h.2,
    ),
    append-Each (BatchSound l) (without b.ref q.batches) b
        (without-Each (BatchSound l) b.ref q.batches h.3)
        (subst (Holds (BatchSound l)) e
          (find_batch-Holds (BatchSound l) target.bot_id q.batches h.3)),
  )

  pub start_job-Bounded :
      (ref : ℕ) (text : Message) (q : NotificationQueue)
      → ltb q.inflight l.workers ≡ true
      → Bounded l q
      → Bounded l (start_job l now ref text q)
  unfolding start_job reserve
  start_job-Bounded ref text q room h = (
    omega (arith, h.0),
    ground (arith, room),
    omega (arith, length-update (reserve l now) ref q.batches, h.2),
    update-Each (BatchSound l) (reserve l now) ref (λ b s. s) q.batches h.3,
  )
