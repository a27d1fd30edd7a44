-- ===== src/Scheduler/Coverage.antt =====
-- No registered bot is forgotten by the scheduler.
use lockbot.Base.{
  ℕ, ◌≡◌, refl, true, false, ◌&&◌, ◌||◌, Option, none, some, List, [], ◌∷◌, ◌==◌, ◌+◌, arith,
  Bool-cases, Option-cases, inl, inr, leb, not, ap,
}
use lockbot.Scheduler.{
  Timer, Scheduler, Item, Check, checked, refused, failed, put, push, earlier, schedule, add,
  is_stale, remove, reschedule_soon, is_current, drop_stale, next_sleep, item_of, pop_due,
  settle_item, finish,
}
use lockbot.Scheduler.World.{
  World, Event, adds, removes, reschedules, sleeps, fires, finishes, sweeps, fire, finish_first,
  step, run_events, is_missing, has_timer, has_item, covers, is_covered,
}

has_timer-push :
    (bot gen : ℕ) (t : Timer) (ts : List Timer)
    → has_timer bot gen (push t ts) ≡ ((t.bot_id == bot && t.gen == gen) || has_timer bot gen ts)
unfolding push has_timer earlier
has_timer-push bot gen t [] = refl
has_timer-push bot gen t (x ∷ xs) = ground (arith, has_timer-push bot gen t xs)

has_timer-drop_stale :
    (bot : ℕ) (s : Scheduler) (ts : List Timer)
    → has_timer bot (s.gens bot) (drop_stale s ts) ≡ has_timer bot (s.gens bot) ts
unfolding drop_stale has_timer is_current
has_timer-drop_stale bot s [] = refl
has_timer-drop_stale bot s (t ∷ ts) = elim (Bool-cases (t.bot_id == bot)) [
  | inl same ↦
      let at : t.bot_id ≡ bot = ground arith in
      ground (arith, ap s.gens at, has_timer-drop_stale bot s ts)
  | inr other ↦ ground (arith, has_timer-drop_stale bot s ts)
]

-- An entry that is popped is to be finished.
pop_due-covers :
    (bot : ℕ) (s : Scheduler) (now : ℕ) (ts : List Timer)
    → is_missing (s.instances bot) ≡ false
    → has_timer bot (s.gens bot) ts ≡ true
    → (has_timer bot (s.gens bot) (pop_due s now ts).0
        || has_item bot (s.gens bot) (s.mgr_gens bot) (pop_due s now ts).1)
      ≡ true
unfolding pop_due has_timer has_item is_current item_of
pop_due-covers bot s now [] i h = cc
pop_due-covers bot s now (t ∷ ts) i h = elim (Bool-cases (t.bot_id == bot)) [
  | inl same ↦
      let at : t.bot_id ≡ bot = ground arith in
      ground (
        arith,
        ap s.gens at,
        ap s.mgr_gens at,
        ap (λ b. is_missing (s.instances b)) at,
        pop_due-covers bot s now ts i,
      )
  | inr other ↦ ground (arith, pop_due-covers bot s now ts i)
]

-- The sections of the other threads, for any items that are due.
module _ (bot : ℕ) (s : Scheduler) (due : List Item) where
  abbrev CoveredNow : Scheduler → Type 0
  CoveredNow s' = covers bot s' due ≡ true

  schedule-covers : (at b : ℕ) → CoveredNow s → CoveredNow (schedule at b s)
  unfolding schedule covers
  schedule-covers at b h = ground (
    arith,
    has_timer-push bot (s.gens bot) (record { fire_at = at; gen = s.gens b; bot_id = b }) s.heap,
  )

  add-covers :
      (now b i delay : ℕ) (callback admission : Option ℕ) (gen : ℕ)
      → CoveredNow s
      → CoveredNow (add now b i delay callback admission gen s)
  unfolding add schedule covers put
  add-covers now b i delay callback admission gen h = elim (Bool-cases (b == bot)) [
    | inl same ↦
        let at : b ≡ bot = ground arith in
        ground (
          arith,
          ap s.gens at,
          has_timer-push bot (s.gens bot)
              (record { fire_at = now + delay; gen = s.gens b; bot_id = b }) s.heap,
        )
    | inr other ↦ ground (
      arith,
      has_timer-push bot (s.gens bot) (record { fire_at = now + delay; gen = s.gens b; bot_id = b })
          s.heap,
    )
  ]

  remove-covers : (expected : Option ℕ) (b : ℕ) → CoveredNow s → CoveredNow (remove expected b s)
  unfolding remove covers put is_missing
  remove-covers expected b h = ground arith

  next_sleep-covers : (now : ℕ) → CoveredNow s → CoveredNow (next_sleep now s).0
  unfolding next_sleep covers
  next_sleep-covers now h = ground (arith, has_timer-drop_stale bot s s.heap)

  reschedule_soon-covers : (now b : ℕ) → CoveredNow s → CoveredNow (reschedule_soon now b s)
  unfolding reschedule_soon
  reschedule_soon-covers now b h = elim (Option-cases (s.instances b)) [
    | inl gone ↦ rw (gone, reschedule_soon) h
    | inr (i, here) ↦ rw (here, reschedule_soon) (schedule-covers (now + 1) b h)
  ]

fire-covers :
    (bot now : ℕ) (s : Scheduler) (due : List Item) (o : Option Check)
    → covers bot s due ≡ true
    → is_covered bot (fire now s due o) ≡ true
unfolding fire is_covered covers has_item
fire-covers bot now s [] o h = ground (arith, pop_due-covers bot s now s.heap)
fire-covers bot now s (i ∷ is) o h = h

-- The item at hand makes way for an entry of the heap, or the bot is taken off.
schedule_own-covers :
    (bot at : ℕ) (s : Scheduler) (due : List Item) → covers bot (schedule at bot s) due ≡ true
unfolding schedule covers
schedule_own-covers bot at s due = ground (
  arith,
  has_timer-push bot (s.gens bot) (record { fire_at = at; gen = s.gens bot; bot_id = bot }) s.heap,
)

-- An item that is not of this bot's registration leaves the bot to the others.
without_item :
    (bot : ℕ) (s : Scheduler) (i : Item) (due : List Item)
    → covers bot s (i ∷ due) ≡ true
    → (i.bot_id == bot
        && (i.gen == s.gens bot && (i.mgr_gen == s.mgr_gens bot && not (is_missing i.instance))))
      ≡ false
    → covers bot s due ≡ true
unfolding covers has_item
without_item bot s i due h n = ground arith

module _ (bot now : ℕ) (s : Scheduler) (i : Item) (due : List Item) where
  -- A fatal failure takes the bot off, unless a newer registration has its own entry in the heap.
  taken_off :
      (counts : ℕ → ℕ)
      → i.bot_id ≡ bot
      → covers bot s (i ∷ due) ≡ true
      → covers bot (remove (some i.mgr_gen) i.bot_id (record s { failure_counts = counts })) due
        ≡ true
  unfolding remove is_stale covers has_item put is_missing
  taken_off counts at h = ground (arith, ap s.mgr_gens at, ap s.gens at)

  settle_own :
      (sweep : Check)
      → i.bot_id ≡ bot
      → covers bot s (i ∷ due) ≡ true
      → covers bot (settle_item now i sweep s) due ≡ true
  unfolding settle_item
  settle_own (checked next) at h = rw⁻¹ at (schedule_own-covers i.bot_id _ _ due)
  settle_own refused at h = rw⁻¹ at (schedule_own-covers i.bot_id _ s due)
  settle_own failed at h = elim (Bool-cases (leb 5 (s.failure_counts i.bot_id + 1))) [
    | inr few ↦ rw (few, settle_item) (rw⁻¹ at (schedule_own-covers i.bot_id _ _ due))
    | inl many ↦
        rw (many, settle_item)
          (taken_off (put s.failure_counts i.bot_id (s.failure_counts i.bot_id + 1)) at h)
  ]

  settle_other :
      (sweep : Check)
      → i.bot_id == bot ≡ false
      → covers bot s (i ∷ due) ≡ true
      → covers bot (settle_item now i sweep s) due ≡ true
  unfolding settle_item covers
  settle_other (checked next) other h =
      schedule-covers bot (record s { failure_counts = put s.failure_counts i.bot_id 0 }) due _
        i.bot_id (without_item bot s i due h (ground arith))
  settle_other refused other h =
      schedule-covers bot s due (now + 60) i.bot_id (without_item bot s i due h (ground arith))
  settle_other failed other h =
      let failures = s.failure_counts i.bot_id + 1 in
      let counted : Scheduler = record s {
        failure_counts = put s.failure_counts i.bot_id failures;
      } in
      let rest = without_item bot s i due h (ground arith) in
      elim (Bool-cases (leb 5 failures)) [
        | inr few ↦ rw (few, settle_item) (schedule-covers bot counted due (now + 30) i.bot_id rest)
        | inl many ↦
            rw (many, settle_item) (remove-covers bot counted due (some i.mgr_gen) i.bot_id rest)
      ]

finish-covers :
    (bot now : ℕ) (outcome : Check) (s : Scheduler) (i : Item) (due : List Item)
    → covers bot s (i ∷ due) ≡ true
    → covers bot (finish now i outcome s) due ≡ true
unfolding finish
finish-covers bot now outcome s i due h = elim (Bool-cases (s.gens i.bot_id == i.gen)) [
  | inr old ↦
      rw (old, finish)
        (elim (Bool-cases (i.bot_id == bot)) [
          | inr other ↦ without_item bot s i due h (ground arith)
          | inl same ↦
              let at : i.bot_id ≡ bot = ground arith in
              without_item bot s i due h (ground (arith, ap s.gens at))
        ])
  | inl now_ ↦
      rw (now_, finish)
        (elim (Bool-cases (i.bot_id == bot)) [
          | inr other ↦ settle_other bot now s i due outcome other h
          | inl same ↦ settle_own bot now s i due outcome (ground arith) h
        ])
]

finish_first-covers :
    (bot now : ℕ) (s : Scheduler) (due : List Item) (o : Option Check)
    → covers bot s due ≡ true
    → is_covered bot (finish_first now s due o) ≡ true
unfolding finish_first is_covered
finish_first-covers bot now s [] o h = h
finish_first-covers bot now s (i ∷ is) o h = elim (Option-cases i.instance) [
  | inl gone ↦
      rw (gone, finish_first)
        (without_item bot s i is h (unfold is_missing in ground (arith, gone)))
  | inr (x, here) ↦ rw (here, finish_first) (by_outcome o)
]
  where
    by_outcome :
        (o : Option Check)
        → is_covered bot (elim o [
          | none ↦ record { scheduler = s; due = i ∷ is; outcome = none }
          | some outcome ↦ record { scheduler = finish now i outcome s; due = is; outcome = none }
        ])
          ≡ true
    by_outcome none = h
    by_outcome (some outcome) = finish-covers bot now outcome s i is h

step-is_covered :
    (c : Event) (w : World) (bot : ℕ) → is_covered bot w ≡ true → is_covered bot (step c w) ≡ true
unfolding step is_covered
step-is_covered (adds now b i delay callback admission gen) w bot h =
    add-covers bot w.scheduler w.due now b i delay callback admission gen h
step-is_covered (removes expected b) w bot h = remove-covers bot w.scheduler w.due expected b h
step-is_covered (reschedules now b) w bot h = reschedule_soon-covers bot w.scheduler w.due now b h
step-is_covered (sleeps now) w bot h = next_sleep-covers bot w.scheduler w.due now h
step-is_covered (fires now) w bot h = fire-covers bot now w.scheduler w.due w.outcome h
step-is_covered (sweeps sweep) w bot h = h
step-is_covered (finishes now) w bot h = finish_first-covers bot now w.scheduler w.due w.outcome h

-- Whatever the threads do, in whatever order: a bot that is not registered, or whose next sweep is
-- scheduled under its present generation or about to be finished, stays so. In particular no failed,
-- refused or superseded sweep makes the scheduler forget a bot that is still registered.
pub run_events-is_covered :
    (cs : List Event) (w : World) (bot : ℕ)
    → is_covered bot w ≡ true
    → is_covered bot (run_events cs w) ≡ true
unfolding run_events
run_events-is_covered [] w bot h = h
run_events-is_covered (c ∷ cs) w bot h =
    run_events-is_covered cs (step c w) bot (step-is_covered c w bot h)
