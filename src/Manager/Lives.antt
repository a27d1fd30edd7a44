-- ===== src/Manager/Lives.antt =====
-- Any sequence of sections takes a bot along its life.
use lockbot.Base.{ℕ, length, ◌≡◌, refl, ◌||◌, Option, none, some, List, [], ◌∷◌, if-either}
use lockbot.Manager.{Slot, admit, is_some, is_drained, mark_retiring}
use lockbot.Manager.World.{
  World, Stage, idle, building, activating, draining, Event, admits, releases, settles, fails,
  enters, exits, begins, activates, opens, stops, retires, aborts, publishes, publish_built,
  open_activated, begin_stop, end_stop, if_owner, owns, step, run_events,
}
use lockbot.Manager.Admit.{admit-Verdict}
use lockbot.Manager.Sound.{Sound}
use lockbot.Manager.Retiring.{step-Sound}
use lockbot.Manager.Lifecycle.{
  phase, Life, over, next, Moved, step_none, after_admit-Moved, release-Moved, settle_fatal-Moved,
  fail-Moved,
}
use lockbot.Manager.Refines.{
  enter-Moved, leave-Moved, abort-Moved, begin_start-Moved, begin_activation-Moved, publish-Moved,
  open-Moved, mark-Moved, retire-Moved,
}

module _ (max : ℕ) (w : World) (sound : Sound max w) where
  publish_built-Moved :
      (i : ℕ) (stage : Stage) → w.stage ≡ stage → Moved w (publish_built i w stage)
  unfolding publish_built
  publish_built-Moved i idle e = step_none w
  publish_built-Moved i building e = publish-Moved max w sound i (rw⁻¹ e sound.7)
  publish_built-Moved i (activating j g) e = step_none w
  publish_built-Moved i (draining g) e = step_none w

  open_activated-Moved : (stage : Stage) → w.stage ≡ stage → Moved w (open_activated w stage)
  unfolding open_activated
  open_activated-Moved idle e = step_none w
  open_activated-Moved building e = step_none w
  open_activated-Moved (activating i g) e = open-Moved max w sound i g (rw⁻¹ e sound.7)
  open_activated-Moved (draining g) e = step_none w

  begin_stop-Moved : (stage : Stage) → Moved w (begin_stop w stage)
  unfolding begin_stop mark_retiring
  begin_stop-Moved idle =
      if-either
        (λ (o : Option (Slot × ℕ)).
          Moved w (elim o [ none ↦ w | some (s, g) ↦ record w { slot = s; stage = draining g } ]))
        (is_some w.slot.live || is_some w.slot.failed) (mark-Moved max w sound)
        (λ gone. step_none w)
  begin_stop-Moved building = step_none w
  begin_stop-Moved (activating i g) = step_none w
  begin_stop-Moved (draining g) = step_none w

  end_stop-Moved : (stage : Stage) → w.stage ≡ stage → Moved w (end_stop w stage)
  unfolding end_stop
  end_stop-Moved idle e = step_none w
  end_stop-Moved building e = step_none w
  end_stop-Moved (activating i g) e = step_none w
  end_stop-Moved (draining g) e =
      if-either (Moved w) (is_drained w.slot) (retire-Moved max w sound g (rw⁻¹ e sound.7))
        (λ busy. step_none w)

  if_owner-Moved : (me : ℕ) (w' : World) → Moved w w' → Moved w (if_owner me w w')
  unfolding if_owner
  if_owner-Moved me w' m =
      if-either (Moved w) (owns me w.slot.owner) (λ mine. m) (λ other. step_none w)

  step-Moved : (e : Event) → Moved w (step max e w)
  unfolding step
  step-Moved (admits r) =
      after_admit-Moved w max r (admit max r w.slot) (admit-Verdict max r w.slot)
  step-Moved (releases n) = release-Moved w n
  step-Moved (settles n) = settle_fatal-Moved w n
  step-Moved (fails g) = fail-Moved w g
  step-Moved (enters me) = enter-Moved max w sound me
  step-Moved (exits me) = if_owner-Moved me _ (leave-Moved max w sound me w.stage)
  step-Moved (begins me) = if_owner-Moved me _ (begin_start-Moved max w sound w.stage)
  step-Moved (publishes me i) = if_owner-Moved me _ (publish_built-Moved i w.stage refl)
  step-Moved (activates me) = if_owner-Moved me _ (begin_activation-Moved max w sound w.stage)
  step-Moved (opens me) = if_owner-Moved me _ (open_activated-Moved w.stage refl)
  step-Moved (stops me) = if_owner-Moved me _ (begin_stop-Moved w.stage)
  step-Moved (retires me) = if_owner-Moved me _ (end_stop-Moved w.stage refl)
  step-Moved (aborts me) = if_owner-Moved me _ (abort-Moved max w sound w.stage)

-- The life of a bot is refined by the sections of the lock: from a state in which what is outstanding is
-- accounted for, whatever sections run in whatever order, phase, generation and number of operations go
-- only these ways, one at a time. A bot that is absent starts under the next generation, with no
-- operation; a started one serves; a serving one breaks; one that is there begins to end; one that ends
-- is absent when it has no operation left; an operation is admitted only while the bot serves or is
-- broken; and operations end.
pub run_events-Life :
    (es : List Event) (max_inflight : ℕ) (w : World)
    → Sound max_inflight w
    → Life
        (phase w.slot)
        w.slot.generation
        (length w.leases)
        (phase (run_events max_inflight es w).slot)
        (run_events max_inflight es w).slot.generation
        (length (run_events max_inflight es w).leases)
unfolding run_events
run_events-Life [] max w sound = over (phase w.slot) w.slot.generation (length w.leases)
run_events-Life (e ∷ es) max w sound =
    let w' = step max e w in
    let end = run_events max es w' in
    next (phase w.slot) (phase w'.slot) (phase end.slot) w.slot.generation w'.slot.generation
      end.slot.generation (length w.leases) (length w'.leases) (length end.leases)
      (step-Moved max w sound e) (run_events-Life es max w' (step-Sound max w sound e))
