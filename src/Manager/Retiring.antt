-- ===== src/Manager/Retiring.antt =====
-- Activation and retirement keep what holds between the sections of the lock, and so does any
-- sequence of sections.
use lockbot.Base.{
  ℕ, ◌==◌, ◌≡◌, refl, true, false, ◌||◌, Option, none, some, List, [], ◌∷◌, all, arith, if-either,
}
use lockbot.Manager.{
  Slot, is_at, is_some, still_ours, open_admission, mark_retiring, is_drained, retire,
  lease_is_current,
}
use lockbot.Manager.World.{
  World, Held, Stage, idle, building, activating, draining, owns, Event, admits, releases, settles,
  fails, enters, exits, begins, activates, opens, stops, retires, aborts, publishes, publish_built,
  open_activated, begin_stop, end_stop, if_owner, step, run_events,
}
use lockbot.Manager.Sound.{Sound, is_held, is_coherent, agrees}
use lockbot.Manager.Steps.{all_mono, all_empty, release-Sound, settle_fatal-Sound, admit-Sound}
use lockbot.Manager.Transitions.{
  fail-Sound, enter-Sound, leave-Sound, abort-Sound, begin_start-Sound, begin_activation-Sound,
  publish-Sound,
}

module _ (max : ℕ) (w : World) (sound : Sound max w) where
  open_admission-Sound :
      (i g : ℕ)
      → agrees w.slot (activating i g) ≡ true
      → Sound max (record w { slot = open_admission g w.slot; stage = idle })
  unfolding open_admission agrees is_coherent is_held still_ours is_at is_some
  open_admission-Sound i g a =
      if-either (λ s. Sound max (record w { slot = s; stage = idle })) (is_at w.slot.staged g)
        (λ staged.
          (sound.0, sound.1, sound.2, sound.3, sound.4, ground (arith, sound.5), sound.6, refl))
        (λ not_staged. (sound.0, sound.1, sound.2, sound.3, sound.4, sound.5, sound.6, refl))

  mark_retiring-Sound :
      is_some w.slot.owner ≡ true
      → (is_some w.slot.live || is_some w.slot.failed) ≡ true
      → Sound max (record w {
        slot = record w.slot { retiring = true };
        stage = draining w.slot.generation;
      })
  unfolding agrees is_coherent is_held still_ours
  mark_retiring-Sound owned there =
      (sound.0, sound.1, sound.2, sound.3, sound.4, sound.5, sound.6, ground arith)

  retire-Sound :
      (g : ℕ)
      → is_drained w.slot ≡ true
      → Sound max (record w { slot = retire g w.slot; stage = idle })
  unfolding retire is_drained agrees is_coherent is_some is_held still_ours
  retire-Sound g drained =
      let retired : Slot = record w.slot {
        live = none;
        failed = none;
        inflight = 0;
        health = none;
        staged = none;
        retiring = false;
      } in
      if-either (λ s. Sound max (record w { slot = s; stage = idle })) (w.slot.generation == g)
        (λ same. (
          ground (arith, sound.0),
          sound.1,
          all_empty (is_held retired) w.leases (ground (arith, sound.0)),
          all_empty (still_ours retired) w.fatals (ground (arith, sound.1)),
          sound.4,
          refl,
          sound.6,
          refl,
        ))
        (λ other. (sound.0, sound.1, sound.2, sound.3, sound.4, sound.5, sound.6, refl))

  publish_built-Sound :
      (i : ℕ) (stage : Stage) → w.stage ≡ stage → Sound max (publish_built i w stage)
  unfolding publish_built
  publish_built-Sound i idle e = sound
  publish_built-Sound i building e = publish-Sound max w sound i (rw⁻¹ e sound.7)
  publish_built-Sound i (activating i' g) e = sound
  publish_built-Sound i (draining g) e = sound

  open_activated-Sound : (stage : Stage) → w.stage ≡ stage → Sound max (open_activated w stage)
  unfolding open_activated
  open_activated-Sound idle e = sound
  open_activated-Sound building e = sound
  open_activated-Sound (activating i g) e = open_admission-Sound i g (rw⁻¹ e sound.7)
  open_activated-Sound (draining g) e = sound

  begin_stop-Sound : (stage : Stage) → is_some w.slot.owner ≡ true → Sound max (begin_stop w stage)
  unfolding begin_stop mark_retiring
  begin_stop-Sound idle owned =
      if-either
        (λ (o : Option (Slot × ℕ)).
          Sound max (elim o [ none ↦ w | some (s, g) ↦ record w { slot = s; stage = draining g } ]))
        (is_some w.slot.live || is_some w.slot.failed) (mark_retiring-Sound owned) (λ gone. sound)
  begin_stop-Sound building owned = sound
  begin_stop-Sound (activating i g) owned = sound
  begin_stop-Sound (draining g) owned = sound

  end_stop-Sound : (stage : Stage) → Sound max (end_stop w stage)
  unfolding end_stop
  end_stop-Sound idle = sound
  end_stop-Sound building = sound
  end_stop-Sound (activating i g) = sound
  end_stop-Sound (draining g) =
      if-either (Sound max) (is_drained w.slot) (retire-Sound g) (λ busy. sound)

  owns-is_some : (me : ℕ) (o : Option (ℕ × ℕ)) → owns me o ≡ true → is_some o ≡ true
  unfolding owns is_some
  owns-is_some me none h = h
  owns-is_some me (some o) h = refl

  if_owner-Sound :
      (me : ℕ) (w' : World)
      → (is_some w.slot.owner ≡ true → Sound max w')
      → Sound max (if_owner me w w')
  unfolding if_owner
  if_owner-Sound me w' h =
      if-either (Sound max) (owns me w.slot.owner) (λ mine. h (owns-is_some me w.slot.owner mine))
        (λ other. sound)

  pub step-Sound : (e : Event) → Sound max (step max e w)
  unfolding step
  step-Sound (admits r) = admit-Sound max w sound r
  step-Sound (releases n) = release-Sound max w sound n
  step-Sound (settles n) = settle_fatal-Sound max w sound n
  step-Sound (fails g) = fail-Sound max w sound g
  step-Sound (enters me) = enter-Sound max w sound me
  step-Sound (exits me) = if_owner-Sound me _ (λ o. leave-Sound max w sound me w.stage refl)
  step-Sound (begins me) = if_owner-Sound me _ (begin_start-Sound max w sound w.stage)
  step-Sound (publishes me i) = if_owner-Sound me _ (λ o. publish_built-Sound i w.stage refl)
  step-Sound (activates me) = if_owner-Sound me _ (begin_activation-Sound max w sound w.stage)
  step-Sound (opens me) = if_owner-Sound me _ (λ o. open_activated-Sound w.stage refl)
  step-Sound (stops me) = if_owner-Sound me _ (begin_stop-Sound w.stage)
  step-Sound (retires me) = if_owner-Sound me _ (λ o. end_stop-Sound w.stage)
  step-Sound (aborts me) = if_owner-Sound me _ (λ o. abort-Sound max w sound w.stage refl)

-- Whatever sections run in whatever order, by whichever threads, from a state in which what is
-- outstanding is accounted for: the counts of operations and of fatal completions are those of what is
-- outstanding; each outstanding operation is on the present generation, whose instance is still live or
-- retained after a failure; each outstanding fatal completion is of the present generation, which is
-- retained; at most `max_inflight` of the outstanding operations came under the cap; no bot is both
-- live and failed, the health is that of the instance there is, and only the live generation is
-- staged; and a transition's owner finds what it has established earlier: nothing registered when it
-- publishes, the staged instance when it opens admission, the generation that it retires.
pub run_events-Sound :
    (es : List Event) (max_inflight : ℕ) (w : World)
    → Sound max_inflight w
    → Sound max_inflight (run_events max_inflight es w)
unfolding run_events
run_events-Sound [] max w sound = sound
run_events-Sound (e ∷ es) max w sound =
    run_events-Sound es max (step max e w) (step-Sound max w sound e)

held-lease_is_current :
    (s : Slot) (h : Held)
    → is_coherent s ≡ true
    → is_some s.live ≡ true
    → is_held s h ≡ true
    → lease_is_current h.lease s ≡ true
unfolding is_held lease_is_current is_coherent is_some is_at
held-lease_is_current s h c live held = ground arith

-- After any sections in any order, from a state in which what is outstanding is accounted for: as long
-- as the bot has a live instance, `lease_is_current` says yes of every outstanding operation.
pub run_events-lease_is_current :
    (es : List Event) (max_inflight : ℕ) (w : World)
    → Sound max_inflight w
    → is_some (run_events max_inflight es w).slot.live ≡ true
    → all
        (λ h. lease_is_current h.lease (run_events max_inflight es w).slot)
        (run_events max_inflight es w).leases
      ≡ true
run_events-lease_is_current es max w sound live =
    let after = run_events max es w in
    let sound_after = run_events-Sound es max w sound in
    all_mono (is_held after.slot) (λ h. lease_is_current h.lease after.slot)
      (λ h. held-lease_is_current after.slot h sound_after.5 live) after.leases sound_after.2
