-- ===== src/Manager/Transitions.antt =====
-- A fatal error and the steps of a transition keep what holds between the sections of the lock.
use lockbot.Base.{
  ℕ, ◌+◌, ◌==◌, ◌≡◌, refl, true, false, ◌||◌, not, Option, none, some, ◌∷◌, arith, if-either,
  elim-either,
}
use lockbot.Manager.{
  Slot, error, is_at, is_some, still_ours, enter, enter_owner, exit, exit_owner, start_refusal,
  publish, to_activate, fail_generation, is_drained,
}
use lockbot.Manager.World.{
  World, Held, Stage, idle, building, activating, draining, fail, enter_world, begin_start,
  begin_activation, abort, leave,
}
use lockbot.Manager.Sound.{Sound, is_held, is_running, is_error, is_coherent, is_deep, agrees}
use lockbot.Manager.Steps.{all_mono}

-- A lease against the live instance is one against the retained instance.
failed-is_held :
    (s s' : Slot) (h : Held) (i : ℕ)
    → s.live ≡ some i
    → is_coherent s ≡ true
    → s'.failed ≡ some i
    → s'.generation ≡ s.generation
    → is_held s h ≡ true
    → is_held s' h ≡ true
unfolding is_held is_coherent is_at is_some
failed-is_held s s' h i live c failed gen held = ground arith

module _ (max : ℕ) (w : World) (sound : Sound max w) where
  failed-agrees :
      (i g : ℕ) (stage : Stage)
      → w.slot.live ≡ some i
      → w.slot.generation ≡ g
      → is_at w.slot.staged g ≡ false
      → agrees w.slot stage ≡ true
      → agrees
          (record w.slot {
            live = none;
            failed = some i;
            health = some error;
            fatal_pending = w.slot.fatal_pending + 1;
          })
          stage
        ≡ true
  unfolding agrees is_some is_at
  failed-agrees i g idle live gen staged a = refl
  failed-agrees i g building live gen staged a = ground arith
  failed-agrees i g (activating i' g') live gen staged a = ground arith
  failed-agrees i g (draining g') live gen staged a = ground arith

  failed-Sound :
      (i g : ℕ)
      → w.slot.live ≡ some i
      → w.slot.generation ≡ g
      → is_at w.slot.staged g ≡ false
      → Sound max (record w {
        slot = record w.slot {
          live = none;
          failed = some i;
          health = some error;
          fatal_pending = w.slot.fatal_pending + 1;
        };
        fatals = g ∷ w.fatals;
      })
  unfolding still_ours is_some is_coherent is_running is_error is_at
  failed-Sound i g live gen staged =
      let after : Slot = record w.slot {
        live = none;
        failed = some i;
        health = some error;
        fatal_pending = w.slot.fatal_pending + 1;
      } in
      (
        sound.0,
        ground (arith, sound.1),
        all_mono (is_held w.slot) (is_held after)
            (λ h. failed-is_held w.slot after h i live sound.5 refl refl) w.leases sound.2,
        ground (
          arith,
          all_mono (still_ours w.slot) (still_ours after) (λ x. ground arith) w.fatals sound.3,
        ),
        sound.4,
        ground (arith, sound.5),
        sound.6,
        failed-agrees i g w.stage live gen staged sound.7,
      )

  pub fail-Sound : (g : ℕ) → Sound max (fail g w)
  unfolding fail fail_generation
  fail-Sound g =
      let P : Option Slot → Type 0 = λ o.
        Sound max (elim o [ none ↦ w | some s ↦ record w { slot = s; fatals = g ∷ w.fatals } ]) in
      if-either P (not (w.slot.generation == g) || is_at w.slot.staged g) (λ stale. sound)
        (λ mine.
          elim-either P w.slot.live (λ gone. sound)
            (λ i live. failed-Sound i g live (ground arith) (ground arith)))

  agrees-owner :
      (o : Option (ℕ × ℕ)) (stage : Stage)
      → is_some o ≡ true
      → agrees w.slot stage ≡ true
      → agrees (record w.slot { owner = o }) stage ≡ true
  unfolding agrees
  agrees-owner o idle some_ a = refl
  agrees-owner o building some_ a = ground arith
  agrees-owner o (activating i g) some_ a = ground arith
  agrees-owner o (draining g) some_ a = ground arith

  owner-Sound :
      (o : Option (ℕ × ℕ))
      → is_deep o ≡ true
      → agrees (record w.slot { owner = o }) w.stage ≡ true
      → Sound max (record w { slot = record w.slot { owner = o } })
  unfolding is_held still_ours is_coherent
  owner-Sound o deep a = (sound.0, sound.1, sound.2, sound.3, sound.4, sound.5, deep, a)

  enter_at-Sound :
      (me : ℕ) (o : Option (ℕ × ℕ))
      → w.slot.owner ≡ o
      → Sound max
          (elim (elim (enter_owner me o) as (λ x. Option Slot) [
            | none ↦ none
            | some o' ↦ some (record w.slot { owner = some o' })
          ]) [ none ↦ w | some s ↦ record w { slot = s } ])
  unfolding enter_owner is_deep is_some
  enter_at-Sound me none e =
      owner-Sound (some (me, 1)) refl (agrees-owner (some (me, 1)) w.stage refl sound.7)
  enter_at-Sound me (some (t, depth)) e =
      let P : Option (ℕ × ℕ) → Type 0 = λ o.
        Sound max
          (elim (elim o as (λ x. Option Slot) [
            | none ↦ none
            | some o' ↦ some (record w.slot { owner = some o' })
          ]) [ none ↦ w | some s ↦ record w { slot = s } ]) in
      let deeper : Option (ℕ × ℕ) = some (t, depth + 1) in
      if-either P (t == me)
        (λ mine. owner-Sound deeper (ground arith) (agrees-owner deeper w.stage refl sound.7))
        (λ other. sound)

  pub enter-Sound : (me : ℕ) → Sound max (enter_world me w)
  unfolding enter_world enter
  enter-Sound me = enter_at-Sound me w.slot.owner refl

  exit_owner-is_deep :
      (me : ℕ) (o : Option (ℕ × ℕ)) → is_deep o ≡ true → is_deep (exit_owner me o) ≡ true
  unfolding exit_owner is_deep
  exit_owner-is_deep me none d = refl
  exit_owner-is_deep me (some (t, depth)) d = ground arith

  pub leave-Sound : (me : ℕ) (stage : Stage) → w.stage ≡ stage → Sound max (leave me w stage)
  unfolding leave exit agrees
  leave-Sound me idle e =
      owner-Sound (exit_owner me w.slot.owner) (exit_owner-is_deep me w.slot.owner sound.6)
        (rw e refl)
  leave-Sound me building e = sound
  leave-Sound me (activating i g) e = sound
  leave-Sound me (draining g) e = sound

  stage-Sound :
      (stage : Stage) → agrees w.slot stage ≡ true → Sound max (record w { stage = stage })
  stage-Sound stage a = (sound.0, sound.1, sound.2, sound.3, sound.4, sound.5, sound.6, a)

  pub abort-Sound : (stage : Stage) → w.stage ≡ stage → Sound max (abort w stage)
  unfolding abort agrees
  abort-Sound idle e = stage-Sound idle refl
  abort-Sound building e = stage-Sound idle refl
  abort-Sound (activating i g) e = stage-Sound idle refl
  abort-Sound (draining g) e =
      if-either (Sound max) (is_drained w.slot) (λ d. sound) (λ d. stage-Sound idle refl)

  pub begin_start-Sound :
      (stage : Stage) → is_some w.slot.owner ≡ true → Sound max (begin_start w stage)
  unfolding begin_start start_refusal agrees
  begin_start-Sound idle owned =
      elim-either (Sound max) (start_refusal w.slot) (λ may. stage-Sound building (ground arith))
        (λ why e. sound)
  begin_start-Sound building owned = sound
  begin_start-Sound (activating i g) owned = sound
  begin_start-Sound (draining g) owned = sound

  pub begin_activation-Sound :
      (stage : Stage) → is_some w.slot.owner ≡ true → Sound max (begin_activation w stage)
  unfolding begin_activation to_activate agrees is_at
  begin_activation-Sound idle owned =
      let P : Option (ℕ × ℕ) → Type 0 =
        λ o. Sound max (elim o [ none ↦ w | some (i, g) ↦ record w { stage = activating i g } ]) in
      elim-either P w.slot.live (λ gone. sound)
        (λ i live.
          if-either P (is_at w.slot.staged w.slot.generation)
            (λ staged. stage-Sound (activating i w.slot.generation) (ground arith))
            (λ active. sound))
  begin_activation-Sound building owned = sound
  begin_activation-Sound (activating i g) owned = sound
  begin_activation-Sound (draining g) owned = sound

  pub publish-Sound :
      (i : ℕ)
      → agrees w.slot building ≡ true
      → Sound max (record w { slot = publish i w.slot; stage = idle })
  unfolding publish agrees is_coherent is_held still_ours is_some is_running is_at
  publish-Sound i a =
      let after : Slot = publish i w.slot in
      (
        sound.0,
        sound.1,
        all_mono (is_held w.slot) (is_held after) (λ h e. ground arith) w.leases sound.2,
        all_mono (still_ours w.slot) (still_ours after) (λ h e. ground arith) w.fatals sound.3,
        sound.4,
        ground arith,
        sound.6,
        refl,
      )
