-- ===== src/Manager/Refines.antt =====
-- The steps of a transition move a bot along its life, and so does any sequence of sections.
use lockbot.Base.{
  ℕ, length, ◌+◌, ◌≡◌, refl, sym, subst, true, false, ◌||◌, Option, none, some, List, [], ◌∷◌,
  arith, all, if-either, elim-either, Bool-cases, inl, inr, ==_refl,
}
use mathlib.Core.Path.{subst₂}
use lockbot.Manager.{
  Slot, is_at, is_some, enter, enter_owner, exit, start_refusal, to_activate, publish,
  open_admission, retire, is_drained,
}
use lockbot.Manager.World.{
  World, Held, Stage, idle, building, activating, draining, enter_world, begin_start,
  begin_activation, abort, leave,
}
use lockbot.Manager.Sound.{Sound, is_held, agrees}
use lockbot.Manager.Lifecycle.{
  Phase, absent, starting, serving, ending, phase, is_there, Moves, is_published, is_activated,
  ends, is_gone, Moved, unmoved, step_by, step_none,
}

-- Nothing is held where nothing is registered.
no_leases :
    (s : Slot) (hs : List Held)
    → s.live ≡ none
    → s.failed ≡ none
    → all (is_held s) hs ≡ true
    → length hs ≡ 0
unfolding is_held is_at
no_leases s [] live failed a = refl
no_leases s (h ∷ hs) live failed a = absurd (ground arith)

module _ (max : ℕ) (w : World) (sound : Sound max w) where
  pub enter-Moved : (me : ℕ) → Moved w (enter_world me w)
  unfolding enter_world enter phase
  enter-Moved me =
      elim-either
        (λ (o : Option Slot). Moved w (elim o [ none ↦ w | some s ↦ record w { slot = s } ]))
        (enter_owner me w.slot.owner) (λ refused_. step_none w) (λ o e. step_none w)

  pub leave-Moved : (me : ℕ) (stage : Stage) → Moved w (leave me w stage)
  unfolding leave exit phase
  leave-Moved me idle = step_none w
  leave-Moved me building = step_none w
  leave-Moved me (activating i g) = step_none w
  leave-Moved me (draining g) = step_none w

  pub abort-Moved : (stage : Stage) → Moved w (abort w stage)
  unfolding abort
  abort-Moved idle = step_none w
  abort-Moved building = step_none w
  abort-Moved (activating i g) = step_none w
  abort-Moved (draining g) =
      if-either (Moved w) (is_drained w.slot) (λ d. step_none w) (λ d. step_none w)

  pub begin_start-Moved : (stage : Stage) → Moved w (begin_start w stage)
  unfolding begin_start
  begin_start-Moved idle =
      elim-either (Moved w) (start_refusal w.slot) (λ may. step_none w) (λ why e. step_none w)
  begin_start-Moved building = step_none w
  begin_start-Moved (activating i g) = step_none w
  begin_start-Moved (draining g) = step_none w

  pub begin_activation-Moved : (stage : Stage) → Moved w (begin_activation w stage)
  unfolding begin_activation
  begin_activation-Moved idle =
      elim-either (Moved w) (to_activate w.slot) (λ never. step_none w) (λ p e. step_none w)
  begin_activation-Moved building = step_none w
  begin_activation-Moved (activating i g) = step_none w
  begin_activation-Moved (draining g) = step_none w

  -- A section that finds these two phases, and nothing outstanding.
  step_idle :
      (w' : World) (p q : Phase)
      → p ≡ phase w.slot
      → q ≡ phase w'.slot
      → length w.leases ≡ 0
      → length w'.leases ≡ 0
      → Moves p w.slot.generation 0 q w'.slot.generation 0
      → Moved w w'
  step_idle w' p q e e' none_ none' m =
      step_by w w' p q e e' (
        subst₂ (λ x y. Moves p w.slot.generation x q w'.slot.generation y) (sym none_) (sym none')
          m)

  pub publish-Moved :
      (i : ℕ)
      → agrees w.slot building ≡ true
      → Moved w (record w { slot = publish i w.slot; stage = idle })
  unfolding agrees publish phase is_some is_at
  publish-Moved i a =
      let gone : w.slot.live ≡ none = ground arith in
      let clean : w.slot.failed ≡ none = ground arith in
      let open_ : w.slot.retiring ≡ false = ground arith in
      let none_ = no_leases w.slot w.leases gone clean sound.2 in
      step_idle (record w { slot = publish i w.slot; stage = idle }) absent starting
        (ground (arith, gone, clean, open_))
        (ground (arith, open_, ==_refl (w.slot.generation + 1))) none_ none_
        (is_published w.slot.generation)

  pub open-Moved :
      (i g : ℕ)
      → agrees w.slot (activating i g) ≡ true
      → Moved w (record w { slot = open_admission g w.slot; stage = idle })
  unfolding agrees open_admission phase is_some is_at
  open-Moved i g a =
      let after : World = record w { slot = open_admission g w.slot; stage = idle } in
      elim (Bool-cases w.slot.retiring) [
        | inl retiring ↦ unmoved w after (ground arith) (ground arith) refl
        | inr open_ ↦ step_by w after starting serving (ground arith) (ground arith) (
            subst
              (λ g'.
                Moves starting w.slot.generation (length w.leases) serving g' (length w.leases))
              (ground arith) (is_activated w.slot.generation (length w.leases)))
      ]

  pub mark-Moved :
      (is_some w.slot.live || is_some w.slot.failed) ≡ true
      → Moved w (record w {
        slot = record w.slot { retiring = true };
        stage = draining w.slot.generation;
      })
  unfolding phase is_there
  mark-Moved there =
      step_by w
        (record w { slot = record w.slot { retiring = true }; stage = draining w.slot.generation })
        (phase w.slot) ending refl refl
        (ends (phase w.slot) w.slot.generation (length w.leases) (ground arith))

  pub retire-Moved :
      (g : ℕ)
      → agrees w.slot (draining g) ≡ true
      → is_drained w.slot ≡ true
      → Moved w (record w { slot = retire g w.slot; stage = idle })
  unfolding agrees retire phase is_some is_drained
  retire-Moved g a drained =
      let after : World = record w { slot = retire g w.slot; stage = idle } in
      let same : w.slot.generation ≡ g = ground arith in
      let none_ : length w.leases ≡ 0 = ground (arith, sound.0) in
      step_idle after ending absent (ground arith) (ground (arith, same)) none_ none_ (
        subst (λ g'. Moves ending w.slot.generation 0 absent g' 0) (ground (arith, same))
          (is_gone w.slot.generation))
