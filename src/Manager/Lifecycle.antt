-- ===== src/Manager/Lifecycle.antt =====
-- The life of a bot, as its operators see it, which the sections of the manager's lock implement.
use lockbot.Base.{
  ℕ, suc, length, ◌+◌, ◌==◌, ◌≡◌, refl, sym, subst, Bool, true, false, ◌||◌, not, Option, none,
  some, ◌∷◌, if◌then◌else◌, arith, if-either, elim-either, Bool-cases, inl, inr,
}
use mathlib.Core.Path.{subst₂}
use lockbot.Manager.Steps.{length-drop_nth}
use lockbot.Manager.{
  Slot, Lease, Request, Admission, error, admitted, refused, is_at, is_some, release_lease,
  release_fatal, fail_generation,
}
use lockbot.Manager.World.{World, after_admit, has_nth, drop_nth, release, settle_fatal, fail}
use lockbot.Manager.Admit.{Leases, Verdict}

pub data Phase : Type 0 where
  absent starting serving broken ending : Phase

-- A bot that a stop has marked is ending until it is gone, also when the stop gives up.
unfoldable pub phase : Slot → Phase
phase s =
    if s.retiring
    then ending
    else if is_some s.live
    then (if is_at s.staged s.generation then starting else serving)
    else if is_some s.failed
    then broken
    else absent

unfoldable pub is_there : Phase → Bool
is_there absent = false
is_there starting = true
is_there serving = true
is_there broken = true
is_there ending = true

-- Operations run on a bot that serves or, as reads, on one that is broken.
unfoldable pub is_open : Phase → Bool
is_open absent = false
is_open starting = false
is_open serving = true
is_open broken = true
is_open ending = false

-- What may become of a bot in one go: of its phase, its generation and the number of its operations.
pub data Moves : Phase → ℕ → ℕ → Phase → ℕ → ℕ → Type 0 where
  stays : (p : Phase) (g n : ℕ) → Moves p g n p g n
  is_published : (g : ℕ) → Moves absent g 0 starting (g + 1) 0
  is_activated : (g n : ℕ) → Moves starting g n serving g n
  admits_one : (p : Phase) (g n : ℕ) → is_open p ≡ true → Moves p g n p g (suc n)
  is_done : (p : Phase) (g n : ℕ) → Moves p g (suc n) p g n
  breaks : (g n : ℕ) → Moves serving g n broken g n
  ends : (p : Phase) (g n : ℕ) → is_there p ≡ true → Moves p g n ending g n
  is_gone : (g : ℕ) → Moves ending g 0 absent g 0

pub data Life : Phase → ℕ → ℕ → Phase → ℕ → ℕ → Type 0 where
  over : (p : Phase) (g n : ℕ) → Life p g n p g n
  next : (p q r : Phase) (g h i n m k : ℕ) → Moves p g n q h m → Life q h m r i k → Life p g n r i k

-- One section moves a bot so.
abbrev pub Moved : World → World → Type 0
Moved w w' =
    Moves (phase w.slot) w.slot.generation (length w.leases) (phase w'.slot) w'.slot.generation
      (length w'.leases)

-- A section that touches neither the phase, nor the generation, nor the operations.
pub unmoved :
    (w w' : World)
    → phase w.slot ≡ phase w'.slot
    → w.slot.generation ≡ w'.slot.generation
    → length w.leases ≡ length w'.leases
    → Moved w w'
unmoved w w' e g n =
    subst
      (λ x.
        Moves (phase w.slot) w.slot.generation (length w.leases) x w'.slot.generation
          (length w'.leases))
      e
      (subst₂ (λ x y. Moves (phase w.slot) w.slot.generation (length w.leases) (phase w.slot) x y) g
        n (stays (phase w.slot) w.slot.generation (length w.leases)))

pub step_by :
    (w w' : World) (p q : Phase)
    → p ≡ phase w.slot
    → q ≡ phase w'.slot
    → Moves p w.slot.generation (length w.leases) q w'.slot.generation (length w'.leases)
    → Moved w w'
step_by w w' p q e e' m =
    subst₂
      (λ x y. Moves x w.slot.generation (length w.leases) y w'.slot.generation (length w'.leases)) e
      e' m

module _ (w : World) where
  pub step_none : Moved w w
  step_none = stays (phase w.slot) w.slot.generation (length w.leases)

  leased_phase :
      (r : Request) (l : Lease)
      → w.slot.retiring ≡ false
      → Leases r w.slot l
      → is_open (phase w.slot) ≡ true
  unfolding phase is_open is_some
  leased_phase r l open_ (inl live) = ground arith
  leased_phase r l open_ (inr failed) = ground arith

  pub after_admit-Moved :
      (max : ℕ) (r : Request) (a : Admission)
      → Verdict max r w.slot a
      → Moved w (after_admit r.enforce_cap w a)
  unfolding after_admit phase
  after_admit-Moved max r (refused why) v = step_none
  after_admit-Moved max r (admitted l s) v =
      subst
        (λ s'.
          Moves (phase w.slot) w.slot.generation (length w.leases) (phase s') s'.generation
            (suc (length w.leases)))
        (sym v.0)
        (admits_one (phase w.slot) w.slot.generation (length w.leases) (leased_phase r l v.2 v.6))

  pub release-Moved : (n : ℕ) → Moved w (release n w)
  unfolding release release_lease phase
  release-Moved n =
      if-either (Moved w) (has_nth n w.leases)
        (λ there.
          let left = length (drop_nth n w.leases) in
          let one_less : suc left ≡ length w.leases =
            omega (arith, length-drop_nth n w.leases there) in
          subst
            (λ k. Moves (phase w.slot) w.slot.generation k (phase w.slot) w.slot.generation left)
            one_less (is_done (phase w.slot) w.slot.generation left))
        (λ none_. step_none)

  pub settle_fatal-Moved : (n : ℕ) → Moved w (settle_fatal n w)
  unfolding settle_fatal release_fatal phase
  settle_fatal-Moved n =
      if-either (Moved w) (has_nth n w.fatals) (λ there. step_none) (λ none_. step_none)

  fail_live-Moved :
      (g i : ℕ)
      → w.slot.live ≡ some i
      → is_at w.slot.staged w.slot.generation ≡ false
      → Moved w (record w {
        slot = record w.slot {
          live = none;
          failed = some i;
          health = some error;
          fatal_pending = w.slot.fatal_pending + 1;
        };
        fatals = g ∷ w.fatals;
      })
  unfolding phase is_some
  fail_live-Moved g i live active =
      let after : World = record w {
        slot = record w.slot {
          live = none;
          failed = some i;
          health = some error;
          fatal_pending = w.slot.fatal_pending + 1;
        };
        fatals = g ∷ w.fatals;
      } in
      elim (Bool-cases w.slot.retiring) [
        | inl retiring ↦ unmoved w after (ground (arith, retiring)) refl refl
        | inr open_ ↦
            step_by w after serving broken (ground (arith, open_, live, active))
              (ground (arith, open_)) (breaks w.slot.generation (length w.leases))
      ]

  pub fail-Moved : (g : ℕ) → Moved w (fail g w)
  unfolding fail fail_generation
  fail-Moved g =
      let P : Option Slot → Type 0 = λ o.
        Moved w (elim o [ none ↦ w | some s ↦ record w { slot = s; fatals = g ∷ w.fatals } ]) in
      if-either P (not (w.slot.generation == g) || is_at w.slot.staged g) (λ stale. step_none)
        (λ mine.
          elim-either P w.slot.live (λ gone. step_none)
            (λ i live.
              let same : w.slot.generation ≡ g = ground arith in
              let free : is_at w.slot.staged g ≡ false = ground arith in
              fail_live-Moved g i live
                (subst (λ x. is_at w.slot.staged x ≡ false) (sym same) free)))
