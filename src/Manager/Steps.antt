-- ===== src/Manager/Steps.antt =====
-- Each section of the manager's lock keeps what holds between them.
use lockbot.Base.{
  ℕ, ◌+◌, ◌-◌, ◌≤◌, ◌≡◌, refl, Bool, true, false, ◌&&◌, ◌||◌, Option, none, some, List, [], ◌∷◌,
  leb, length, all, arith, Bool-cases, inl, inr, if-either,
}
use lockbot.Scheduler.{is_stale}
use lockbot.Manager.{
  Health, Request, Found, found, Admission, admitted, is_at, still_ours, admit, admit_instance,
  find_instance, find_failed, release_lease, release_fatal,
}
use lockbot.Manager.World.{
  World, Held, Stage, idle, building, activating, draining, drop_nth, has_nth, after_admit, release,
  settle_fatal,
}
use lockbot.Manager.Sound.{Sound, is_held, count_capped, is_coherent, agrees}

-- Dropping one element.
module _ {ℓ} {A : Type ℓ} where
  pub length-drop_nth :
      (n : ℕ) (xs : List A) → has_nth n xs ≡ true → length (drop_nth n xs) + 1 ≡ length xs
  unfolding drop_nth has_nth
  length-drop_nth n [] h = cc
  length-drop_nth n (x ∷ xs) h = ground (arith, length-drop_nth (n - 1) xs)

  pub all-drop_nth :
      (p : A → Bool) (n : ℕ) (xs : List A) → all p xs ≡ true → all p (drop_nth n xs) ≡ true
  unfolding drop_nth
  all-drop_nth p n [] h = refl
  all-drop_nth p n (x ∷ xs) h = ground (arith, all-drop_nth p (n - 1) xs)

  pub all_mono :
      (p q : A → Bool)
      → ((x : A) → p x ≡ true → q x ≡ true)
      → (xs : List A) → all p xs ≡ true
      → all q xs ≡ true
  all_mono p q h [] a = refl
  all_mono p q h (x ∷ xs) a = ground (arith, h x, all_mono p q h xs)

  pub all_empty : (p : A → Bool) (xs : List A) → length xs ≡ 0 → all p xs ≡ true
  all_empty p [] h = refl
  all_empty p (x ∷ xs) h = absurd (omega (arith, h))

count_capped-drop_nth : (n : ℕ) (hs : List Held) → count_capped (drop_nth n hs) ≤ count_capped hs
unfolding drop_nth count_capped
count_capped-drop_nth n [] = omega arith
count_capped-drop_nth n (h ∷ hs) = ground (arith, count_capped-drop_nth (n - 1) hs)

count_capped-le-length : (hs : List Held) → count_capped hs ≤ length hs
unfolding count_capped
count_capped-le-length [] = omega arith
count_capped-le-length (h ∷ hs) = ground (arith, count_capped-le-length hs)

module _ (max : ℕ) (w : World) (sound : Sound max w) where
  pub release-Sound : (n : ℕ) → Sound max (release n w)
  unfolding release release_lease is_held still_ours is_coherent agrees
  release-Sound n = elim (Bool-cases (has_nth n w.leases)) [
    | inr none_ ↦ rw (none_, release) sound
    | inl there ↦
        rw (there, release)
          (
            ground (arith, length-drop_nth n w.leases),
            sound.1,
            all-drop_nth (is_held w.slot) n w.leases sound.2,
            sound.3,
            omega (arith, count_capped-drop_nth n w.leases, sound.4),
            sound.5,
            sound.6,
            sound.7,
          )
  ]

  settle_still_agrees :
      (stage : Stage) → agrees w.slot stage ≡ true → agrees (release_fatal w.slot) stage ≡ true
  unfolding release_fatal agrees
  settle_still_agrees idle a = refl
  settle_still_agrees building a = ground arith
  settle_still_agrees (activating i g) a = a
  settle_still_agrees (draining g) a = a

  pub settle_fatal-Sound : (n : ℕ) → Sound max (settle_fatal n w)
  unfolding settle_fatal release_fatal is_held still_ours is_coherent agrees
  settle_fatal-Sound n = elim (Bool-cases (has_nth n w.fatals)) [
    | inr none_ ↦ rw (none_, settle_fatal) sound
    | inl there ↦
        rw (there, settle_fatal)
          (
            sound.0,
            ground (arith, length-drop_nth n w.fatals),
            sound.2,
            all-drop_nth (still_ours w.slot) n w.fatals sound.3,
            sound.4,
            sound.5,
            sound.6,
            settle_still_agrees w.stage sound.7,
          )
  ]

  -- A lease that is given is of the generation and the instance that are there.
  admitted-Sound :
      (under_cap : Bool) (i : ℕ) (health : Option Health)
      → (is_at w.slot.live i || is_at w.slot.failed i) ≡ true
      → (under_cap && leb max w.slot.inflight) ≡ false
      → Sound max (
          after_admit under_cap w (
            admitted
              (record { generation = w.slot.generation; instance = i; health = health })
              (record w.slot { inflight = w.slot.inflight + 1 })))
  unfolding after_admit is_held still_ours is_coherent agrees count_capped
  admitted-Sound under_cap i health here room = (
    ground (arith, sound.0),
    sound.1,
    ground (arith, sound.2),
    sound.3,
    ground (arith, count_capped-le-length w.leases, sound.0, sound.4),
    sound.5,
    sound.6,
    sound.7,
  )

  abbrev pub AfterAdmit : Bool → Admission → Type 0
  AfterAdmit under_cap a = Sound max (after_admit under_cap w a)

  admit_found-Sound :
      (r : Request) (i : ℕ) (health : Option Health)
      → (is_at w.slot.live i || is_at w.slot.failed i) ≡ true
      → AfterAdmit r.enforce_cap (admit_instance max r w.slot (found i health))
  unfolding after_admit admit_instance
  admit_found-Sound r i health here =
      let P = AfterAdmit r.enforce_cap in
      if-either P (is_stale r.expected_generation w.slot.generation) (λ old. sound)
        (λ same.
          if-either P (is_stale r.expected_instance i) (λ other. sound)
            (λ same_instance.
              if-either P (r.enforce_cap && leb max w.slot.inflight) (λ full. sound)
                (λ room. admitted-Sound r.enforce_cap i health here room)))

  find_failed-Sound :
      (r : Request) (failed : Option ℕ)
      → w.slot.failed ≡ failed
      → AfterAdmit r.enforce_cap (admit_instance max r w.slot (find_failed w.slot failed))
  unfolding find_failed after_admit admit_instance is_at
  find_failed-Sound r none e = sound
  find_failed-Sound r (some i) e = admit_found-Sound r i _ (ground (arith, e))

  abbrev AfterFind : Request → Found → Type 0
  AfterFind r f = AfterAdmit r.enforce_cap (admit_instance max r w.slot f)

  find_instance-Sound :
      (r : Request) (live : Option ℕ)
      → w.slot.live ≡ live
      → AfterFind r (find_instance r.for_read w.slot live)
  unfolding find_instance after_admit admit_instance is_at
  find_instance-Sound r none e =
      if-either (AfterFind r) r.for_read (λ read. find_failed-Sound r w.slot.failed refl)
        (λ write. sound)
  find_instance-Sound r (some i) e =
      if-either (AfterFind r) (is_at w.slot.staged w.slot.generation) (λ staged. sound)
        (λ active. admit_found-Sound r i w.slot.health (ground (arith, e)))

  pub admit-Sound : (r : Request) → AfterAdmit r.enforce_cap (admit max r w.slot)
  unfolding admit after_admit
  admit-Sound r =
      if-either (AfterAdmit r.enforce_cap) w.slot.retiring (λ retiring. sound)
        (λ open_. find_instance-Sound r w.slot.live refl)
