-- ===== src/Users/Clamp.antt =====
-- What `apply_max_duration_limit` leaves of a list of leases.
use lockbot.Base.{
  ℕ, ◌+◌, ◌-◌, ◌≤◌, ◌<◌, true, false, ◌&&◌, ◌≡◌, refl, some, List, [], ◌∷◌, ◌==◌, arith, elem, ltb,
  ℤ, pos_part, ◌⊎◌, inl, inr, Bool-cases,
}
use lockbot.Users.{UserInfo, clamp_user, apply_max_duration_limit}
use lockbot.Users.Laws.{Started, remaining_duration-eq}

-- The leases after the limit, and the users whose leases were cut: those of the whitelist, and those
-- that end within the limit or under no limit, are as they were; any other lease keeps its user and
-- start, ends with the limit from now, and its user is listed.
pub data Clamped (now : ℕ) (limit : ℤ) (whitelist : List ℕ)
    : List UserInfo → List UserInfo → List ℕ → Type 0 where
  nobody : Clamped now limit whitelist [] [] []
  spared :
      (u : UserInfo) (us vs : List UserInfo) (users : List ℕ)
      → (elem ◌==◌ u.user_id whitelist ≡ true)
        ⊎ ((pos_part limit ≡ 0) ⊎ (u.start_time + u.duration ≤ now + pos_part limit))
      → Clamped now limit whitelist us vs users
      → Clamped now limit whitelist (u ∷ us) (u ∷ vs) users
  cut :
      (u v : UserInfo) (us vs : List UserInfo) (users : List ℕ)
      → elem ◌==◌ u.user_id whitelist ≡ false
      → 0 < pos_part limit
      → now + pos_part limit < u.start_time + u.duration
      → v.user_id ≡ u.user_id
      → v.start_time ≡ u.start_time
      → v.start_time + v.duration ≡ now + pos_part limit
      → Clamped now limit whitelist us vs users
      → Clamped now limit whitelist (u ∷ us) (v ∷ vs) (u.user_id ∷ users)

-- Where no lease starts in the future, the limit is applied without a failure, in order: leases of
-- the whitelist, and leases that end within the limit or under no limit, stay as they are; any other
-- lease keeps its user and start and ends the limit from now, and just these users are reported.
pub apply_max_duration_limit-Clamped :
    (now : ℕ) (us : List UserInfo) (limit : ℤ) (whitelist : List ℕ)
    → Started now us
    → (vs : List UserInfo) × (users : List ℕ) × (apply_max_duration_limit now us limit whitelist
        ≡ some (vs, users))
      × Clamped now limit whitelist us vs users
unfolding apply_max_duration_limit clamp_user
apply_max_duration_limit-Clamped now [] limit whitelist a = ([], [], refl, nobody)
apply_max_duration_limit-Clamped now (u ∷ us) limit whitelist a =
    let rest = apply_max_duration_limit-Clamped now us limit whitelist a.1 in
    let final_ = u.duration - (now - u.start_time) in
    let known = remaining_duration-eq now u.start_time u.duration a.0 in
    elim (Bool-cases (elem ◌==◌ u.user_id whitelist)) [
      | inl listed ↦ (
        u ∷ rest.0,
        rest.1,
        rw (rest.2, listed, apply_max_duration_limit) refl,
        spared u us rest.0 rest.1 (inl listed) rest.3,
      )
      | inr bound ↦ elim (Bool-cases (ltb 0 (pos_part limit) && ltb (pos_part limit) final_)) [
        | inl over ↦ (
          record u { duration = u.duration - final_ + pos_part limit } ∷ rest.0,
          u.user_id ∷ rest.1,
          ground (arith, rest.2, known),
          cut u _ us rest.0 rest.1 bound (ground arith) (ground (arith, a.0)) refl refl
              (ground (arith, a.0)) rest.3,
        )
        | inr within ↦ (
          u ∷ rest.0,
          rest.1,
          ground (arith, rest.2, known),
          spared u us rest.0 rest.1 (inr (within_limit within)) rest.3,
        )
      ]
    ]
  where
    within_limit :
        ltb 0 (pos_part limit) && ltb (pos_part limit) (u.duration - (now - u.start_time)) ≡ false
        → (pos_part limit ≡ 0) ⊎ (u.start_time + u.duration ≤ now + pos_part limit)
    within_limit h = elim (Bool-cases (ltb 0 (pos_part limit))) [
      | inr none_ ↦ inl (ground arith)
      | inl some_ ↦ inr (ground (arith, a.0))
    ]
