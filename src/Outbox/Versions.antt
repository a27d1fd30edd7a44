-- ===== src/Outbox/Versions.antt =====
-- The versions of a frame, and that a restart accepts the frame of a save.
use lockbot.Base.{
  ℕ, elem, ==_refl, ◌==◌, ◌≤◌, ◌≡◌, refl, true, ◌||◌, some, List, [], ◌∷◌, leb, length, all, arith,
}
use lockbot.Outbox.{
  Journal, Save, outbox_overflow, bump, set_default, bump_all, default_all, boundary_of, events_of,
  decorate,
}
use lockbot.Outbox.Recover.{version_refs, accepts}

-- Every version counts from 1, as the journal makes them.
abbrev pub Counted : List (ℕ × ℕ) → Type 0
Counted vs = all (λ (p : ℕ × ℕ). leb 1 p.1) vs ≡ true

bump-Counted : (r : ℕ) (vs : List (ℕ × ℕ)) → Counted vs → Counted (bump r vs)
unfolding bump
bump-Counted r [] a = refl
bump-Counted r ((q, v) ∷ vs) a = ground (arith, bump-Counted r vs)

set_default-Counted : (r : ℕ) (vs : List (ℕ × ℕ)) → Counted vs → Counted (set_default r vs)
unfolding set_default
set_default-Counted r [] a = refl
set_default-Counted r ((q, v) ∷ vs) a = ground (arith, set_default-Counted r vs)

bump_all-Counted : (rs : List ℕ) (vs : List (ℕ × ℕ)) → Counted vs → Counted (bump_all rs vs)
unfolding bump_all
bump_all-Counted [] vs a = a
bump_all-Counted (r ∷ rs) vs a = bump_all-Counted rs (bump r vs) (bump-Counted r vs a)

default_all-Counted : (rs : List ℕ) (vs : List (ℕ × ℕ)) → Counted vs → Counted (default_all rs vs)
unfolding default_all
default_all-Counted [] vs a = a
default_all-Counted (r ∷ rs) vs a =
    default_all-Counted rs (set_default r vs) (set_default-Counted r vs a)

-- The reference has a version.
abbrev Versioned : ℕ → List (ℕ × ℕ) → Type 0
Versioned r vs = elem ◌==◌ r (version_refs vs) ≡ true

bump-Versioned :
    (r q : ℕ) (vs : List (ℕ × ℕ))
    → (q == r) || elem ◌==◌ r (version_refs vs) ≡ true
    → Versioned r (bump q vs)
unfolding bump version_refs elem
bump-Versioned r q [] h = ground arith
bump-Versioned r q ((p, v) ∷ vs) h = ground (arith, bump-Versioned r q vs)

set_default-Versioned :
    (r q : ℕ) (vs : List (ℕ × ℕ)) → Versioned r vs → Versioned r (set_default q vs)
unfolding set_default version_refs elem
set_default-Versioned r q [] h = ground arith
set_default-Versioned r q ((p, v) ∷ vs) h = ground (arith, set_default-Versioned r q vs)

bump_all-Versioned :
    (r : ℕ) (qs : List ℕ) (vs : List (ℕ × ℕ)) → Versioned r vs → Versioned r (bump_all qs vs)
unfolding bump_all
bump_all-Versioned r [] vs h = h
bump_all-Versioned r (q ∷ qs) vs h =
    bump_all-Versioned r qs (bump q vs) (bump-Versioned r q vs (ground (arith, h)))

default_all-Versioned :
    (r : ℕ) (qs : List ℕ) (vs : List (ℕ × ℕ)) → Versioned r vs → Versioned r (default_all qs vs)
unfolding default_all
default_all-Versioned r [] vs h = h
default_all-Versioned r (q ∷ qs) vs h =
    default_all-Versioned r qs (set_default q vs) (set_default-Versioned r q vs h)

-- Each event of a frame has a version.
all_versioned :
    (refs es : List ℕ) (vs : List (ℕ × ℕ))
    → all (λ r. elem ◌==◌ r (version_refs (default_all refs (bump_all es vs)))) es ≡ true
unfolding bump_all
all_versioned refs [] vs = refl
all_versioned refs (e ∷ es) vs = ground (
  arith,
  default_all-Versioned e refs (bump_all es (bump e vs))
      (bump_all-Versioned e es (bump e vs) (bump-Versioned e e vs (ground (arith, ==_refl e)))),
  all_versioned refs es (bump e vs),
)

pub decorate-accepts :
    (j : Journal) (s : Save)
    → Counted j.versions
    → length (decorate true j s).versions ≤ 4096
    → (accepts (decorate true j s) ≡ true)
      × (accepts (record (decorate true j s) { boundary = some outbox_overflow; events = [] })
          ≡ true)
unfolding accepts decorate
decorate-accepts j s counted few =
    let events = events_of (boundary_of j s) s.changes in
    let all_ =
      default_all-Counted s.current.refs (bump_all events j.versions)
        (bump_all-Counted events j.versions counted) in
    let versioned = all_versioned s.current.refs events j.versions in
    (ground (arith, few, all_, versioned), ground (arith, few, all_))
