-- ===== src/Base/Lists.antt =====
-- Lists over the native numbers: length, Boolean quantifiers, membership, removal of doubles.
use Prim.Native.Nat.{ℕ, suc, ◌+◌}
use mathlib.Core.Path.{◌≡◌, refl}
use mathlib.Core.Bool.{Bool, true, false, ◌&&◌, ◌||◌, not}
use mathlib.Core.List.{List, [], ◌∷◌, ◌++◌}
use native.Mathlib.Omega.{arith}
use lockbot.Base.Tests.{if◌then◌else◌}

module _ {ℓ} {A : Type ℓ} where
  abbrev pub length : List A → ℕ
  length [] = 0
  length (x ∷ xs) = suc (length xs)

  -- Python's `all` and `any` over a comprehension.
  abbrev pub all : (A → Bool) → List A → Bool
  all p [] = true
  all p (x ∷ xs) = p x && all p xs

  abbrev pub any : (A → Bool) → List A → Bool
  any p [] = false
  any p (x ∷ xs) = p x || any p xs

  -- A statement about each element.
  abbrev pub Each {κ} : (A → Type κ) → List A → Type κ
  Each P [] = Unit
  Each P (x ∷ xs) = P x × Each P xs

  pub Each-mono {κ μ} :
      (P : A → Type κ) (Q : A → Type μ)
      → ((x : A) → P x → Q x)
      → (xs : List A) → Each P xs
      → Each Q xs
  Each-mono P Q h [] a = tt
  Each-mono P Q h (x ∷ xs) a = (h x a.0, Each-mono P Q h xs a.1)

  pub all-not-any :
      (p : A → Bool) (xs : List A) → not (any p xs) ≡ true → all (λ x. not (p x)) xs ≡ true
  all-not-any p [] h = refl
  all-not-any p (x ∷ xs) h = ground (arith, all-not-any p xs)

  pub length-append : (xs ys : List A) → length (xs ++ ys) ≡ length xs + length ys
  length-append [] ys = omega arith
  length-append (x ∷ xs) ys = omega (arith, length-append xs ys)

-- `x in xs` and sets as lists of distinct elements, over a Boolean equality.
module _ {ℓ} {A : Type ℓ} (eq : A → A → Bool) where
  unfoldable pub elem : A → List A → Bool
  elem a [] = false
  elem a (x ∷ xs) = eq x a || elem a xs

  -- `set.add`.
  unfoldable pub add_to_set : A → List A → List A
  add_to_set a xs = if elem a xs then xs else xs ++ a ∷ []

  -- `set(xs)`, or `list(dict.fromkeys(xs))`.
  unfoldable pub dedup_onto : List A → List A → List A
  dedup_onto acc [] = acc
  dedup_onto acc (x ∷ xs) = dedup_onto (add_to_set x acc) xs

  -- `xs - ys`, in the order of `xs`.
  unfoldable pub difference : List A → List A → List A
  difference [] ys = []
  difference (x ∷ xs) ys = if elem x ys then difference xs ys else x ∷ difference xs ys
