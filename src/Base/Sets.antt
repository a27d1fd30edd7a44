-- ===== src/Base/Sets.antt =====
-- Lists as sets: what `elem`, `add_to_set`, `dedup_onto` and `difference` mean.
use mathlib.Core.Path.{◌≡◌, refl}
use mathlib.Core.Logic.{◌↔◌}
use mathlib.Core.Bool.{Bool, true, false, ◌&&◌, ◌||◌, not}
use mathlib.Core.List.{List, [], ◌∷◌, ◌++◌}
use native.Mathlib.Omega.{arith}
use lockbot.Base.Lists.{elem, add_to_set, dedup_onto, difference}

-- No element stands twice.
abbrev pub Distinct {ℓ} : {A : Type ℓ} → (A → A → Bool) → List A → Type 0
Distinct eq [] = Unit
Distinct eq (x ∷ xs) = (elem eq x xs ≡ false) × Distinct eq xs

module _ {ℓ} {A : Type ℓ} (eq : A → A → Bool) (eq-iff : (a b : A) → (eq a b ≡ true) ↔ (a ≡ b)) where
  pub elem-append : (a : A) (xs ys : List A) → elem eq a (xs ++ ys) ≡ (elem eq a xs || elem eq a ys)
  unfolding elem
  elem-append a [] ys = refl
  elem-append a (x ∷ xs) ys = ground (arith, elem-append a xs ys)

  append-Distinct :
      (xs : List A) (b : A) → Distinct eq xs → elem eq b xs ≡ false → Distinct eq (xs ++ b ∷ [])
  unfolding elem
  append-Distinct [] b d h = (refl, tt)
  append-Distinct (x ∷ xs) b d h =
      ground (arith, append-Distinct xs b d.1, elem-append x xs (b ∷ []), eq-iff x b, eq-iff b x)

  add_to_set-Distinct : (a : A) (xs : List A) → Distinct eq xs → Distinct eq (add_to_set eq a xs)
  unfolding add_to_set
  add_to_set-Distinct a xs d = ground (arith, append-Distinct xs a d)

  pub dedup_onto-Distinct : (acc xs : List A) → Distinct eq acc → Distinct eq (dedup_onto eq acc xs)
  unfolding dedup_onto
  dedup_onto-Distinct acc [] d = d
  dedup_onto-Distinct acc (x ∷ xs) d =
      dedup_onto-Distinct (add_to_set eq x acc) xs (add_to_set-Distinct x acc d)

  pub elem-add_to_set :
      (a b : A) (xs : List A) → elem eq a (add_to_set eq b xs) ≡ (eq b a || elem eq a xs)
  unfolding add_to_set elem
  elem-add_to_set a b xs = ground (arith, elem-append a xs (b ∷ []), eq-iff b a)

  pub elem-dedup_onto :
      (a : A) (acc xs : List A) → elem eq a (dedup_onto eq acc xs) ≡ (elem eq a acc || elem eq a xs)
  unfolding dedup_onto elem
  elem-dedup_onto a acc [] = ground arith
  elem-dedup_onto a acc (x ∷ xs) =
      ground (arith, elem-dedup_onto a (add_to_set eq x acc) xs, elem-add_to_set a x acc)

  pub elem-difference :
      (a : A) (xs ys : List A)
      → elem eq a (difference eq xs ys) ≡ (elem eq a xs && not (elem eq a ys))
  unfolding difference elem
  elem-difference a [] ys = refl
  elem-difference a (x ∷ xs) ys = ground (arith, elem-difference a xs ys, eq-iff x a)
