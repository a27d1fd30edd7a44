-- ===== src/DeviceBot/Ranges.antt =====
-- The ranges of devices in a message stand for the devices.
use lockbot.Base.{
  ℕ, zero, suc, ◌+◌, ◌-◌, ◌≤◌, ◌≡◌, refl, List, [], ◌∷◌, ◌++◌, arith, ◌==◌, Bool-cases, inl, inr,
  subst, ap, ◌∙◌,
}
use lockbot.DeviceBot.Parse.{count_up}
use lockbot.DeviceBot.Sweep.{merge_devices, merge_from}

-- The devices of ranges, both ends included.
unfoldable pub expand : List (ℕ × ℕ) → List ℕ
expand [] = []
expand ((a, b) ∷ rs) = count_up a (b + 1 - a) ++ expand rs

count_up-last : (n a : ℕ) → count_up a (n + 1) ≡ count_up a n ++ (a + n) ∷ []
unfolding count_up
count_up-last zero a = ground arith
count_up-last (suc n) a = ground (arith, count_up-last n (a + 1))

append-insert : (xs : List ℕ) (y : ℕ) (zs : List ℕ) → (xs ++ y ∷ []) ++ zs ≡ xs ++ y ∷ zs
append-insert [] y zs = ground arith
append-insert (x ∷ xs) y zs = ground (arith, append-insert xs y zs)

count_up-one : (d : ℕ) → count_up d (d + 1 - d) ≡ d ∷ []
unfolding count_up
count_up-one d = subst (λ n. count_up d n ≡ d ∷ []) one refl
  where
    one : 1 ≡ d + 1 - d
    one = omega arith

-- The range grows by the device that follows it.
count_up-next :
    (start end d : ℕ) (ds : List ℕ)
    → start ≤ end
    → d ≡ end + 1
    → count_up start (d + 1 - start) ++ ds ≡ count_up start (end + 1 - start) ++ d ∷ ds
count_up-next start end d ds h next =
    let n = end + 1 - start in
    let grown : d + 1 - start ≡ n + 1 = omega (arith, next) in
    let last : start + n ≡ d = omega (arith, next) in
    rw (grown, count_up-last n start, last, append-insert (count_up start n) d ds)

merge_from-expand :
    (ds : List ℕ) (start end : ℕ)
    → start ≤ end
    → expand (merge_from start end ds) ≡ count_up start (end + 1 - start) ++ ds
unfolding merge_from expand
merge_from-expand [] start end h = refl
merge_from-expand (d ∷ ds) start end h = elim (Bool-cases (d == end + 1)) [
  | inl next ↦
      rw (next, merge_from)
        (merge_from-expand ds start d (ground arith)
          ∙ count_up-next start end d ds h (ground arith))
  | inr gap ↦
      rw (gap, merge_from)
        (ap (λ xs. count_up start (end + 1 - start) ++ xs)
          (merge_from-expand ds d d (omega arith) ∙ ap (λ xs. xs ++ ds) (count_up-one d)))
]

-- Read back, the ranges are the devices, in order: none is lost, added or repeated.
pub merge_devices-expand : (ds : List ℕ) → expand (merge_devices ds) ≡ ds
unfolding merge_devices expand
merge_devices-expand [] = refl
merge_devices-expand (d ∷ ds) =
    merge_from-expand ds d d (omega arith) ∙ ap (λ xs. xs ++ ds) (count_up-one d)
