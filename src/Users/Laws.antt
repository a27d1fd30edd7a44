-- ===== src/Users/Laws.antt =====
-- What finding and removing a user do to a list of records, and when the clock is readable.
use lockbot.Base.{
  ℕ, ◌≤◌, ◌-◌, true, false, ◌≡◌, refl, ◌≢◌, some, List, [], ◌∷◌, ◌++◌, ◌==◌, if◌then◌else◌, arith,
  Each, Bool-cases, inl, inr,
}
use lockbot.Users.{UserInfo, find_user_info, remove_user_info, has_user, remaining_duration}

pub find_user_info-user :
    (us : List UserInfo) (user : ℕ) (u : UserInfo)
    → find_user_info us user ≡ some u
    → u.user_id ≡ user
unfolding find_user_info
find_user_info-user [] user u h = cc
find_user_info-user (v ∷ us) user u h = ground (arith, find_user_info-user us user u)

-- The user ids of a list of records are distinct.
abbrev pub DistinctUsers : List UserInfo → Type 0
DistinctUsers [] = Unit
DistinctUsers (u ∷ us) = (has_user us u.user_id ≡ false) × DistinctUsers us

pub has_user-remove_ne :
    (us : List UserInfo) (user other : ℕ)
    → other ≢ user
    → has_user (remove_user_info us user) other ≡ has_user us other
unfolding has_user remove_user_info
has_user-remove_ne [] user other h = refl
has_user-remove_ne (u ∷ us) user other h = ground (arith, has_user-remove_ne us user other h)

pub find-remove_ne :
    (us : List UserInfo) (user other : ℕ)
    → other ≢ user
    → find_user_info (remove_user_info us user) other ≡ find_user_info us other
unfolding find_user_info remove_user_info
find-remove_ne [] user other h = refl
find-remove_ne (u ∷ us) user other h = ground (arith, find-remove_ne us user other h)

pub has_user-remove_self :
    (us : List UserInfo) (user : ℕ)
    → DistinctUsers us
    → has_user (remove_user_info us user) user ≡ false
unfolding has_user remove_user_info
has_user-remove_self [] user d = refl
has_user-remove_self (u ∷ us) user d = ground (arith, has_user-remove_self us user d.1)

pub has_user-remove-le :
    (us : List UserInfo) (user other : ℕ)
    → has_user us other ≡ false
    → has_user (remove_user_info us user) other ≡ false
unfolding has_user remove_user_info
has_user-remove-le [] user other h = refl
has_user-remove-le (u ∷ us) user other h = ground (arith, has_user-remove-le us user other)

pub remove-DistinctUsers :
    (us : List UserInfo) (user : ℕ) → DistinctUsers us → DistinctUsers (remove_user_info us user)
unfolding remove_user_info
remove-DistinctUsers [] user d = tt
remove-DistinctUsers (u ∷ us) user d =
    ground (arith, remove-DistinctUsers us user d.1, has_user-remove-le us user u.user_id d.0)

pub has_user-append :
    (us vs : List UserInfo) (user : ℕ)
    → has_user (us ++ vs) user ≡ (if has_user us user then true else has_user vs user)
unfolding has_user
has_user-append [] vs user = refl
has_user-append (u ∷ us) vs user = ground (arith, has_user-append us vs user)

pub remove_absent :
    (us : List UserInfo) (user : ℕ) → has_user us user ≡ false → remove_user_info us user ≡ us
unfolding has_user remove_user_info
remove_absent [] user h = refl
remove_absent (u ∷ us) user h = ground (arith, remove_absent us user)

pub append-DistinctUsers :
    (us : List UserInfo) (v : UserInfo)
    → DistinctUsers us
    → has_user us v.user_id ≡ false
    → DistinctUsers (us ++ v ∷ [])
unfolding has_user
append-DistinctUsers [] v d h = (refl, tt)
append-DistinctUsers (u ∷ us) v d h =
    ground (arith, append-DistinctUsers us v d.1, has_user-append us (v ∷ []) u.user_id)

-- No record starts in the future, so no assertion of `remaining_duration` fails.
abbrev pub Started : ℕ → List UserInfo → Type 0
Started now = Each (λ u. u.start_time ≤ now)

pub remaining_duration-eq :
    (now start duration : ℕ)
    → start ≤ now
    → remaining_duration now start duration ≡ some (duration - (now - start))
unfolding remaining_duration
remaining_duration-eq now start duration h = ground arith

pub find-append_ne :
    (us : List UserInfo) (v : UserInfo) (user : ℕ)
    → user ≢ v.user_id
    → find_user_info (us ++ v ∷ []) user ≡ find_user_info us user
unfolding find_user_info
find-append_ne [] v user h = ground arith
find-append_ne (u ∷ us) v user h = ground (arith, find-append_ne us v user h)

-- A statement about the user of each record.
abbrev pub EachUser : (ℕ → Type 0) → List UserInfo → Type 0
EachUser P = Each (λ u. P u.user_id)

-- Nobody in the first list is in the second.
abbrev pub Apart : List UserInfo → List UserInfo → Type 0
Apart us vs = EachUser (λ x. has_user vs x ≡ false) us

pub Each-remove :
    (P : UserInfo → Type 0) (us : List UserInfo) (user : ℕ)
    → Each P us
    → Each P (remove_user_info us user)
unfolding remove_user_info
Each-remove P [] user a = tt
Each-remove P (u ∷ us) user a = elim (Bool-cases (u.user_id == user)) [
  | inl same ↦ rw same a.1
  | inr other ↦ rw other (a.0, Each-remove P us user a.1)
]

pub EachUser-mono :
    (P Q : ℕ → Type 0) (us : List UserInfo) → ((x : ℕ) → P x → Q x) → EachUser P us → EachUser Q us
EachUser-mono P Q [] h a = tt
EachUser-mono P Q (u ∷ us) h a = (h u.user_id a.0, EachUser-mono P Q us h a.1)

pub Apart-remove :
    (us vs : List UserInfo) (user : ℕ) → Apart us vs → Apart us (remove_user_info vs user)
Apart-remove us vs user a =
    EachUser-mono (λ x. has_user vs x ≡ false) (λ x. has_user (remove_user_info vs user) x ≡ false)
      us (λ x h. has_user-remove-le vs user x h) a

pub Apart-append :
    (us vs : List UserInfo) (v : UserInfo)
    → Apart us vs
    → has_user us v.user_id ≡ false
    → Apart us (vs ++ v ∷ [])
unfolding has_user
Apart-append [] vs v a h = tt
Apart-append (u ∷ us) vs v a h =
    ground (arith, Apart-append us vs v a.1, has_user-append vs (v ∷ []) u.user_id)

pub append_DistinctUsers :
    (us vs : List UserInfo)
    → DistinctUsers us
    → DistinctUsers vs
    → Apart us vs
    → DistinctUsers (us ++ vs)
append_DistinctUsers [] vs d e a = e
append_DistinctUsers (u ∷ us) vs d e a =
    ground (arith, append_DistinctUsers us vs d.1 e a.1, has_user-append us vs u.user_id)

pub Started-mono :
    (now later : ℕ) (us : List UserInfo) → now ≤ later → Started now us → Started later us
Started-mono now later [] h a = tt
Started-mono now later (u ∷ us) h a = (omega arith, Started-mono now later us h a.1)
