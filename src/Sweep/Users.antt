-- ===== src/Sweep/Users.antt =====
-- What the loop over the users of one entry leaves.
use lockbot.Base.{
  ℕ, ◌+◌, ◌-◌, Bool, false, ◌≡◌, refl, List, [], ◌∷◌, ◌==◌, if◌then◌else◌, arith, ltb, Each, elem,
  Bool-cases, inl, inr,
}
use lockbot.Keys.{Key}
use lockbot.Users.{UserInfo, has_user, remove_user_info}
use lockbot.Users.Laws.{DistinctUsers, Started, remaining_duration-eq, remove-DistinctUsers}
use lockbot.State.{Status, idle, exclusive, shared}
use lockbot.State.Modes.{Fits, Within, remove-Within}
use lockbot.Config.{Config}
use lockbot.Sweep.{sweep_user, scan_users, scan_cons, remove_users}

-- The lease ends after `now`.
abbrev pub is_live : ℕ → UserInfo → Bool
is_live now u = ltb now (u.start_time + u.duration)

-- What the sweep leaves of a list of users: the live ones, some of them newly notified.
unfoldable pub survivors : Config → ℕ → List UserInfo → List UserInfo
survivors cfg now [] = []
survivors cfg now (u ∷ us) =
    if is_live now u
    then sweep_user cfg u (u.start_time + u.duration - now) ∷ survivors cfg now us
    else survivors cfg now us

pub has_user-survivors :
    (cfg : Config) (now : ℕ) (us : List UserInfo) (user : ℕ)
    → has_user us user ≡ false
    → has_user (survivors cfg now us) user ≡ false
unfolding has_user survivors sweep_user
has_user-survivors cfg now [] user h = refl
has_user-survivors cfg now (u ∷ us) user h = ground (arith, has_user-survivors cfg now us user)

pub survivors-DistinctUsers :
    (cfg : Config) (now : ℕ) (us : List UserInfo)
    → DistinctUsers us
    → DistinctUsers (survivors cfg now us)
unfolding survivors sweep_user
survivors-DistinctUsers cfg now [] d = tt
survivors-DistinctUsers cfg now (u ∷ us) d =
    ground
      (arith, survivors-DistinctUsers cfg now us d.1, has_user-survivors cfg now us u.user_id d.0)

remove_users-cons :
    (xs : List ℕ) (u : UserInfo) (us : List UserInfo)
    → elem ◌==◌ u.user_id xs ≡ false
    → remove_users xs (u ∷ us) ≡ u ∷ remove_users xs us
unfolding remove_users remove_user_info elem
remove_users-cons [] u us h = refl
remove_users-cons (x ∷ xs) u us h = ground (arith, remove_users-cons xs u (remove_user_info us x))

-- A user who is not in the list is not removed from it.
removed-absent :
    (cfg : Config) (now : ℕ) (k : Key) (st : Status) (us : List UserInfo) (user : ℕ)
    → Started now us
    → has_user us user ≡ false
    → elem ◌==◌ user (scan_users cfg now k st us).removed ≡ false
unfolding scan_users scan_cons has_user elem
removed-absent cfg now k st [] user a h = refl
removed-absent cfg now k st (u ∷ us) user a h = ground (
  arith,
  remaining_duration-eq now u.start_time u.duration a.0,
  removed-absent cfg now k st us user a.1,
)

pub scan_users-failed :
    (cfg : Config) (now : ℕ) (k : Key) (st : Status) (us : List UserInfo)
    → Started now us
    → (scan_users cfg now k st us).failed ≡ false
unfolding scan_users scan_cons
scan_users-failed cfg now k st [] a = refl
scan_users-failed cfg now k st (u ∷ us) a = ground (
  arith,
  remaining_duration-eq now u.start_time u.duration a.0,
  scan_users-failed cfg now k st us a.1,
)

-- The two loops, over the users and over the removed ids, leave the survivors in order.
pub remove_users-scan_users :
    (cfg : Config) (now : ℕ) (k : Key) (st : Status) (us : List UserInfo)
    → Started now us
    → DistinctUsers us
    → remove_users (scan_users cfg now k st us).removed (scan_users cfg now k st us).users
      ≡ survivors cfg now us
unfolding scan_users scan_cons remove_users survivors remove_user_info sweep_user
remove_users-scan_users cfg now k st [] a d = refl
remove_users-scan_users cfg now k st (u ∷ us) a d = ground (
  arith,
  remaining_duration-eq now u.start_time u.duration a.0,
  remove_users-scan_users cfg now k st us a.1 d.1,
  removed-absent cfg now k st us u.user_id a.1 d.0,
  remove_users-cons (scan_users cfg now k st us).removed
      (sweep_user cfg u (u.duration - (now - u.start_time))) (scan_users cfg now k st us).users,
)

-- Whatever happens, the scan changes flags only.
pub has_user-scan_users :
    (cfg : Config) (now : ℕ) (k : Key) (st : Status) (us : List UserInfo) (user : ℕ)
    → has_user (scan_users cfg now k st us).users user ≡ has_user us user
unfolding scan_users scan_cons has_user sweep_user
has_user-scan_users cfg now k st [] user = refl
has_user-scan_users cfg now k st (u ∷ us) user =
    ground (arith, has_user-scan_users cfg now k st us user)

pub scan_users-DistinctUsers :
    (cfg : Config) (now : ℕ) (k : Key) (st : Status) (us : List UserInfo)
    → DistinctUsers us
    → DistinctUsers (scan_users cfg now k st us).users
unfolding scan_users scan_cons sweep_user
scan_users-DistinctUsers cfg now k st [] d = tt
scan_users-DistinctUsers cfg now k st (u ∷ us) d = ground (
  arith,
  has_user-scan_users cfg now k st us u.user_id,
  scan_users-DistinctUsers cfg now k st us d.1,
)

pub remove_users-DistinctUsers :
    (xs : List ℕ) (us : List UserInfo) → DistinctUsers us → DistinctUsers (remove_users xs us)
unfolding remove_users
remove_users-DistinctUsers [] us d = d
remove_users-DistinctUsers (x ∷ xs) us d =
    remove_users-DistinctUsers xs (remove_user_info us x) (remove-DistinctUsers us x d)

pub remove_users-Within :
    (st : Status) (xs : List ℕ) (us : List UserInfo) → Within st us → Within st (remove_users xs us)
unfolding remove_users
remove_users-Within st [] us w = w
remove_users-Within st (x ∷ xs) us w =
    remove_users-Within st xs (remove_user_info us x) (remove-Within st us x w)

pub scan_users-Fits :
    (cfg : Config) (now : ℕ) (k : Key) (mode st : Status) (us : List UserInfo)
    → Fits st us
    → Fits st (scan_users cfg now k mode us).users
unfolding scan_users scan_cons
scan_users-Fits cfg now k mode idle [] f = tt
scan_users-Fits cfg now k mode idle (u ∷ us) f = absurd f
scan_users-Fits cfg now k mode exclusive [] f = absurd f
scan_users-Fits cfg now k mode exclusive (u ∷ []) f = ground arith
scan_users-Fits cfg now k mode exclusive (u ∷ v ∷ us) f = absurd f
scan_users-Fits cfg now k mode shared [] f = absurd f
scan_users-Fits cfg now k mode shared (u ∷ us) f = ground arith

pub survivors-Each :
    (P : UserInfo → Type 0) (cfg : Config) (now : ℕ) (us : List UserInfo)
    → ((u : UserInfo) (rest : ℕ) → P u → P (sweep_user cfg u rest))
    → Each P us
    → Each P (survivors cfg now us)
unfolding survivors
survivors-Each P cfg now [] h a = tt
survivors-Each P cfg now (u ∷ us) h a = elim (Bool-cases (is_live now u)) [
  | inl live ↦ rw live (h u _ a.0, survivors-Each P cfg now us h a.1)
  | inr over ↦ rw over (survivors-Each P cfg now us h a.1)
]
