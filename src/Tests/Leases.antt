-- ===== src/Tests/Leases.antt =====
-- The limit on leases.
use lockbot.Base.{ℕ, false, ◌≡◌, some, List, [], ◌∷◌, pos, arith}
use lockbot.Users.{UserInfo, apply_max_duration_limit}
use lockbot.Users.Clamp.{Clamped, apply_max_duration_limit-Clamped}
use lockbot.Tests.Data.{lease}

-- The first lease is too long, that of user 4 is exempt, and the last is short.
abbrev some_leases : List UserInfo
some_leases = lease 1 9000 9000 false ∷ lease 4 9000 9000 false ∷ lease 2 9900 600 false ∷ []

apply_max_duration_limit-Clamped_example :
    (vs : List UserInfo) × (users : List ℕ) × (apply_max_duration_limit 10000 some_leases
        (pos 3600)
        (4 ∷ [])
      ≡ some (vs, users))
    × Clamped 10000 (pos 3600) (4 ∷ []) some_leases vs users
apply_max_duration_limit-Clamped_example =
    apply_max_duration_limit-Clamped 10000 some_leases (pos 3600) (4 ∷ [])
      (omega arith, (omega arith, (omega arith, tt)))
