-- ===== src/Users.antt =====
-- python/lockbot/core/utils.py: the user records that a resource holds, and durations.
-- Times are whole seconds; `now` is the value of `int(time.time())`.
use lockbot.Base.{
  ℕ, ◌+◌, ◌-◌, ◌*◌, ◌/◌, ◌^◌, Bool, true, false, ◌&&◌, Option, none, some, List, [], ◌∷◌, ltb, leb,
  ◌==◌, if◌then◌else◌, ℤ, pos_part, elem,
}
use lockbot.Keys.{Key}
pub mod Laws
pub mod Clamp

-- An entry of `current_users` or of `booking_list`. `holding_id` and `source` are opaque tags;
-- `booked_start_time` is the key that `setdefault` adds in the sweep of a queue.
pub record UserInfo : Type 0 where
  pub user_id : ℕ
  pub start_time : ℕ
  pub duration : ℕ
  pub is_notified : Bool
  pub holding_id : ℕ
  pub source : ℕ
  pub booked_start_time : Option ℕ

-- What a request reads from outside: the clock, the command's source, and the uuid drawn for each
-- resource.
pub record Request : Type 0 where
  pub now : ℕ
  pub source : ℕ
  pub uuid : Key → ℕ

unfoldable pub create_user_info : Request → Key → ℕ → ℕ → UserInfo
create_user_info r k user duration = record {
  user_id = user;
  start_time = r.now;
  duration = duration;
  is_notified = false;
  holding_id = r.uuid k;
  source = r.source;
  booked_start_time = none;
}

unfoldable pub is_first_user : List UserInfo → ℕ → Bool
is_first_user [] user = false
is_first_user (u ∷ us) user = u.user_id == user

unfoldable pub find_user_info : List UserInfo → ℕ → Option UserInfo
find_user_info [] user = none
find_user_info (u ∷ us) user = if u.user_id == user then some u else find_user_info us user

-- Only the first record of the user goes.
unfoldable pub remove_user_info : List UserInfo → ℕ → List UserInfo
remove_user_info [] user = []
remove_user_info (u ∷ us) user = if u.user_id == user then us else u ∷ remove_user_info us user

-- The truth of `find_user_info(...)`.
unfoldable pub has_user : List UserInfo → ℕ → Bool
unfolding find_user_info
has_user us user = elim (find_user_info us user) [ none ↦ false | some u ↦ true ]

pub data TimeUnit : Type 0 where
  days hours minutes : TimeUnit

-- `float(m[13])` as the decimal `digits / 10 ^ scale`, with no rounding.
pub record Decimal : Type 0 where
  pub digits : ℕ
  pub scale : ℕ

unfoldable pub duration_to_seconds : Decimal → TimeUnit → Decimal
duration_to_seconds d days = record d { digits = d.digits * 86400 }
duration_to_seconds d hours = record d { digits = d.digits * 3600 }
duration_to_seconds d minutes = record d { digits = d.digits * 60 }

-- `int(...)` of such a number.
unfoldable pub truncate : Decimal → ℕ
truncate d = d.digits / 10 ^ d.scale

-- `none` is the failure of `assert current_timestamp >= start_time`.
unfoldable pub remaining_duration : ℕ → ℕ → ℕ → Option ℕ
remaining_duration now start duration =
    if leb start now then some (duration - (now - start)) else none

-- One round of the loop of `apply_max_duration_limit`, once the remaining time is known.
unfoldable pub clamp_user : ℤ → UserInfo → ℕ → UserInfo × Bool
clamp_user max_duration u final_duration =
    if ltb 0 (pos_part max_duration) && ltb (pos_part max_duration) final_duration
    then (record u { duration = u.duration - final_duration + pos_part max_duration }, true)
    else (u, false)

-- The clamped list and the users whose time was cut, in order; `none` is the failed assertion.
unfoldable pub apply_max_duration_limit :
    ℕ → List UserInfo → ℤ → List ℕ → Option (List UserInfo × List ℕ)
apply_max_duration_limit now [] max_duration whitelist = some ([], [])
apply_max_duration_limit now (u ∷ us) max_duration whitelist =
    elim (apply_max_duration_limit now us max_duration whitelist) [
      | none ↦ none
      | some (rest, clamped) ↦
          if elem ◌==◌ u.user_id whitelist
          then some (u ∷ rest, clamped)
          else elim (remaining_duration now u.start_time u.duration) [
            | none ↦ none
            | some final_duration ↦
                let (v, cut) = clamp_user max_duration u final_duration in
                some (v ∷ rest, if cut then u.user_id ∷ clamped else clamped)
          ]
    ]
