-- ===== src/State/Modes.antt =====
-- How the status of a resource goes with its holders.
use lockbot.Base.{ℕ, List, [], ◌∷◌, arith}
use lockbot.Users.{UserInfo, remove_user_info}
use lockbot.State.{Status, idle, exclusive, shared, settle}

-- A resource is idle exactly when nobody holds it, and exclusive with one holder only.
abbrev pub Fits : Status → List UserInfo → Type 0
Fits idle [] = Unit
Fits idle (u ∷ us) = ⊥
Fits exclusive [] = ⊥
Fits exclusive (u ∷ []) = Unit
Fits exclusive (u ∷ v ∷ us) = ⊥
Fits shared [] = ⊥
Fits shared (u ∷ us) = Unit

-- The same before the status is brought up to date: the holders may all have gone.
abbrev pub Within : Status → List UserInfo → Type 0
Within idle [] = Unit
Within idle (u ∷ us) = ⊥
Within exclusive [] = Unit
Within exclusive (u ∷ []) = Unit
Within exclusive (u ∷ v ∷ us) = ⊥
Within shared us = Unit

pub Fits-Within : (st : Status) (us : List UserInfo) → Fits st us → Within st us
Fits-Within idle [] f = tt
Fits-Within idle (u ∷ us) f = f
Fits-Within exclusive [] f = tt
Fits-Within exclusive (u ∷ []) f = tt
Fits-Within exclusive (u ∷ v ∷ us) f = f
Fits-Within shared us f = tt

pub settle-Fits : (st : Status) (us : List UserInfo) → Within st us → Fits (settle st us) us
unfolding settle
settle-Fits st [] w = tt
settle-Fits idle (u ∷ us) w = w
settle-Fits exclusive (u ∷ []) w = tt
settle-Fits exclusive (u ∷ v ∷ us) w = w
settle-Fits shared (u ∷ us) w = tt

pub remove-Within :
    (st : Status) (us : List UserInfo) (user : ℕ)
    → Within st us
    → Within st (remove_user_info us user)
unfolding remove_user_info
remove-Within idle [] user w = tt
remove-Within idle (u ∷ us) user w = absurd w
remove-Within exclusive [] user w = tt
remove-Within exclusive (u ∷ []) user w = ground arith
remove-Within exclusive (u ∷ v ∷ us) user w = absurd w
remove-Within shared us user w = tt
