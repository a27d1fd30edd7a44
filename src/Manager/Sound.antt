-- ===== src/Manager/Sound.antt =====
-- What holds between any two sections of the manager's lock, for one bot.
use lockbot.Base.{
  ℕ, ◌+◌, ◌==◌, ◌≤◌, ◌≡◌, Bool, true, false, ◌&&◌, ◌||◌, not, Option, none, some, List, [], ◌∷◌,
  leb, length, all, if◌then◌else◌,
}
use lockbot.Manager.{Slot, Health, running, error, is_at, is_some, still_ours}
use lockbot.Manager.World.{World, Held, Stage, idle, building, activating, draining}

-- The lease is of the present generation, whose instance is live or retained after a failure.
unfoldable pub is_held : Slot → Held → Bool
is_held s h =
    h.lease.generation == s.generation
    && (is_at s.live h.lease.instance || is_at s.failed h.lease.instance)

unfoldable pub count_capped : List Held → ℕ
count_capped [] = 0
count_capped (h ∷ hs) = if h.under_cap then count_capped hs + 1 else count_capped hs

unfoldable pub is_running : Option Health → Bool
is_running (some running) = true
is_running (some error) = false
is_running none = false

unfoldable pub is_error : Option Health → Bool
is_error (some running) = false
is_error (some error) = true
is_error none = false

-- Never both live and failed; the health is that of the instance there is; only the live generation is
-- staged.
unfoldable pub is_coherent : Slot → Bool
is_coherent s =
    if is_some s.live
    then not (is_some s.failed)
      && (is_running s.health && (not (is_some s.staged) || is_at s.staged s.generation))
    else not (is_some s.staged)
      && (if is_some s.failed then is_error s.health else not (is_some s.health))

-- The depth of a transition that is owned is at least 1.
unfoldable pub is_deep : Option (ℕ × ℕ) → Bool
is_deep none = true
is_deep (some (t, depth)) = leb 1 depth

-- What the owner has established by the stage that it is at.
unfoldable pub agrees : Slot → Stage → Bool
agrees s idle = true
agrees s building =
    is_some s.owner
    && (not (is_some s.live)
        && (not (is_some s.failed) && (not s.retiring && s.fatal_pending == 0)))
agrees s (activating i g) =
    is_some s.owner && (is_at s.live i && (s.generation == g && is_at s.staged g))
agrees s (draining g) =
    is_some s.owner && (s.generation == g && (s.retiring && (is_some s.live || is_some s.failed)))

-- The counts are those of what is outstanding, and that is bound to the generation that is kept.
abbrev pub Sound : ℕ → World → Type 0
Sound max_inflight w =
    (w.slot.inflight ≡ length w.leases)
    × (w.slot.fatal_pending ≡ length w.fatals)
    × (all (is_held w.slot) w.leases ≡ true)
    × (all (still_ours w.slot) w.fatals ≡ true)
    × (count_capped w.leases ≤ max_inflight)
    × (is_coherent w.slot ≡ true)
    × (is_deep w.slot.owner ≡ true)
    × (agrees w.slot w.stage ≡ true)
