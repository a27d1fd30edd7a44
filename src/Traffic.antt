-- ===== src/Traffic.antt =====
-- python/lockbot/backend/app/resource_api/traffic.py: the sliding window of requests of a credential,
-- and the minimum interval between its polls. Times are milliseconds of the monotonic clock.
use lockbot.Base.{
  ℕ, ◌+◌, ◌-◌, ◌*◌, ◌/◌, ◌&&◌, ◌==◌, Bool, true, false, Option, none, some, List, [], ◌∷◌, ◌++◌,
  ltb, leb, length, if◌then◌else◌,
}
use lockbot.Scheduler.{put}
pub mod Window
pub mod Gate

pub data Kind : Type 0 where
  read write : Kind

-- `_hits` as a function for each kind: a key that is missing has no hits.
pub record CredentialBudget : Type 0 where
  pub read_limit : ℕ
  pub write_limit : ℕ
  pub window : ℕ
  pub read_hits : ℕ → List ℕ
  pub write_hits : ℕ → List ℕ

unfoldable pub limit_for : CredentialBudget → Kind → ℕ
limit_for b read = b.read_limit
limit_for b write = b.write_limit

unfoldable pub hits_of : CredentialBudget → Kind → ℕ → List ℕ
hits_of b read c = b.read_hits c
hits_of b write c = b.write_hits c

unfoldable pub set_hits : CredentialBudget → Kind → ℕ → List ℕ → CredentialBudget
set_hits b read c hits = record b { read_hits = put b.read_hits c hits }
set_hits b write c hits = record b { write_hits = put b.write_hits c hits }

-- `[t for t in hits if now - t < window]`; what is subtracted stands on the other side, as a time may
-- be ahead of `now`.
unfoldable pub in_window : ℕ → ℕ → List ℕ → List ℕ
in_window window now [] = []
in_window window now (t ∷ ts) =
    if ltb now (window + t) then t ∷ in_window window now ts else in_window window now ts

-- `max(1, int(x) + 1)` of a time that is not negative, in whole seconds.
unfoldable pub whole_seconds : ℕ → ℕ
whole_seconds ms = ms / 1000 + 1

-- What `check` answers; `raised` is the IndexError of `hits[0]` on an empty list.
pub data Verdict : Type 0 where
  allowed raised : Verdict
  refused : ℕ → Verdict

unfoldable pub refuse_hits : ℕ → ℕ → List ℕ → List ℕ → Verdict × List ℕ
refuse_hits window now hits [] = (raised, hits)
refuse_hits window now hits (t ∷ ts) = (refused (whole_seconds ((window + t) - now)), t ∷ ts)

-- The answer and the hits that are left of a key; an exception leaves the dictionary as it was.
unfoldable pub check_hits : ℕ → ℕ → ℕ → List ℕ → Verdict × List ℕ
check_hits window limit now hits =
    let kept = in_window window now hits in
    if leb limit (length kept)
    then refuse_hits window now hits kept
    else (allowed, kept ++ now ∷ [])

-- `_CredentialBudget.check`.
unfoldable pub check : ℕ → Kind → ℕ → CredentialBudget → Verdict × CredentialBudget
check c kind now b =
    let (verdict, hits) = check_hits b.window (limit_for b kind) now (hits_of b kind c) in
    (verdict, set_hits b kind c hits)

-- The kinds of `next_event_kind`; `other` is any further text.
pub data NextEvent : Type 0 where
  own_lock_expiry own_early_warning claim_window_end node_frees queue_estimate other : NextEvent

-- `_last`: the time and the floor of the last poll of a credential.
pub record TierGate : Type 0 where
  pub active : ℕ
  pub booking : ℕ
  pub discovery : ℕ
  pub last : ℕ → Option (ℕ × ℕ)

unfoldable pub floor_for : TierGate → Option NextEvent → ℕ
floor_for g (some own_lock_expiry) = g.active
floor_for g (some own_early_warning) = g.active
floor_for g (some claim_window_end) = g.active
floor_for g (some node_frees) = g.active
floor_for g (some queue_estimate) = g.booking
floor_for g (some other) = g.discovery
floor_for g none = g.discovery

unfoldable pub gate_verdict : ℕ → Option (ℕ × ℕ) → Verdict
gate_verdict now none = allowed
gate_verdict now (some (last, floor)) =
    if ltb now (floor + last) then refused (whole_seconds ((floor + last) - now)) else allowed

unfoldable pub gate_check : ℕ → ℕ → TierGate → Verdict
gate_check c now g = gate_verdict now (g.last c)

unfoldable pub gate_record : ℕ → Option NextEvent → ℕ → TierGate → TierGate
gate_record c kind now g = record g { last = put g.last c (some (now, floor_for g kind)) }

unfoldable pub invalidate : ℕ → TierGate → TierGate
invalidate c g = record g { last = put g.last c none }

-- `reset` of either.
unfoldable pub reset : CredentialBudget → CredentialBudget
reset b = record b { read_hits = λ c. []; write_hits = λ c. [] }

unfoldable pub gate_reset : TierGate → TierGate
gate_reset g = record g { last = λ c. none }
