-- ===== src/Outbox/Recover.antt =====
-- What python/lockbot/backend/app/resource_api/lease_contract.py recovers when a bot starts again.
use lockbot.Base.{
  ℕ, ◌+◌, ◌==◌, Bool, true, ◌&&◌, elem, Option, none, some, List, [], ◌∷◌, leb, length, all,
  if◌then◌else◌,
}
use lockbot.Outbox.{Frame, Journal, Canonical, versions_of}

-- The versions of `contract_frame`: the references with their versions.
unfoldable pub version_refs : List (ℕ × ℕ) → List ℕ
version_refs [] = []
version_refs ((r, v) ∷ vs) = r ∷ version_refs vs

-- What `contract_frame` checks of the numbers, the versions and the events of a frame.
unfoldable pub accepts : Frame → Bool
accepts f =
    (leb 1 f.commit_sequence && leb (length f.versions) 4096)
    && (all (λ (p : ℕ × ℕ). leb 1 p.1) f.versions
        && all (λ r. elem ◌==◌ r (version_refs f.versions)) f.events)

-- `contract_frame` on a row; `none` is a row whose schema, identities or times it refuses.
unfoldable pub contract_frame : Option Frame → Option Frame
contract_frame none = none
contract_frame (some f) = if accepts f then some f else none

-- `_recover` on the rows of an envelope of this bot, identity and version, in a state file that is
-- regular and small enough to be read; then `flush` runs. Any other envelope leaves the journal as it
-- is.
unfoldable pub well_formed : List (Option Frame) → Option (List Frame)
well_formed [] = some []
well_formed (f ∷ fs) =
    let rest = well_formed fs in
    elim (contract_frame f) [
      | none ↦ none
      | some g ↦ elim rest [ none ↦ none | some gs ↦ some (g ∷ gs) ]
    ]

unfoldable pub follows : Frame → Frame → Bool
follows f g =
    f.journal_id == g.journal_id
    && (f.commit_sequence + 1 == g.commit_sequence && f.after_digest == g.before_digest)

unfoldable pub is_chain : List Frame → Bool
is_chain [] = true
is_chain (f ∷ []) = true
is_chain (f ∷ g ∷ fs) = follows f g && is_chain (g ∷ fs)

unfoldable pub last_frame : Frame → List Frame → Frame
last_frame f [] = f
last_frame f (g ∷ fs) = last_frame g fs

module _ (json_bytes : List Frame → ℕ) where
  unfoldable pub recover_frames : Canonical → List Frame → Journal → Option Journal
  recover_frames current [] j = none
  recover_frames current (f ∷ fs) j =
      let last = last_frame f fs in
      if (leb (length (f ∷ fs)) 16 && leb (json_bytes (f ∷ fs)) 4194304)
        && (all (λ x. x.atomic_state) (f ∷ fs)
            && (is_chain (f ∷ fs) && last.after_digest == current.digest))
      then some (record j {
        pending = f ∷ fs;
        journal_id = last.journal_id;
        sequence = last.commit_sequence;
        versions = versions_of current.refs last.versions;
      })
      else none

  unfoldable pub recover : Canonical → List (Option Frame) → Journal → Option Journal
  recover current rows j = elim (well_formed rows) [
    | none ↦ none
    | some fs ↦ recover_frames current fs j
  ]
