-- ===== src/Outbox.antt =====
-- python/lockbot/backend/app/resource_api/lease_contract.py, and the parts of
-- python/lockbot/backend/app/resource_api/lease_history.py that drive it: the evidence of lease changes
-- that is saved with the state, until the journal has it. Digests, identities and references are
-- numbers; what JSON makes of the frames enters as its size.
use lockbot.Base.{
  ℕ, ◌+◌, ◌==◌, Bool, true, false, ◌&&◌, ◌||◌, not, Option, none, some, List, [], ◌∷◌, ◌++◌, ltb,
  leb, length, all, if◌then◌else◌, elem,
}
pub mod Recover
pub mod Chain
pub mod Saves
pub mod Versions
pub mod Recovery

pub data Boundary : Type 0 where
  session_start invalid_state clock_reversal unconfirmed_mutation : Boundary
  state_persist_failed journal_write_failed outbox_overflow : Boundary

-- The canonical state: its digest, the references of its leases and bookings, and whether it is valid.
pub record Canonical : Type 0 where
  pub digest : ℕ
  pub refs : List ℕ
  pub complete : Bool

-- `events` are the references of the leases and bookings that its events are about.
pub record Frame : Type 0 where
  pub commit_sequence : ℕ
  pub journal_id : ℕ
  pub frame_id : ℕ
  pub atomic_state : Bool
  pub before_digest : ℕ
  pub after_digest : ℕ
  pub boundary : Option Boundary
  pub events : List ℕ
  pub versions : List (ℕ × ℕ)

-- `DurableOutbox` with its `LeaseJournal`; `log` is what the journal file has, and `prepared` is
-- `_prepared`.
pub record Journal : Type 0 where
  pub journal_id : ℕ
  pub sequence : ℕ
  pub versions : List (ℕ × ℕ)
  pub pending : List Frame
  pub known : List ℕ
  pub retry_scan : Bool
  pub log : List Frame
  pub state : Canonical
  pub gap : Option Boundary
  pub prepared : Option (Frame × List Frame × ℕ)

-- `versions[ref] = versions.get(ref, 0) + 1` and `versions.setdefault(ref, 1)`.
unfoldable pub bump : ℕ → List (ℕ × ℕ) → List (ℕ × ℕ)
bump ref [] = (ref, 1) ∷ []
bump ref ((r, v) ∷ vs) = if r == ref then (r, v + 1) ∷ vs else (r, v) ∷ bump ref vs

unfoldable pub set_default : ℕ → List (ℕ × ℕ) → List (ℕ × ℕ)
set_default ref [] = (ref, 1) ∷ []
set_default ref ((r, v) ∷ vs) = if r == ref then (r, v) ∷ vs else (r, v) ∷ set_default ref vs

unfoldable pub bump_all : List ℕ → List (ℕ × ℕ) → List (ℕ × ℕ)
bump_all [] vs = vs
bump_all (r ∷ rs) vs = bump_all rs (bump r vs)

unfoldable pub default_all : List ℕ → List (ℕ × ℕ) → List (ℕ × ℕ)
default_all [] vs = vs
default_all (r ∷ rs) vs = default_all rs (set_default r vs)

-- `{k: v for k, v in versions.items() if k in refs}`.
unfoldable pub versions_of : List ℕ → List (ℕ × ℕ) → List (ℕ × ℕ)
versions_of refs [] = []
versions_of refs ((r, v) ∷ vs) =
    if elem ◌==◌ r refs then (r, v) ∷ versions_of refs vs else versions_of refs vs

-- What a save brings: the state, the changes from the last one (by `transitions`), whether the clock
-- went back, and the identity drawn for its frame.
pub record Save : Type 0 where
  pub current : Canonical
  pub changes : List ℕ
  pub reversed : Bool
  pub frame_id : ℕ

unfoldable pub boundary_of : Journal → Save → Option Boundary
boundary_of j s =
    if s.reversed
    then some clock_reversal
    else if s.current.complete
    then j.gap
    else some invalid_state

unfoldable pub events_of : Option Boundary → List ℕ → List ℕ
events_of none changes = changes
events_of (some b) changes = []

-- `_frame` with `decorate`: the frame of the next sequence number.
unfoldable pub decorate : Bool → Journal → Save → Frame
decorate atomic j s =
    let boundary = boundary_of j s in
    let events = events_of boundary s.changes in
    record {
      commit_sequence = j.sequence + 1;
      journal_id = j.journal_id;
      frame_id = s.frame_id;
      atomic_state = atomic;
      before_digest = j.state.digest;
      after_digest = s.current.digest;
      boundary = boundary;
      events = events;
      versions = default_all s.current.refs (bump_all events j.versions);
    }

-- `acknowledged_state`.
unfoldable pub acknowledged_state : Frame → Canonical → Journal → Journal
acknowledged_state f current j = record j { versions = versions_of current.refs f.versions }

-- How an append goes: the frame is in the file or not, and the call raises or not.
pub data Append : Type 0 where
  appended lost torn : Append

-- `_read_known`: of the frames that are pending, those that the file has (as far as it is read) or
-- that were known.
unfoldable pub ids : List Frame → List ℕ
ids [] = []
ids (f ∷ fs) = f.frame_id ∷ ids fs

unfoldable pub known_of : List ℕ → List ℕ → List Frame → List ℕ
known_of known logged [] = []
known_of known logged (f ∷ fs) =
    if elem ◌==◌ f.frame_id known || elem ◌==◌ f.frame_id logged
    then f.frame_id ∷ known_of known logged fs
    else known_of known logged fs

unfoldable pub discard : ℕ → List ℕ → List ℕ
discard i [] = []
discard i (k ∷ ks) = if k == i then discard i ks else k ∷ discard i ks

-- The loop of `flush`: the frames left, what is known, the log, and whether an append raised.
unfoldable pub flush_frames :
    (Frame → Append) → List Frame → List ℕ → List Frame → List Frame × List ℕ × List Frame × Bool
flush_frames append [] known log = ([], known, log, false)
flush_frames append (f ∷ fs) known log =
    let skip = flush_frames append fs (discard f.frame_id known) log in
    let write = flush_frames append fs (discard f.frame_id known) (log ++ f ∷ []) in
    if elem ◌==◌ f.frame_id known then skip else elim (append f) [
      | appended ↦ write
      | lost ↦ (f ∷ fs, known, log, true)
      | torn ↦ (f ∷ fs, known, log ++ f ∷ [], true)
    ]

-- `flush`; after an append that raised, the file is read again first.
unfoldable pub flush : (Frame → Append) → Journal → Journal × Bool
flush append j =
    let known = if j.retry_scan then known_of j.known (ids j.log) j.pending else j.known in
    let (pending, known', log, raised) = flush_frames append j.pending known j.log in
    (record j { pending = pending; known = known'; log = log; retry_scan = raised }, raised)

module _ (json_bytes : List Frame → ℕ) where
  -- `envelope`: the frames that are saved with the state. Too many become one, which is a boundary.
  unfoldable pub envelope : Frame → Journal → Journal
  envelope f j =
      let all_ = j.pending ++ f ∷ [] in
      if ltb 16 (length all_) || ltb 4194304 (json_bytes all_)
      then record j { pending = (record f { boundary = some outbox_overflow; events = [] }) ∷ [] }
      else record j { pending = all_ }

  -- `prepare_state_write`; a second one is an error.
  unfoldable pub prepare_state_write : Save → Journal → Journal
  prepare_state_write s j = elim j.prepared [
    | some p ↦ j
    | none ↦
        let f = decorate true j s in
        envelope f
          (record j { sequence = j.sequence + 1; prepared = some (f, j.pending, j.sequence) })
  ]

  -- The frame of a save that was not prepared is not atomic with the state.
  unfoldable pub frame_of_commit :
      Save → Journal → Option (Frame × List Frame × ℕ) → Frame × Journal
  frame_of_commit s j (some (f, pending, sequence)) = (f, record j { prepared = none })
  frame_of_commit s j none =
      let f = decorate false j s in (f, envelope f (record j { sequence = j.sequence + 1 }))

  unfoldable pub committed : (Frame → Append) → Save → Journal → Journal
  committed append s j =
      let (f, k) = frame_of_commit s j j.prepared in
      if s.current.digest == f.after_digest
      then (let (flushed, raised) = flush append (acknowledged_state f s.current k) in
          record flushed {
            state = s.current;
            gap =
                if raised
                then some journal_write_failed
                else if s.current.complete
                then none
                else some invalid_state;
          })
      else record k { gap = some unconfirmed_mutation }

-- `failed`.
unfoldable pub failed : Journal → Journal
failed j = elim j.prepared [
  | none ↦ record j { gap = some state_persist_failed }
  | some (f, pending, sequence) ↦ record j {
    pending = pending;
    sequence = sequence;
    prepared = none;
    gap = some state_persist_failed;
  }
]
