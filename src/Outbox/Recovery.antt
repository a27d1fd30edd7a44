-- ===== src/Outbox/Recovery.antt =====
-- A restart recovers the evidence that was saved with the state.
use lockbot.Base.{
  ℕ, ◌+◌, ◌==◌, ◌≤◌, ◌≡◌, refl, sym, ap, subst, Bool, true, ◌&&◌, ◌||◌, Option, none, some, List,
  [], ◌∷◌, ◌++◌, ltb, leb, length, all, map, arith, if-either, elim-either,
}
use lockbot.Outbox.{
  Frame, Journal, Save, Canonical, outbox_overflow, decorate, envelope, prepare_state_write,
}
use lockbot.Outbox.Versions.{Counted, decorate-accepts}
use lockbot.Outbox.Recover.{
  accepts, contract_frame, well_formed, follows, is_chain, last_frame, recover_frames, recover,
}

-- The frames follow one another, and the last one is of this journal, this number and this digest.
unfoldable pub links : ℕ → ℕ → ℕ → List Frame → Bool
links id n d [] = true
links id n d (f ∷ []) = f.journal_id == id && (f.commit_sequence == n && f.after_digest == d)
links id n d (f ∷ g ∷ fs) = follows f g && links id n d (g ∷ fs)

abbrev pub Linked : Journal → Type 0
Linked j =
    (links j.journal_id j.sequence j.state.digest j.pending ≡ true)
    × (all (λ x. x.atomic_state) j.pending ≡ true)

links-is_chain :
    (id n d : ℕ) (fs : List Frame) (f : Frame)
    → f.journal_id ≡ id
    → f.commit_sequence ≡ n + 1
    → f.before_digest ≡ d
    → links id n d fs ≡ true
    → is_chain (fs ++ f ∷ []) ≡ true
unfolding links is_chain follows
links-is_chain id n d [] f i s b h = refl
links-is_chain id n d (g ∷ []) f i s b h = ground arith
links-is_chain id n d (g ∷ x ∷ fs) f i s b h =
    ground (arith, links-is_chain id n d (x ∷ fs) f i s b)

last_frame-append : (x f : Frame) (fs : List Frame) → last_frame x (fs ++ f ∷ []) ≡ f
unfolding last_frame
last_frame-append x f [] = refl
last_frame-append x f (g ∷ fs) = last_frame-append g f fs

all-append :
    (p : Frame → Bool) (fs : List Frame) (f : Frame)
    → all p fs ≡ true
    → p f ≡ true
    → all p (fs ++ f ∷ []) ≡ true
all-append p [] f a h = ground arith
all-append p (g ∷ fs) f a h = ground (arith, all-append p fs f)

well_formed-some :
    (fs : List Frame) → all accepts fs ≡ true → well_formed (map (λ f. some f) fs) ≡ some fs
unfolding well_formed contract_frame
well_formed-some [] a = refl
well_formed-some (f ∷ fs) a = ground (arith, well_formed-some fs)

-- The journal after a restart has these frames, and goes on from this number under this identity.
abbrev pub Recovered : Option Journal → List Frame → ℕ → ℕ → Type 0
Recovered none fs n id = ⊥
Recovered (some r) fs n id = (r.pending ≡ fs) × (r.sequence ≡ n) × (r.journal_id ≡ id)

recover-rows :
    (json_bytes : List Frame → ℕ) (current : Canonical) (fs : List Frame) (k : Journal)
    → all accepts fs ≡ true
    → recover json_bytes current (map (λ f. some f) fs) k ≡ recover_frames json_bytes current fs k
unfolding recover
recover-rows json_bytes current fs k a = rw (well_formed-some fs a, recover) refl

module _ (json_bytes : List Frame → ℕ) (current : Canonical) (k : Journal) where
  recover_frames-Recovered :
      (x f : Frame) (xs : List Frame)
      → last_frame x xs ≡ f
      → length (x ∷ xs) ≤ 16
      → json_bytes (x ∷ xs) ≤ 4194304
      → all (λ y. y.atomic_state) (x ∷ xs) ≡ true
      → is_chain (x ∷ xs) ≡ true
      → f.after_digest ≡ current.digest
      → Recovered
          (recover_frames json_bytes current (x ∷ xs) k)
          (x ∷ xs)
          f.commit_sequence
          f.journal_id
  unfolding recover_frames
  recover_frames-Recovered x f xs last few small atomic chain digest =
      if-either (λ o. Recovered o (x ∷ xs) f.commit_sequence f.journal_id)
        ((leb (length (x ∷ xs)) 16 && leb (json_bytes (x ∷ xs)) 4194304)
          && (all (λ y. y.atomic_state) (x ∷ xs)
              && (is_chain (x ∷ xs) && (last_frame x xs).after_digest == current.digest)))
        (λ good. (refl, ap (λ y. y.commit_sequence) last, ap (λ y. y.journal_id) last))
        (λ bad.
          absurd (ground (arith, few, small, atomic, chain, ap (λ y. y.after_digest) last, digest)))

  recover_appended :
      (fs : List Frame) (f : Frame)
      → length (fs ++ f ∷ []) ≤ 16
      → json_bytes (fs ++ f ∷ []) ≤ 4194304
      → all (λ y. y.atomic_state) (fs ++ f ∷ []) ≡ true
      → is_chain (fs ++ f ∷ []) ≡ true
      → f.after_digest ≡ current.digest
      → Recovered
          (recover_frames json_bytes current (fs ++ f ∷ []) k)
          (fs ++ f ∷ [])
          f.commit_sequence
          f.journal_id
  unfolding last_frame
  recover_appended [] f few small atomic chain digest =
      recover_frames-Recovered f f [] refl few small atomic chain digest
  recover_appended (g ∷ gs) f few small atomic chain digest =
      recover_frames-Recovered g f (gs ++ f ∷ []) (last_frame-append g f gs) few small atomic chain
        digest

  recover-envelope :
      (j : Journal) (f : Frame)
      → json_bytes ((record f { boundary = some outbox_overflow; events = [] }) ∷ []) ≤ 4194304
      → all (λ y. y.atomic_state) (j.pending ++ f ∷ []) ≡ true
      → is_chain (j.pending ++ f ∷ []) ≡ true
      → all accepts (j.pending ++ f ∷ []) ≡ true
      → accepts (record f { boundary = some outbox_overflow; events = [] }) ≡ true
      → f.atomic_state ≡ true
      → f.after_digest ≡ current.digest
      → Recovered
          (recover json_bytes current (map (λ f. some f) (envelope json_bytes f j).pending) k)
          (envelope json_bytes f j).pending
          f.commit_sequence
          f.journal_id
  unfolding envelope is_chain
  recover-envelope j f small atomic chain good good_alone one digest =
      let alone : Frame = record f { boundary = some outbox_overflow; events = [] } in
      if-either
        (λ (e : Journal).
          Recovered (recover json_bytes current (map (λ f. some f) e.pending) k) e.pending
            f.commit_sequence f.journal_id)
        (ltb 16 (length (j.pending ++ f ∷ [])) || ltb 4194304 (json_bytes (j.pending ++ f ∷ [])))
        (λ full.
          subst (λ o. Recovered o (alone ∷ []) f.commit_sequence f.journal_id)
            (sym (recover-rows json_bytes current (alone ∷ []) k (ground (arith, good_alone))))
            (recover_appended [] alone (omega arith) small (ground (arith, one)) refl digest))
        (λ room.
          subst (λ o. Recovered o (j.pending ++ f ∷ []) f.commit_sequence f.journal_id)
            (sym (recover-rows json_bytes current (j.pending ++ f ∷ []) k good))
            (recover_appended j.pending f (ground (arith, room)) (ground (arith, room)) atomic chain
              digest))

-- A save is prepared from a journal whose pending frames follow one another, were all saved with their
-- states, are of the form that a restart accepts, and end at the last state; whose versions count from
-- 1; and where the frame of this save has at most 4096 versions and, as a boundary alone, fits the size
-- limit. If the process stops when the file is in place, before the journal has the frames, and the
-- restart accepts the schema of their rows, it finds in the file a chain that it accepts: it has the
-- very frames that were pending, and goes on from the number of the save, one more than before, under
-- the same identity. That holds also when the frames were too many and have become one boundary.
pub recover-prepare_state_write :
    (json_bytes : List Frame → ℕ) (s : Save) (j k : Journal)
    → json_bytes
        ((record (decorate true j s) { boundary = some outbox_overflow; events = [] }) ∷ [])
      ≤ 4194304
    → length (decorate true j s).versions ≤ 4096
    → Counted j.versions
    → all accepts j.pending ≡ true
    → j.prepared ≡ none
    → Linked j
    → Recovered
        (recover json_bytes s.current
          (map (λ f. some f) (prepare_state_write json_bytes s j).pending)
          k)
        (prepare_state_write json_bytes s j).pending
        (j.sequence + 1)
        j.journal_id
unfolding prepare_state_write decorate
recover-prepare_state_write json_bytes s j k small few counted accepted free linked =
    let f = decorate true j s in
    let good = decorate-accepts j s counted few in
    let started : Journal = record j {
      sequence = j.sequence + 1;
      prepared = some (f, j.pending, j.sequence);
    } in
    let kept =
      recover-envelope json_bytes s.current k started f small
        (all-append (λ y. y.atomic_state) j.pending f linked.1 refl)
        (links-is_chain j.journal_id j.sequence j.state.digest j.pending f refl refl refl linked.0)
        (all-append accepts j.pending f accepted good.0) good.1 refl refl in
    elim-either
      (λ (e : Journal).
        Recovered (recover json_bytes s.current (map (λ f. some f) e.pending) k) e.pending
          (j.sequence + 1) j.journal_id)
      j.prepared (λ none_. kept) (λ p busy. absurd (ground (arith, free, busy)))
