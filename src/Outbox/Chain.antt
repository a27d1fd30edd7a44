-- ===== src/Outbox/Chain.antt =====
-- The frames that are pending, whatever is saved and however saves and appends fail.
use lockbot.Base.{
  ℕ, ◌+◌, ◌==◌, ◌≤◌, ◌≡◌, refl, Bool, true, ◌&&◌, ◌||◌, Option, none, some, List, [], ◌∷◌, ◌++◌,
  ltb, length, elem, arith, if-either, length-append,
}
use lockbot.Outbox.{
  Frame, Journal, Save, Append, appended, lost, torn, discard, flush_frames, flush, envelope,
  prepare_state_write, committed, failed,
}

-- The frames have consecutive numbers, of which `last` is that of the last one.
unfoldable pub is_numbered : ℕ → List Frame → Bool
is_numbered last [] = true
is_numbered last (f ∷ fs) = f.commit_sequence + length fs == last && is_numbered last fs

abbrev pub Numbered : ℕ → List Frame → Type 0
Numbered last fs = (is_numbered last fs ≡ true) × (length fs ≤ 16)

-- A prepared save remembers what to go back to.
abbrev pub Remembered : ℕ → Option (Frame × List Frame × ℕ) → Type 0
Remembered last none = Unit
Remembered last (some (f, pending, sequence)) =
    (f.commit_sequence ≡ last) × Numbered sequence pending

abbrev pub Chained : Journal → Type 0
Chained j = Numbered j.sequence j.pending × Remembered j.sequence j.prepared

pub data Event : Type 0 where
  prepares : Save → Event
  commits : (Frame → Append) → Save → Event
  fails : Event

unfoldable pub step : (List Frame → ℕ) → Event → Journal → Journal
step json_bytes (prepares s) j = prepare_state_write json_bytes s j
step json_bytes (commits append s) j = committed json_bytes append s j
step json_bytes fails j = failed j

unfoldable pub run_events : (List Frame → ℕ) → List Event → Journal → Journal
run_events json_bytes [] j = j
run_events json_bytes (e ∷ es) j = run_events json_bytes es (step json_bytes e j)

pub is_numbered-append :
    (last : ℕ) (fs : List Frame) (f : Frame)
    → f.commit_sequence ≡ last + 1
    → is_numbered last fs ≡ true
    → is_numbered (last + 1) (fs ++ f ∷ []) ≡ true
unfolding is_numbered
is_numbered-append last [] f n h = ground arith
is_numbered-append last (g ∷ fs) f n h =
    ground (arith, is_numbered-append last fs f n, length-append fs (f ∷ []))

flush_frames-Numbered :
    (append : Frame → Append) (last : ℕ) (fs : List Frame) (known : List ℕ) (log : List Frame)
    → Numbered last fs
    → Numbered last (flush_frames append fs known log).0
unfolding flush_frames is_numbered
flush_frames-Numbered append last [] known log h = h
flush_frames-Numbered append last (f ∷ fs) known log h =
    let P : List Frame × List ℕ × List Frame × Bool → Type 0 = λ r. Numbered last r.0 in
    let rest : Numbered last fs = (ground (arith, h.0), omega (arith, h.1)) in
    if-either P (elem ◌==◌ f.frame_id known)
      (λ there. flush_frames-Numbered append last fs (discard f.frame_id known) log rest)
      (λ new_.
        written (append f)
          (flush_frames-Numbered append last fs (discard f.frame_id known) (log ++ f ∷ []) rest))
  where
    written :
        (a : Append)
        → Numbered last (flush_frames append fs (discard f.frame_id known) (log ++ f ∷ [])).0
        → Numbered last
            (elim a as (λ x. List Frame × List ℕ × List Frame × Bool) [
              | appended ↦ flush_frames append fs (discard f.frame_id known) (log ++ f ∷ [])
              | lost ↦ (f ∷ fs, known, log, true)
              | torn ↦ (f ∷ fs, known, log ++ f ∷ [], true)
            ]).0
    written appended w = w
    written lost w = h
    written torn w = h

pub flush-Numbered :
    (append : Frame → Append) (j : Journal)
    → Numbered j.sequence j.pending
    → Numbered j.sequence (flush append j).0.pending
unfolding flush
flush-Numbered append j h = flush_frames-Numbered append j.sequence j.pending _ j.log h

module _ (json_bytes : List Frame → ℕ) where
  pub envelope-Numbered :
      (f : Frame) (j : Journal) (last : ℕ)
      → f.commit_sequence ≡ last + 1
      → Numbered last j.pending
      → Numbered (last + 1) (envelope json_bytes f j).pending
  unfolding envelope is_numbered
  envelope-Numbered f j last n h =
      if-either (λ (k : Journal). Numbered (last + 1) k.pending)
        (ltb 16 (length (j.pending ++ f ∷ [])) || ltb 4194304 (json_bytes (j.pending ++ f ∷ [])))
        (λ full. (ground arith, omega arith))
        (λ room. (is_numbered-append last j.pending f n h.0, ground arith))

  pub envelope-rest :
      (f : Frame) (j : Journal)
      → ((envelope json_bytes f j).sequence ≡ j.sequence)
        × ((envelope json_bytes f j).prepared ≡ j.prepared)
  unfolding envelope
  envelope-rest f j =
      if-either (λ (k : Journal). (k.sequence ≡ j.sequence) × (k.prepared ≡ j.prepared))
        (ltb 16 (length (j.pending ++ f ∷ [])) || ltb 4194304 (json_bytes (j.pending ++ f ∷ [])))
        (λ full. (refl, refl)) (λ room. (refl, refl))
