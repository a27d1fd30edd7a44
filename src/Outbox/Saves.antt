-- ===== src/Outbox/Saves.antt =====
-- Every save keeps the pending frames numbered.
use lockbot.Base.{
  ℕ, ◌+◌, ◌==◌, ◌≡◌, refl, sym, subst, true, false, Option, none, some, List, [], ◌∷◌, if-either,
  elim-either,
}
use lockbot.Outbox.{
  Frame, Journal, Save, Append, decorate, acknowledged_state, flush, envelope, prepare_state_write,
  frame_of_commit, committed, failed,
}
use lockbot.Outbox.Chain.{
  Numbered, Remembered, Chained, Event, prepares, commits, fails, step, run_events, flush-Numbered,
  envelope-Numbered, envelope-rest,
}

-- Nothing is prepared, and the frames are numbered.
abbrev Free : Journal → Type 0
Free j = (j.prepared ≡ none) × Numbered j.sequence j.pending

after_free :
    (n : ℕ) (fs : List Frame) (p : Option (Frame × List Frame × ℕ))
    → p ≡ none
    → Numbered n fs
    → Numbered n fs × Remembered n p
after_free n fs p e h = (h, subst (Remembered n) (sym e) tt)

module _ (json_bytes : List Frame → ℕ) where
  prepare-Chained :
      (s : Save) (j : Journal) → Chained j → Chained (prepare_state_write json_bytes s j)
  unfolding prepare_state_write decorate
  prepare-Chained s j h =
      let f = decorate true j s in
      let k : Journal = record j {
        sequence = j.sequence + 1;
        prepared = some (f, j.pending, j.sequence);
      } in
      let rest = envelope-rest json_bytes f k in
      elim-either Chained j.prepared
        (λ free. (
          subst (λ n. Numbered n (envelope json_bytes f k).pending) (sym rest.0)
              (envelope-Numbered json_bytes f k j.sequence refl h.0),
          subst (Remembered (envelope json_bytes f k).sequence) (sym rest.1)
              (subst (λ n. Remembered n k.prepared) (sym rest.0) (refl, h.0)),
        ))
        (λ p e. h)

  frame_of_commit-Free :
      (s : Save) (j : Journal) (o : Option (Frame × List Frame × ℕ))
      → j.prepared ≡ o
      → Numbered j.sequence j.pending
      → Free (frame_of_commit json_bytes s j o).1
  unfolding frame_of_commit decorate
  frame_of_commit-Free s j (some p) e h = (refl, h)
  frame_of_commit-Free s j none e h =
      let f = decorate false j s in
      let k : Journal = record j { sequence = j.sequence + 1 } in
      let rest = envelope-rest json_bytes f k in
      (
        subst (λ p. p ≡ none) (sym rest.1) e,
        subst (λ n. Numbered n (envelope json_bytes f k).pending) (sym rest.0)
            (envelope-Numbered json_bytes f k j.sequence refl h),
      )

  committed-Chained :
      (append : Frame → Append) (s : Save) (j : Journal)
      → Chained j
      → Chained (committed json_bytes append s j)
  unfolding committed acknowledged_state flush
  committed-Chained append s j h =
      let fk = frame_of_commit json_bytes s j j.prepared in
      let free = frame_of_commit-Free s j j.prepared refl h.0 in
      let acknowledged = acknowledged_state fk.0 s.current fk.1 in
      if-either Chained (s.current.digest == fk.0.after_digest)
        (λ same.
          after_free fk.1.sequence (flush append acknowledged).0.pending fk.1.prepared free.0
            (flush-Numbered append acknowledged free.1))
        (λ other. after_free fk.1.sequence fk.1.pending fk.1.prepared free.0 free.1)

  failed-Chained : (j : Journal) → Chained j → Chained (failed j)
  unfolding failed
  failed-Chained j h =
      elim-either Chained j.prepared (λ free. h)
        (λ p e. ((subst (Remembered j.sequence) e h.1).1, tt))

  step-Chained : (e : Event) (j : Journal) → Chained j → Chained (step json_bytes e j)
  unfolding step
  step-Chained (prepares s) j h = prepare-Chained s j h
  step-Chained (commits append s) j h = committed-Chained append s j h
  step-Chained fails j h = failed-Chained j h

-- Whatever is prepared, committed or fails in whatever order, and however appends to the journal go, from
-- a journal whose pending frames are numbered: at most 16 frames are pending, their numbers are
-- consecutive, and the last one has the sequence number that the journal is at; a save that is prepared
-- has that number too, and remembers such frames to go back to.
pub run_events-Chained :
    (es : List Event) (json_bytes : List Frame → ℕ) (j : Journal)
    → Chained j
    → Chained (run_events json_bytes es j)
unfolding run_events
run_events-Chained [] json_bytes j h = h
run_events-Chained (e ∷ es) json_bytes j h =
    run_events-Chained es json_bytes (step json_bytes e j) (step-Chained json_bytes e j h)
