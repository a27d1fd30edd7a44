-- ===== src/Notify/Packed.antt =====
-- The text that is sent for a batch, apart from how it is packed.
use lockbot.Base.{
  ℕ, ◌≤◌, ◌<◌, ◌≡◌, ◌⊎◌, inl, inr, sym, subst, true, false, ◌&&◌, none, some, List, [], ◌∷◌, ◌++◌,
  ltb, length, arith, Each, if-either, if◌then◌else◌, ◌==◌, Bool-cases,
}
use lockbot.Policy.{is_empty}
use lockbot.Notify.{
  Message, bytes, join, PublicEvent, Limits, Batch, too_long, within, overflow_suffix, take_batch,
}
use lockbot.Notify.Pack.{texts, Stops, take_batch_packs}

-- The texts with an empty line between any two of them.
pub data Joined : List Message → Message → Type 0 where
  no_text : Joined [] []
  one_text : (t : Message) → Joined (t ∷ []) t
  more_texts :
      (t u : Message) (ts : List Message) (rest : Message)
      → Joined (u ∷ ts) rest
      → Joined (t ∷ u ∷ ts) (t ++ 10 ∷ 10 ∷ rest)

join-Joined : (ts : List Message) → Joined ts (join ts)
unfolding join
join-Joined [] = no_text
join-Joined (t ∷ []) = one_text t
join-Joined (t ∷ u ∷ ts) = more_texts t u ts (join (u ∷ ts)) (join-Joined (u ∷ ts))

-- The notice of the events that were lost, if there were any.
abbrev pub Notice : Batch → List Message → Type 0
Notice b notice =
    ((b.dropped ≡ 0) × (notice ≡ []))
    ⊎ ((1 ≤ b.dropped) × (notice ≡ b.target.overflow_text b.dropped ∷ []))

overflow_suffix_told :
    (b : Batch)
    → is_empty (b.target.overflow_text b.dropped) ≡ false
    → overflow_suffix b ≡ (if ltb 0 b.dropped then b.target.overflow_text b.dropped ∷ [] else [])
unfolding overflow_suffix
overflow_suffix_told b told = ground arith

overflow_suffix-Notice :
    (b : Batch) → is_empty (b.target.overflow_text b.dropped) ≡ false → Notice b (overflow_suffix b)
overflow_suffix-Notice b told = elim (Bool-cases (ltb 0 b.dropped)) [
  | inl lost ↦ inr (ground arith, ground (arith, overflow_suffix_told b told))
  | inr whole ↦ inl (ground arith, ground (arith, overflow_suffix_told b told))
]

-- A text within the limits of what is sent.
abbrev pub Sendable : Limits → Message → Type 0
Sendable l t = (length t ≤ l.max_chars) × (bytes t ≤ l.max_text_bytes)

abbrev pub Short : Limits → PublicEvent → Type 0
Short l e = Sendable l e.text × (bytes e.text ≤ l.max_bytes)

within-Sendable : (l : Limits) (ts : List Message) → within l ts ≡ true → Sendable l (join ts)
unfolding within
within-Sendable l ts h = ground (arith, h)

Sendable-within : (l : Limits) (t : Message) → Sendable l t → within l (t ∷ []) ≡ true
unfolding within join
Sendable-within l t h = ground (arith, h)

Short-too_long :
    (l : Limits) (es : List PublicEvent)
    → Each (Short l) es
    → Each (λ e. too_long l e.text ≡ false) es
unfolding too_long
Short-too_long l [] h = tt
Short-too_long l (e ∷ es) h = (ground (arith, h.0), Short-too_long l es h.1)

suffix-within :
    (l : Limits) (b : Batch)
    → is_empty (b.target.overflow_text b.dropped) ≡ false
    → Sendable l (b.target.overflow_text b.dropped)
    → Each (λ t. within l (t ∷ []) ≡ true) (overflow_suffix b)
suffix-within l b told h =
    subst (λ ts. Each (λ t. within l (t ∷ []) ≡ true) ts) (sym (overflow_suffix_told b told))
      (if-either (λ ts. Each (λ t. within l (t ∷ []) ≡ true) ts) (ltb 0 b.dropped)
        (λ lost. (Sendable-within l (b.target.overflow_text b.dropped) h, tt)) (λ whole. tt))

some_suffix :
    (b : Batch)
    → is_empty (b.target.overflow_text b.dropped) ≡ false
    → is_empty b.events && (b.dropped == 0) ≡ false
    → is_empty b.events && is_empty (overflow_suffix b) ≡ false
unfolding is_empty
some_suffix b told h = ground (arith, h, overflow_suffix_told b told)

-- Nothing is left, or the text with the next event too would be too long.
abbrev pub Complete : Limits → List Message → List Message → List PublicEvent → Type 0
Complete l sent notice rest =
    (rest ≡ [])
    ⊎ ((e : PublicEvent) × (es : List PublicEvent) × (longer : Message) × (rest ≡ e ∷ es)
        × Joined (sent ++ (e.text ∷ notice)) longer
        × ((l.max_chars < length longer) ⊎ (l.max_text_bytes < bytes longer)))

without-Sendable :
    (l : Limits) (ts : List Message)
    → within l ts ≡ false
    → (l.max_chars < length (join ts)) ⊎ (l.max_text_bytes < bytes (join ts))
unfolding within
without-Sendable l ts h = elim (Bool-cases (ltb l.max_chars (length (join ts)))) [
  | inl long ↦ inl (ground arith)
  | inr short ↦ inr (ground (arith, h))
]

Stops-Complete :
    (l : Limits) (sent notice : List Message) (rest : List PublicEvent)
    → Stops l sent notice rest
    → Complete l sent notice rest
Stops-Complete l sent notice rest (inl none_) = inl none_
Stops-Complete l sent notice rest (inr (e, es, next, over)) =
    let ts = sent ++ (e.text ∷ notice) in
    inr (e, es, join ts, next, join-Joined ts, without-Sendable l ts over)

-- A batch that is due, is not cancelled, has no send under way and no deferred text, and has events or a
-- loss to report, where its events are short enough and the notice of a loss is not empty and no longer
-- than a text may be: it sends a text now. That is the texts of its first events in their order, then the notice
-- if events were lost, with an empty line between any two, and the whole is no longer than a text may
-- be; the other events stay in the batch in their order. With the first of these the text would be
-- too long.
pub take_batch-Packed :
    (l : Limits) (now : ℕ) (b : Batch)
    → Each (Short l) b.events
    → is_empty (b.target.overflow_text b.dropped) ≡ false
    → Sendable l (b.target.overflow_text b.dropped)
    → b.retry_text ≡ none
    → b.cancelled ≡ false
    → b.sending ≡ false
    → b.due ≤ now
    → is_empty b.events && (b.dropped == 0) ≡ false
    → (packed : List PublicEvent) × (notice : List Message) × (text : Message) × (b.events
        ≡ packed ++ (take_batch l now b).0.events)
      × Notice b notice
      × Joined (texts packed ++ notice) text
      × ((take_batch l now b).1 ≡ some text)
      × Sendable l text
      × Complete l (texts packed) notice (take_batch l now b).0.events
take_batch-Packed l now b short told fits fresh kept idle due some_ =
    let notice = overflow_suffix b in
    let packs =
      take_batch_packs l now b (Short-too_long l b.events short) (suffix-within l b told fits) fresh
        (ground arith) (some_suffix b told some_) in
    (
      packs.0,
      notice,
      join (texts packs.0 ++ notice),
      packs.1,
      overflow_suffix-Notice b told,
      join-Joined (texts packs.0 ++ notice),
      packs.2,
      within-Sendable l (texts packs.0 ++ notice) packs.3,
      Stops-Complete l (texts packs.0) notice (take_batch l now b).0.events packs.4,
    )
