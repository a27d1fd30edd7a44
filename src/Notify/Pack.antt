-- ===== src/Notify/Pack.antt =====
-- The text that is sent for a batch.
use lockbot.Base.{
  ℕ, ◌-◌, ◌≤◌, ◌≡◌, ◌⊎◌, ◌∙◌, inl, inr, refl, sym, ap, subst, true, false, ◌&&◌, ◌||◌, not, Option,
  none, some, List, [], ◌∷◌, ◌++◌, ltb, length, arith, Each, if-either, map,
}
use lockbot.Manager.{is_some}
use lockbot.Policy.{is_empty}
use lockbot.Notify.{
  Message, bytes, join, PublicEvent, Limits, Batch, has_pending, too_long, pack, within,
  overflow_suffix, expire, nonempty, pack_batch, take_text, take_batch,
}

abbrev pub texts : List PublicEvent → List Message
texts = map (λ e. e.text)

append_nil : {A : Type 0} (xs : List A) → xs ++ [] ≡ xs
append_nil [] = refl
append_nil (x ∷ xs) = ap (λ l. x ∷ l) (append_nil xs)

append_assoc :
    {A : Type 0} (xs : List A) (y : A) (ys : List A) → (xs ++ y ∷ []) ++ ys ≡ xs ++ y ∷ ys
append_assoc [] y ys = refl
append_assoc (x ∷ xs) y ys = ap (λ l. x ∷ l) (append_assoc xs y ys)

-- The packing ends with the last event, or before one that would no longer fit.
abbrev pub Stops : Limits → List Message → List Message → List PublicEvent → Type 0
Stops l sent suffix rest =
    (rest ≡ [])
    ⊎ ((e : PublicEvent) × (es : List PublicEvent) × (rest ≡ e ∷ es)
        × (within l (sent ++ (e.text ∷ suffix)) ≡ false))

-- The packed events come first, in their order, and what they make fits, unless there are none.
abbrev Packed :
    Limits
    → List Message
    → List Message
    → List PublicEvent
    → List Message × List PublicEvent × ℕ
    → Type 0
Packed l suffix parts es r =
    (packed : List PublicEvent) × (es ≡ packed ++ r.1)
    × (r.0 ≡ parts ++ texts packed)
    × ((packed ≡ []) ⊎ (within l (r.0 ++ suffix) ≡ true))
    × Stops l r.0 suffix r.1

-- As many as fit after parts that already fit.
pack-Packed :
    (l : Limits) (suffix parts : List Message) (size : ℕ) (es : List PublicEvent)
    → Packed l suffix parts es (pack l suffix parts size es)
unfolding pack
pack-Packed l suffix parts size [] = ([], refl, sym (append_nil parts), inl refl, inl refl)
pack-Packed l suffix parts size (e ∷ es) =
    if-either (Packed l suffix parts (e ∷ es)) (within l (parts ++ (e.text ∷ suffix)))
      (λ more.
        let ih = pack-Packed l suffix (parts ++ e.text ∷ []) (size - bytes e.text) es in
        let r = pack l suffix (parts ++ e.text ∷ []) (size - bytes e.text) es in
        let all_of : r.0 ≡ parts ++ texts (e ∷ ih.0) =
          ih.2 ∙ append_assoc parts e.text (texts ih.0) in
        (
          e ∷ ih.0,
          ap (λ xs. e ∷ xs) ih.1,
          all_of,
          elim ih.3 [
            | inr ok ↦ inr ok
            | inl only ↦ inr (
                subst (λ ps. within l (ps ++ suffix) ≡ true) (sym all_of)
                  (subst (λ p. within l ((parts ++ texts (e ∷ p)) ++ suffix) ≡ true) (sym only)
                    (subst (λ ps. within l ps ≡ true) (sym (append_assoc parts e.text suffix))
                      more)))
          ],
          ih.4,
        ))
      (λ enough. ([], refl, sym (append_nil parts), inl refl, inr (e, es, refl, enough)))

nonempty-append :
    (xs ys : List Message)
    → is_empty xs && is_empty ys ≡ false
    → nonempty (xs ++ ys) ≡ some (join (xs ++ ys))
unfolding nonempty is_empty
nonempty-append [] [] h = cc
nonempty-append [] (y ∷ ys) h = refl
nonempty-append (x ∷ xs) ys h = refl

within_alone : (l : Limits) (t : Message) → too_long l t ≡ false → within l (t ∷ []) ≡ true
unfolding within too_long join
within_alone l t h = ground arith

-- The first event is packed if it fits alone beside the notice.
pack_first :
    (l : Limits) (suffix : List Message) (size : ℕ) (e : PublicEvent) (es : List PublicEvent)
    → within l (e.text ∷ suffix) ≡ true
    → is_empty (pack l suffix [] size (e ∷ es)).0 ≡ false
unfolding pack is_empty
pack_first l suffix size e es ok =
    let r = pack l suffix (e.text ∷ []) (size - bytes e.text) es in
    let ih = pack-Packed l suffix (e.text ∷ []) (size - bytes e.text) es in
    rw ok (subst (λ ps. is_empty ps ≡ false) (sym ih.2) refl)

pack_some :
    (l : Limits) (suffix : List Message) (size : ℕ) (es : List PublicEvent)
    → Each (λ e. too_long l e.text ≡ false) es
    → is_empty es && is_empty suffix ≡ false
    → is_empty (pack l suffix [] size es).0 && is_empty suffix ≡ false
unfolding is_empty
pack_some l (t ∷ ts) size es short some_ = ground arith
pack_some l [] size [] short some_ = cc
pack_some l [] size (e ∷ es) short some_ =
    let first = pack_first l [] size e es (within_alone l e.text short.0) in ground (arith, first)

within-suffix :
    (l : Limits) (suffix : List Message)
    → Each (λ t. within l (t ∷ []) ≡ true) suffix
    → length suffix ≤ 1
    → is_empty suffix ≡ false
    → within l suffix ≡ true
unfolding is_empty
within-suffix l [] a one there = cc
within-suffix l (t ∷ []) a one there = a.0
within-suffix l (t ∷ u ∷ ts) a one there = absurd (omega (arith, one))

overflow_suffix-le : (b : Batch) → length (overflow_suffix b) ≤ 1
unfolding overflow_suffix
overflow_suffix-le b = ground arith

pack_batch-Packed :
    (l : Limits) (b : Batch)
    → Each (λ e. too_long l e.text ≡ false) b.events
    → Each (λ t. within l (t ∷ []) ≡ true) (overflow_suffix b)
    → is_empty b.events && is_empty (overflow_suffix b) ≡ false
    → (packed : List PublicEvent) × (b.events ≡ packed ++ (pack_batch l b).0.events)
      × ((pack_batch l b).1 ≡ some (join (texts packed ++ overflow_suffix b)))
      × (within l (texts packed ++ overflow_suffix b) ≡ true)
      × Stops l (texts packed) (overflow_suffix b) (pack_batch l b).0.events
unfolding pack_batch is_empty
pack_batch-Packed l b short notice some_ =
    let suffix = overflow_suffix b in
    let r = pack l suffix [] b.size b.events in
    let p = pack-Packed l suffix [] b.size b.events in
    let some_text = pack_some l suffix b.size b.events short some_ in
    (
      p.0,
      p.1,
      subst (λ ps. nonempty (r.0 ++ suffix) ≡ some (join (ps ++ suffix))) p.2
          (nonempty-append r.0 suffix some_text),
      subst (λ ps. within l (ps ++ suffix) ≡ true) p.2
          (elim p.3 [
            | inr ok ↦ ok
            | inl none_ ↦
                let bare : r.0 ≡ [] = p.2 ∙ ap texts none_ in
                subst (λ ps. within l (ps ++ suffix) ≡ true) (sym bare)
                  (within-suffix l suffix notice (overflow_suffix-le b)
                    (subst (λ ps. is_empty ps && is_empty suffix ≡ false) bare some_text))
          ]),
      subst (λ ps. Stops l ps suffix r.1) p.2 p.4,
    )

some-has_pending :
    (b : Batch) → is_empty b.events && is_empty (overflow_suffix b) ≡ false → has_pending b ≡ true
unfolding has_pending overflow_suffix is_empty
some-has_pending b some_ = ground arith

expire_fresh : (now : ℕ) (b : Batch) → b.retry_text ≡ none → expire now b ≡ b
unfolding expire is_some
expire_fresh now b fresh = ground (arith, fresh)

take_text_fresh :
    (l : Limits) (b c : Batch)
    → b.retry_text ≡ none
    → c ≡ b
    → take_text l c c.retry_text ≡ pack_batch l b
unfolding take_text
take_text_fresh l b c fresh same =
    subst (λ x. take_text l x x.retry_text ≡ pack_batch l b) (sym same) (ap (take_text l b) fresh)

take_batch-pack_batch :
    (l : Limits) (now : ℕ) (b : Batch)
    → b.retry_text ≡ none
    → (b.cancelled || (b.sending || ltb now b.due)) ≡ false
    → is_empty b.events && is_empty (overflow_suffix b) ≡ false
    → take_batch l now b ≡ pack_batch l b
unfolding take_batch
take_batch-pack_batch l now b fresh free some_ =
    if-either (λ r. r ≡ pack_batch l b)
      (b.cancelled || (b.sending || (not (has_pending b) || ltb now b.due)))
      (λ idle. absurd (ground (arith, some-has_pending b some_)))
      (λ due. take_text_fresh l b (expire now b) fresh (expire_fresh now b fresh))

-- A text is sent, packed from the first events, where there is something to send.
pub take_batch_packs :
    (l : Limits) (now : ℕ) (b : Batch)
    → Each (λ e. too_long l e.text ≡ false) b.events
    → Each (λ t. within l (t ∷ []) ≡ true) (overflow_suffix b)
    → b.retry_text ≡ none
    → (b.cancelled || (b.sending || ltb now b.due)) ≡ false
    → is_empty b.events && is_empty (overflow_suffix b) ≡ false
    → (packed : List PublicEvent) × (b.events ≡ packed ++ (take_batch l now b).0.events)
      × ((take_batch l now b).1 ≡ some (join (texts packed ++ overflow_suffix b)))
      × (within l (texts packed ++ overflow_suffix b) ≡ true)
      × Stops l (texts packed) (overflow_suffix b) (take_batch l now b).0.events
take_batch_packs l now b short notice fresh free some_ =
    subst
      (λ (r : Batch × Option Message).
        (packed : List PublicEvent) × (b.events ≡ packed ++ r.0.events)
        × (r.1 ≡ some (join (texts packed ++ overflow_suffix b)))
        × (within l (texts packed ++ overflow_suffix b) ≡ true)
        × Stops l (texts packed) (overflow_suffix b) r.0.events)
      (sym (take_batch-pack_batch l now b fresh free some_))
      (pack_batch-Packed l b short notice some_)
