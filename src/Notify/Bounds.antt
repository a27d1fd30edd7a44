-- ===== src/Notify/Bounds.antt =====
-- How much a batch holds.
use lockbot.Base.{
  ℕ, ◌+◌, ◌-◌, ◌≤◌, ◌≡◌, refl, subst, false, ◌&&◌, ◌||◌, not, Option, none, some, List, [], ◌∷◌,
  ◌++◌, length, arith, Each, if-either, elim-either, length-append,
}
use lockbot.Notify.{
  Message, bytes, PublicEvent, Limits, Batch, drop_event, remove_alias, is_full, too_long,
  make_room, add_event, append, pack, within, overflow_suffix, expire, pack_batch, take_text,
  take_batch,
}
use lockbot.Notify.Queue.{
  Delivery, deferred, settled, unknown, deliver, defer_batch, settle_batch, finish_batch,
}

unfoldable pub total : List PublicEvent → ℕ
total [] = 0
total (e ∷ es) = bytes e.text + total es

-- The pending events are few and short, and `size` is that of their texts.
abbrev pub WithinLimits : Limits → ℕ → List PublicEvent → Type 0
WithinLimits l size es =
    (size ≡ total es)
    × (length es ≤ l.max_events)
    × (size ≤ l.max_bytes)
    × Each (λ e. too_long l e.text ≡ false) es

abbrev pub BatchSound : Limits → Batch → Type 0
BatchSound l b = WithinLimits l b.size b.events

Each-append {ℓ κ} :
    {A : Type ℓ} (P : A → Type κ) (xs : List A) (y : A) → Each P xs → P y → Each P (xs ++ y ∷ [])
Each-append P [] y a h = (h, tt)
Each-append P (x ∷ xs) y a h = (a.0, Each-append P xs y a.1 h)

total-append :
    (es : List PublicEvent) (e : PublicEvent) → total (es ++ e ∷ []) ≡ total es + bytes e.text
unfolding total
total-append [] e = omega arith
total-append (x ∷ es) e = omega (arith, total-append es e)

module _ (l : Limits) where
  abbrev Removed : List PublicEvent → Option (ℕ × List PublicEvent) → Type 0
  Removed es none = Unit
  Removed es (some (n, rest)) =
      (total es ≡ n + total rest)
      × (length es ≡ length rest + 1)
      × Each (λ e. too_long l e.text ≡ false) rest

  remove_alias-Removed :
      (es : List PublicEvent)
      → Each (λ e. too_long l e.text ≡ false) es
      → Removed es (remove_alias es)
  unfolding remove_alias total
  remove_alias-Removed [] a = tt
  remove_alias-Removed (e ∷ es) a =
      let P = Removed (e ∷ es) in
      elim-either P (remove_alias es)
        (λ never. if-either P e.is_alias (λ al. (refl, omega arith, a.1)) (λ other. tt))
        (λ r found.
          if-either P e.is_alias (λ al. (refl, omega arith, a.1))
            (λ other.
              let ih = subst (Removed es) found (remove_alias-Removed es a.1) in
              (omega (arith, ih.0), omega (arith, ih.1), (a.0, ih.2))))

  make_room-Sound : (e : PublicEvent) (b : Batch) → BatchSound l b → BatchSound l (make_room l e b)
  unfolding make_room drop_event
  make_room-Sound e b s =
      if-either (BatchSound l) (is_full l (bytes e.text) b && not e.is_alias)
        (λ full.
          elim-either (BatchSound l) (remove_alias b.events) (λ none_. s)
            (λ r found.
              let ok = subst (Removed b.events) found (remove_alias-Removed b.events s.3) in
              (omega (arith, s.0, ok.0), omega (arith, s.1, ok.1), omega (arith, s.2), ok.2)))
        (λ room. s)

  add_event-Sound : (e : PublicEvent) (b : Batch) → BatchSound l b → BatchSound l (add_event l e b)
  unfolding add_event drop_event is_full
  add_event-Sound e b s =
      if-either (BatchSound l) (too_long l e.text || is_full l (bytes e.text) b) (λ full. s)
        (λ room. (
          omega (arith, total-append b.events e, s.0),
          ground (arith, length-append b.events (e ∷ []), room),
          ground (arith, room),
          Each-append (λ x. too_long l x.text ≡ false) b.events e s.3 (ground (arith, room)),
        ))

  pub append-Sound : (e : PublicEvent) (b : Batch) → BatchSound l b → BatchSound l (append l e b)
  unfolding append
  append-Sound e b s = add_event-Sound e (make_room l e b) (make_room-Sound e b s)

  pack-Within :
      (suffix parts : List Message) (size : ℕ) (es : List PublicEvent)
      → WithinLimits l size es
      → WithinLimits l (pack l suffix parts size es).2 (pack l suffix parts size es).1
  unfolding pack total
  pack-Within suffix parts size [] s = s
  pack-Within suffix parts size (e ∷ es) s =
      if-either (λ (r : List Message × List PublicEvent × ℕ). WithinLimits l r.2 r.1)
        (within l (parts ++ (e.text ∷ suffix)))
        (λ more.
          pack-Within suffix (parts ++ e.text ∷ []) (size - bytes e.text) es
            (omega (arith, s.0), omega (arith, s.1), omega (arith, s.2), s.3.1))
        (λ enough. s)

  take_text-Sound :
      (b : Batch) (o : Option Message) → BatchSound l b → BatchSound l (take_text l b o).0
  unfolding take_text pack_batch
  take_text-Sound b none s = pack-Within (overflow_suffix b) [] b.size b.events s
  take_text-Sound b (some t) s = s

  expire-Sound : (now : ℕ) (b : Batch) → BatchSound l b → BatchSound l (expire now b)
  unfolding expire
  expire-Sound now b s = if-either (BatchSound l) _ (λ old. s) (λ young. s)

  pub take_batch-Sound :
      (now : ℕ) (b : Batch) → BatchSound l b → BatchSound l (take_batch l now b).0
  unfolding take_batch
  take_batch-Sound now b s =
      if-either (λ (r : Batch × Option Message). BatchSound l r.0) _ (λ idle. s)
        (λ due. take_text-Sound (expire now b) (expire now b).retry_text (expire-Sound now b s))

  pub finish_batch-Sound :
      (now : ℕ) (outcome : Delivery) (text : Message) (b : Batch)
      → BatchSound l b
      → BatchSound l (finish_batch (deliver now outcome text b))
  unfolding finish_batch deliver defer_batch settle_batch
  finish_batch-Sound now deferred text b s =
      if-either (λ c. BatchSound l (finish_batch c)) b.cancelled (λ gone. s) (λ here. s)
  finish_batch-Sound now settled text b s = s
  finish_batch-Sound now unknown text b s = s
