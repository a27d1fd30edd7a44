-- ===== src/Notify.antt =====
-- python/lockbot/backend/app/resource_api/notification_queue.py: the batches of group notifications,
-- one for each bot. Each function is a section of the queue's lock, with one reading of the clock.
use lockbot.Base.{
  ℕ, ◌+◌, ◌-◌, Bool, true, false, ◌&&◌, ◌||◌, not, Option, none, some, List, [], ◌∷◌, ◌++◌, ltb,
  leb, ◌==◌, length, if◌then◌else◌,
}
use lockbot.Policy.{is_empty}
use lockbot.Manager.{is_some}
pub mod Pack
pub mod Packed
pub mod Queue
pub mod Bounds
pub mod Sends
pub mod Capacity

-- A text is its code points; `text.encode()` is UTF-8.
abbrev pub Message : Type 0
Message = List ℕ

unfoldable pub width : ℕ → ℕ
width c = if ltb c 128 then 1 else if ltb c 2048 then 2 else if ltb c 65536 then 3 else 4

unfoldable pub bytes : Message → ℕ
bytes [] = 0
bytes (c ∷ cs) = width c + bytes cs

-- `"\n\n".join(parts)`.
unfoldable pub join : List Message → Message
join [] = []
join (t ∷ []) = t
join (t ∷ u ∷ ts) = t ++ (10 ∷ 10 ∷ join (u ∷ ts))

pub record PublicEvent : Type 0 where
  pub text : Message
  pub is_alias : Bool

pub record Limits : Type 0 where
  pub interval : ℕ
  pub workers : ℕ
  pub max_bots : ℕ
  pub max_events : ℕ
  pub max_bytes : ℕ
  pub max_chars : ℕ
  pub max_text_bytes : ℕ

-- `target.key` is one number, and `overflow_text` the notice of a loss count.
pub record Target : Type 0 where
  pub bot_id : ℕ
  pub generation : ℕ
  pub key : ℕ
  pub overflow_text : ℕ → Message

-- `ref` is the identity of the object. `retry_until` is 0 when nothing is deferred.
pub record Batch : Type 0 where
  pub ref : ℕ
  pub target : Target
  pub due : ℕ
  pub events : List PublicEvent
  pub size : ℕ
  pub dropped : ℕ
  pub sending : Bool
  pub cancelled : Bool
  pub retry_text : Option Message
  pub retry_until : ℕ

unfoldable pub new_batch : ℕ → Target → ℕ → Batch
new_batch ref target now = record {
  ref = ref;
  target = target;
  due = now;
  events = [];
  size = 0;
  dropped = 0;
  sending = false;
  cancelled = false;
  retry_text = none;
  retry_until = 0;
}

-- `batch.events or batch.dropped or batch.retry_text`, for texts that are not empty.
unfoldable pub has_pending : Batch → Bool
has_pending b = not (is_empty b.events) || (ltb 0 b.dropped || is_some b.retry_text)

unfoldable pub drop_event : Batch → Batch
drop_event b = record b { dropped = b.dropped + 1 }

-- `batch.events.remove(alias)` of the first alias, if there is one: its size, and the other events.
unfoldable pub remove_alias : List PublicEvent → Option (ℕ × List PublicEvent)
remove_alias [] = none
remove_alias (e ∷ es) = elim (remove_alias es) [
  | none ↦ if e.is_alias then some (bytes e.text, es) else none
  | some (n, rest) ↦ if e.is_alias then some (bytes e.text, es) else some (n, e ∷ rest)
]

-- `full()`.
unfoldable pub is_full : Limits → ℕ → Batch → Bool
is_full l size b = leb l.max_events (length b.events) || ltb l.max_bytes (b.size + size)

unfoldable pub too_long : Limits → Message → Bool
too_long l t =
    ltb l.max_bytes (bytes t) || (ltb l.max_text_bytes (bytes t) || ltb l.max_chars (length t))

-- Making room: an alias gives way to an event that is none.
unfoldable pub make_room : Limits → PublicEvent → Batch → Batch
make_room l e b =
    if is_full l (bytes e.text) b && not e.is_alias
    then elim (remove_alias b.events) [
      | none ↦ b
      | some (n, rest) ↦ drop_event (record b { events = rest; size = b.size - n })
    ]
    else b

unfoldable pub add_event : Limits → PublicEvent → Batch → Batch
add_event l e b =
    if too_long l e.text || is_full l (bytes e.text) b
    then drop_event b
    else record b { events = b.events ++ e ∷ []; size = b.size + bytes e.text }

-- `_append_locked`.
unfoldable pub append : Limits → PublicEvent → Batch → Batch
append l e b = add_event l e (make_room l e b)

-- `_reserve_locked` on the batch.
unfoldable pub reserve : Limits → ℕ → Batch → Batch
reserve l now b = record b { sending = true; due = now + l.interval }

-- The loop of `_take_locked` over the events: those packed after `parts`, those left, and
-- the size that is left.
unfoldable pub within : Limits → List Message → Bool
within l parts =
    not (ltb l.max_chars (length (join parts)) || ltb l.max_text_bytes (bytes (join parts)))

unfoldable pub pack :
    Limits
    → List Message
    → List Message
    → ℕ
    → List PublicEvent
    → List Message × List PublicEvent × ℕ
pack l suffix parts size [] = (parts, [], size)
pack l suffix parts size (e ∷ es) =
    let rest = pack l suffix (parts ++ e.text ∷ []) (size - bytes e.text) es in
    if within l (parts ++ (e.text ∷ suffix)) then rest else (parts, e ∷ es, size)

-- The loss notice, unless it is the empty text.
unfoldable pub overflow_suffix : Batch → List Message
overflow_suffix b =
    if ltb 0 b.dropped
    then (let t = b.target.overflow_text b.dropped in if is_empty t then [] else t ∷ [])
    else []

-- A deferred text that is too old is given up.
unfoldable pub expire : ℕ → Batch → Batch
expire now b =
    if is_some b.retry_text && leb b.retry_until now
    then record b { retry_text = none; retry_until = 0 }
    else b

unfoldable pub nonempty : List Message → Option Message
nonempty [] = none
nonempty (t ∷ ts) = some (join (t ∷ ts))

unfoldable pub pack_batch : Limits → Batch → Batch × Option Message
pack_batch l b =
    let suffix = overflow_suffix b in
    let (parts, rest, size) = pack l suffix [] b.size b.events in
    (
      record b { events = rest; size = size; dropped = if is_empty suffix then b.dropped else 0 },
      nonempty (parts ++ suffix),
    )

-- The body of the loop of `_take_locked` over the batches: the text to be sent now, if any.
unfoldable pub take_text : Limits → Batch → Option Message → Batch × Option Message
take_text l b (some t) = (record b { retry_text = none }, some t)
take_text l b none = pack_batch l b

unfoldable pub take_batch : Limits → ℕ → Batch → Batch × Option Message
take_batch l now b =
    if b.cancelled || (b.sending || (not (has_pending b) || ltb now b.due))
    then (b, none)
    else (let c = expire now b in take_text l c c.retry_text)
