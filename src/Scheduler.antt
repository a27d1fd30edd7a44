-- ===== src/Scheduler.antt =====
-- python/lockbot/core/scheduler.py: one thread and a heap of due times for the sweeps of all bots.
-- Each function is what one holder of the scheduler's lock does, or a sequence of such sections. Bots,
-- instances and callbacks are numbers; times are whole seconds.
use lockbot.Base.{
  ℕ, ◌+◌, ◌-◌, Bool, true, false, ◌&&◌, ◌||◌, not, Option, none, some, List, [], ◌∷◌, ltb, leb,
  ◌==◌, if◌then◌else◌,
}
pub mod World
pub mod Coverage

-- An entry of the heap: (fire_at, generation, bot_id).
pub record Timer : Type 0 where
  pub fire_at : ℕ
  pub gen : ℕ
  pub bot_id : ℕ

-- The dictionaries, as functions: a missing generation or count is 0, as `get(bot_id, 0)` reads it.
pub record Scheduler : Type 0 where
  pub instances : ℕ → Option ℕ
  pub heap : List Timer
  pub gens : ℕ → ℕ
  pub failure_counts : ℕ → ℕ
  pub callbacks : ℕ → Option ℕ
  pub admissions : ℕ → Option ℕ
  pub mgr_gens : ℕ → ℕ

-- `d[k] = v`.
unfoldable pub put {ℓ} : {A : Type ℓ} → (ℕ → A) → ℕ → A → ℕ → A
put d k v j = if k == j then v else d j

-- The order of tuples, and `heappush` on the sorted entries: `heap[0]` is the least one.
unfoldable pub earlier : Timer → Timer → Bool
earlier a b =
    ltb a.fire_at b.fire_at
    || (a.fire_at == b.fire_at && (ltb a.gen b.gen || (a.gen == b.gen && leb a.bot_id b.bot_id)))

unfoldable pub push : Timer → List Timer → List Timer
push t [] = t ∷ []
push t (x ∷ xs) = if earlier t x then t ∷ x ∷ xs else x ∷ push t xs

unfoldable pub schedule : ℕ → ℕ → Scheduler → Scheduler
schedule at bot s = record s {
  heap = push (record { fire_at = at; gen = s.gens bot; bot_id = bot }) s.heap;
}

-- A callback or admission that is not given leaves the old one.
unfoldable pub put_given : (ℕ → Option ℕ) → ℕ → Option ℕ → ℕ → Option ℕ
put_given d k none = d
put_given d k (some v) = put d k (some v)

unfoldable pub add : ℕ → ℕ → ℕ → ℕ → Option ℕ → Option ℕ → ℕ → Scheduler → Scheduler
add now bot instance delay callback admission generation s =
    if ltb generation (s.mgr_gens bot)
    then s
    else schedule (now + delay) bot (record s {
      mgr_gens = put s.mgr_gens bot generation;
      instances = put s.instances bot (some instance);
      failure_counts = put s.failure_counts bot 0;
      callbacks = put_given s.callbacks bot callback;
      admissions = put_given s.admissions bot admission;
    })

-- `expected is not None and mgr_gens.get(bot_id, 0) != expected`.
unfoldable pub is_stale : Option ℕ → ℕ → Bool
is_stale none current = false
is_stale (some expected) current = not (current == expected)

unfoldable pub remove : Option ℕ → ℕ → Scheduler → Scheduler
remove expected bot s = if is_stale expected (s.mgr_gens bot) then s else record s {
  gens = put s.gens bot (s.gens bot + 1);
  instances = put s.instances bot none;
  failure_counts = put s.failure_counts bot 0;
  callbacks = put s.callbacks bot none;
  admissions = put s.admissions bot none;
}

unfoldable pub reschedule_soon : ℕ → ℕ → Scheduler → Scheduler
reschedule_soon now bot s = elim (s.instances bot) [ none ↦ s | some i ↦ schedule (now + 1) bot s ]

-- The entry is of the bot's present generation.
unfoldable pub is_current : Scheduler → Timer → Bool
is_current s t = t.gen == s.gens t.bot_id

-- `_next_sleep`: stale entries at the top are dropped; then the time to the first, or 60 seconds.
unfoldable pub drop_stale : Scheduler → List Timer → List Timer
drop_stale s [] = []
drop_stale s (t ∷ ts) = let rest = drop_stale s ts in if is_current s t then t ∷ ts else rest

unfoldable pub sleep_until : ℕ → List Timer → ℕ
sleep_until now [] = 60
sleep_until now (t ∷ ts) = t.fire_at - now

unfoldable pub next_sleep : ℕ → Scheduler → Scheduler × ℕ
next_sleep now s =
    let heap = drop_stale s s.heap in (record s { heap = heap }, sleep_until now heap)

-- An item of `due`: what was registered when its entry was popped.
pub record Item : Type 0 where
  pub bot_id : ℕ
  pub gen : ℕ
  pub mgr_gen : ℕ
  pub instance : Option ℕ

unfoldable pub item_of : Scheduler → Timer → Item
item_of s t = record {
  bot_id = t.bot_id;
  gen = t.gen;
  mgr_gen = s.mgr_gens t.bot_id;
  instance = s.instances t.bot_id;
}

-- The first section of `_fire_due`: the heap that is left, and the due items.
unfoldable pub pop_due : Scheduler → ℕ → List Timer → List Timer × List Item
pop_due s now [] = ([], [])
pop_due s now (t ∷ ts) =
    let (rest, due) = pop_due s now ts in
    if leb t.fire_at now
    then (rest, if is_current s t then item_of s t ∷ due else due)
    else (t ∷ ts, [])

-- How the sweep of an item goes: its return value, a refused admission, or an exception.
pub data Check : Type 0 where
  checked : Option ℕ → Check
  refused failed : Check

unfoldable pub same_instance : Option ℕ → Option ℕ → Bool
same_instance none none = true
same_instance none (some b) = false
same_instance (some a) none = false
same_instance (some a) (some b) = a == b

-- `_run_check`: nothing runs without an admission or for a replaced instance; else what the lease and
-- the bot's sweep give, which enters as `sweep`.
unfoldable pub run_check : Scheduler → Item → Check → Check
run_check s item sweep = elim (s.admissions item.bot_id) [
  | none ↦ refused
  | some a ↦ if same_instance (s.instances item.bot_id) item.instance then sweep else refused
]

unfoldable pub delay_of : Option ℕ → ℕ
delay_of none = 60
delay_of (some n) = if leb 1 n then n else 1

-- The rest of the loop's body when the bot's generation is still that of the item.
unfoldable pub settle_item : ℕ → Item → Check → Scheduler → Scheduler
settle_item now item (checked next) s =
    schedule (now + delay_of next) item.bot_id
      (record s { failure_counts = put s.failure_counts item.bot_id 0 })
settle_item now item refused s = schedule (now + 60) item.bot_id s
settle_item now item failed s =
    let failures = s.failure_counts item.bot_id + 1 in
    let counted : Scheduler = record s {
      failure_counts = put s.failure_counts item.bot_id failures;
    } in
    if leb 5 failures
    then remove (some item.mgr_gen) item.bot_id counted
    else schedule (now + 30) item.bot_id counted

-- The end of the loop's body for one item, once its sweep has gone one way or another; the sections
-- that follow a sweep are taken as one. An item of an older generation changes nothing.
unfoldable pub finish : ℕ → Item → Check → Scheduler → Scheduler
finish now item outcome s =
    if s.gens item.bot_id == item.gen then settle_item now item outcome s else s
