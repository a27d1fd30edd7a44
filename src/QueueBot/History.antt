-- ===== src/QueueBot/History.antt =====
-- The histories of a queue bot: its commands, the operator's calls and the timer's sweep, in the
-- order of their clocks.
use lockbot.Base.{
  ℕ, ◌≤◌, true, false, ◌≡◌, refl, sym, subst, some, Option, List, [], ◌∷◌, arith, not, any, map,
  Each, Each-mono, all-not-any, Distinct, elem,
}
use lockbot.Keys.{Key, key_eq, key_eq_iff}
use lockbot.Users.{Request, has_user}
use lockbot.State.{Entry, Store, lookup, get_all, modify, modify_all}
use lockbot.State.Laws.{
  EachEntry, modify-EachEntry_at, modify_all-EachEntry, modify_all-EachEntry_at, get_all-all,
  get_all-keys, get_all-Tracks, lookup_EachEntry, lookup-modify,
}
use lockbot.Config.{Config}
use lockbot.Command.{Match}
use lockbot.Command.Laws.{parse_command-Distinct}
use lockbot.NodeBot.{UnlockText, unlock, kickout, clear_entry, opkick_targets}
use lockbot.NodeBot.Cases.{kickout_cases}
use lockbot.NodeBot.History.{opkick_loop-EachEntry, do_opkick-state, unlock-EachEntry}
use lockbot.QueueBot.{LockText, lock, book, lock_entry, book_entry, is_named}
use lockbot.QueueBot.Take.{take, take_loop, take_entry}
use lockbot.QueueBot.Operator.{kicklock, do_kicklock, do_opkick, release_holders}
use lockbot.QueueBot.Sweep.{check_and_notify}
use lockbot.QueueBot.Cases.{lock_cases, book_cases, take_cases, kicklock_cases, do_kicklock_cases}
use lockbot.QueueBot.Displaced.{take_entry-IsQueued, take_entry-displaced}
use lockbot.QueueBot.Turns.{check_and_notify-IsQueued}
use lockbot.QueueBot.Invariant.{
  IsQueued, IsQueued-mono, lock_entry-IsQueued, book_entry-IsQueued, unlock_entry-IsQueued,
  release_entry-IsQueued, kick_entry-IsQueued, clear_entry-IsQueued, release_holders-IsQueued,
}

-- What can happen to a queue bot: who does it, when, and what was matched.
pub data Event : Type 0 where
  locks : Request → ℕ → LockText → Option ℕ → Event
  books : Request → ℕ → Option Match → Option ℕ → Event
  takes : Request → ℕ → Option Match → Event
  unlocks : ℕ → UnlockText → Event
  kickouts kicklocks : ℕ → Option Match → Event
  releases : List Key → Event
  opkicks : ℕ → Option Key → Event
  sweeps : ℕ → Event

unfoldable pub step : Config → Event → Store → Store
step cfg (locks r user text limit) s = (lock cfg r user text limit s).state
step cfg (books r user text limit) s = (book cfg r user text limit s).state
step cfg (takes r user text) s = (take cfg r user text s).state
step cfg (unlocks user text) s = (unlock cfg user text s).state
step cfg (kickouts user text) s = (kickout cfg user text s).state
step cfg (kicklocks user text) s = (kicklock cfg user text s).state
step cfg (releases keys) s = (do_kicklock keys s).state
step cfg (opkicks user key) s = (do_opkick user key s).state
step cfg (sweeps now) s = (check_and_notify cfg now s).state

-- The clock after an event.
unfoldable pub clock : ℕ → Event → ℕ
clock t (locks r user text limit) = r.now
clock t (books r user text limit) = r.now
clock t (takes r user text) = r.now
clock t (unlocks user text) = t
clock t (kickouts user text) = t
clock t (kicklocks user text) = t
clock t (releases keys) = t
clock t (opkicks user key) = t
clock t (sweeps now) = now

-- The clock never goes back.
unfoldable pub Ordered : ℕ → List Event → Type 0
Ordered t [] = Unit {0}
Ordered t (c ∷ cs) = (t ≤ clock t c) × Ordered (clock t c) cs

unfoldable pub last_clock : ℕ → List Event → ℕ
last_clock t [] = t
last_clock t (c ∷ cs) = last_clock (clock t c) cs

unfoldable pub history : Config → List Event → Store → Store
history cfg [] s = s
history cfg (c ∷ cs) s = history cfg cs (step cfg c s)

abbrev pub AllQueued : ℕ → Store → Type 0
AllQueued now = EachEntry (λ k e. IsQueued now e)

AllQueued-mono : (now later : ℕ) (s : Store) → now ≤ later → AllQueued now s → AllQueued later s
AllQueued-mono now later s h a = Each-mono _ _ (λ p v. IsQueued-mono now later p.1 h v) s a

-- The entries yet to take: each as it stands in the store, and not held by the user.
abbrev pub Ready : ℕ → Store → Key × Entry → Type 0
Ready user s p = (lookup p.0 s ≡ some p.1) × (has_user p.1.current_users user ≡ false)

Ready-modify :
    (f : Key → Entry → Entry) (user : ℕ) (k : Key) (s : Store) (es : List (Key × Entry))
    → elem key_eq k (map (λ p. p.0) es) ≡ false
    → Each (Ready user s) es
    → Each (Ready user (modify f k s)) es
unfolding elem
Ready-modify f user k s [] d a = tt
Ready-modify f user k s ((j, e) ∷ es) d a = (
  ground (arith, lookup-modify f k j s, key_eq_iff k j, key_eq_iff j k),
  Ready-modify f user k s es (ground arith) a.1,
)

-- A take goes through all its entries: none of them stops it.
pub take_loop-AllQueued :
    (r : Request) (user duration : ℕ) (es : List (Key × Entry)) (notified : List ℕ) (s : Store)
    → Distinct key_eq (map (λ p. p.0) es)
    → Each (Ready user s) es
    → AllQueued r.now s
    → AllQueued r.now (take_loop r user duration es notified s).state
      × ((take_loop r user duration es notified s).saved ≡ true)
      × ((take_loop r user duration es notified s).state
          ≡ modify_all (take_entry r user duration) (map (λ p. p.0) es) s)
unfolding take_loop modify_all
take_loop-AllQueued r user duration [] notified s d ready a = (a, refl, refl)
take_loop-AllQueued r user duration ((k, e) ∷ es) notified s d ready a =
    let f = take_entry r user duration in
    let started = (lookup_EachEntry (λ j x. IsQueued r.now x) k s e a ready.0.0).started in
    let kept = (take_entry-displaced r user duration k e started ready.0.1).0 in
    let after =
      modify-EachEntry_at (λ j x. IsQueued r.now x) f k s a
        λ x at v. take_entry-IsQueued r user duration k x (ground (arith, ready.0)) v in
    rw (kept, take_loop)
      (take_loop-AllQueued r user duration es _ (modify f k s) d.1
        (Ready-modify f user k s es d.0 ready.1) after)

-- What `get_all` gives is ready for a take, once no entry names the user as a holder.
pub Ready-get_all :
    (user : ℕ) (s : Store) (es : List (Key × Entry))
    → Each (λ p. lookup p.0 s ≡ some p.1) es
    → not (any (λ p. has_user p.1.current_users user) es) ≡ true
    → Each (Ready user s) es
Ready-get_all user s [] t h = tt
Ready-get_all user s ((k, e) ∷ es) t h =
    ((t.0, ground arith), Ready-get_all user s es t.1 (ground arith))

pub not_named :
    (user : ℕ) (keys : List Key) (s : Store) (es : List (Key × Entry))
    → get_all keys s ≡ some es
    → not (any (λ p. is_named user p.1) es) ≡ true
    → (q : Key) (e : Entry) → elem key_eq q keys ≡ true
    → lookup q s ≡ some e
    → is_named user e ≡ false
not_named user keys s es g i q e in_ at =
    let found = get_all-all (λ p. not (is_named user p.1)) keys s es g (all-not-any _ es i) q in_ in
    ground (arith, found.2, found.1)

-- No event of an ordered history breaks the queues, nor the holders.
step-AllQueued :
    (cfg : Config) (t : ℕ) (c : Event) (s : Store)
    → t ≤ clock t c
    → AllQueued t s
    → AllQueued (clock t c) (step cfg c s)
unfolding step clock do_opkick
step-AllQueued cfg t (locks r user text limit) s h a =
    let b = AllQueued-mono t r.now s h a in
    lock_cases (λ o. AllQueued r.now o.state) cfg r user s (λ x. b) text limit
      λ keys d es g.
        modify_all-EachEntry _ (lock_entry r user text.has_duration d)
          (λ k e v. lock_entry-IsQueued r user text.has_duration d k e v) keys s b
step-AllQueued cfg t (books r user text limit) s h a =
    let b = AllQueued-mono t r.now s h a in
    book_cases (λ o. AllQueued r.now o.state) cfg r user s (λ x. b) text limit
      λ keys d es p g i j.
        modify_all-EachEntry_at _ (book_entry r user d) keys s
          (parse_command-Distinct cfg user true text p) b
          λ q e in_ at v.
            book_entry-IsQueued r user d q e (not_named user keys s es g i q e in_ at) v
step-AllQueued cfg t (takes r user text) s h a =
    let b = AllQueued-mono t r.now s h a in
    take_cases (λ o. AllQueued r.now o.state) cfg r user s (λ x. b) text
      λ keys d es p g i.
        (take_loop-AllQueued r user d es (user ∷ []) s
          (subst (Distinct key_eq) (sym (get_all-keys keys s es g))
            (parse_command-Distinct cfg user true text p))
          (Ready-get_all user s es (get_all-Tracks keys s es g) i) b).0
step-AllQueued cfg t (unlocks user text) s h a =
    unlock-EachEntry _ cfg user text s (λ k e v. release_entry-IsQueued t user k e v)
      (λ k e v. unlock_entry-IsQueued t user k e v) a
step-AllQueued cfg t (kickouts user text) s h a =
    kickout_cases (λ o. AllQueued t o.state) cfg user text s (λ x. a)
      λ keys d es _ _.
        modify_all-EachEntry _ clear_entry (λ k e v. clear_entry-IsQueued t k e) keys s a
step-AllQueued cfg t (kicklocks user text) s h a =
    kicklock_cases (λ o. AllQueued t o.state) s (λ x. a) cfg user text
      λ keys d es _ _.
        modify_all-EachEntry _ release_holders (λ k e v. release_holders-IsQueued t k e v) keys s a
step-AllQueued cfg t (releases keys) s h a =
    do_kicklock_cases (λ o. AllQueued t o.state) s (λ x. a) keys
      λ es _.
        modify_all-EachEntry _ release_holders (λ k e v. release_holders-IsQueued t k e v) keys s a
step-AllQueued cfg t (opkicks user key) s h a = rw (do_opkick-state user key s) (
    opkick_loop-EachEntry _ user (λ k e v. kick_entry-IsQueued t user k e v)
      (opkick_targets user key s) (s, []) a)
step-AllQueued cfg t (sweeps now) s h a =
    (check_and_notify-IsQueued cfg now s (AllQueued-mono t now s h a)).0

-- Whatever happens to a queue bot in the order of its clocks, refused or not: if at the start every
-- entry is well formed (the status fits the holders; nobody holds twice, waits twice, or both holds
-- and waits; no lease starts in the future), then so is every entry at the last clock.
pub history-AllQueued :
    (cfg : Config) (t : ℕ) (cs : List Event) (s : Store)
    → Ordered t cs
    → AllQueued t s
    → AllQueued (last_clock t cs) (history cfg cs s)
unfolding history last_clock Ordered
history-AllQueued cfg t [] s o a = a
history-AllQueued cfg t (c ∷ cs) s o a =
    history-AllQueued cfg (clock t c) cs (step cfg c s) o.1 (step-AllQueued cfg t c s o.0 a)
