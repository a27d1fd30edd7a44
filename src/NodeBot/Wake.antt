-- ===== src/NodeBot/Wake.antt =====
-- The time that the sweep of a node bot returns: no lease ends before it.
use lockbot.Base.{
  ℕ, ◌+◌, ◌-◌, ◌≤◌, ◌<◌, true, false, ◌≡◌, refl, Option, none, some, List, [], ◌∷◌, arith,
  Bool-cases, Option-cases, inl, inr, ◌==◌, subst,
}
use lockbot.Keys.{Key, key_eq}
use lockbot.Users.{UserInfo, find_user_info}
use lockbot.Users.Laws.{Started, remaining_duration-eq}
use lockbot.State.{Status, idle, exclusive, shared, is_idle, Entry, Store, lookup}
use lockbot.State.Laws.{holding, held_by, lookup_EachEntry}
use lockbot.State.Modes.{Fits}
use lockbot.Config.{Config}
use lockbot.Sweep.{
  check_and_notify, sweep_store, min_next, next_event, next_of_users, next_of_store, at_least_one,
}
use lockbot.Sweep.Users.{is_live}
use lockbot.Sweep.Laws.{AllStarted, sweep_store-modify_each, check_and_notify-EachEntry}
use lockbot.NodeBot.Invariant.{sweep_entry-IsSound}
use lockbot.NodeBot.Expiry.{SweptTo, runs, holding-sweep}
use lockbot.NodeBot.History.{AllSound}

-- There is a wake-up, within so many seconds.
abbrev pub Soon : Option ℕ → ℕ → Type 0
Soon none b = ⊥
Soon (some n) b = n ≤ b

min_next-left : (a c : Option ℕ) (b : ℕ) → Soon a b → Soon (min_next a c) b
unfolding min_next
min_next-left none c b h = absurd h
min_next-left (some n) none b h = h
min_next-left (some n) (some m) b h = ground arith

min_next-right : (a c : Option ℕ) (b : ℕ) → Soon c b → Soon (min_next a c) b
unfolding min_next
min_next-right none c b h = h
min_next-right (some n) none b h = absurd h
min_next-right (some n) (some m) b h = ground arith

at_least_one-Soon : (a : Option ℕ) (b : ℕ) → 1 ≤ b → Soon a b → Soon (at_least_one a) b
unfolding at_least_one
at_least_one-Soon none b p h = absurd h
at_least_one-Soon (some n) b p h = ground arith

next_event-Soon :
    (cfg : Config) (now : ℕ) (u : UserInfo)
    → u.start_time ≤ now
    → is_live now u ≡ true
    → Soon (next_event cfg now u) (u.start_time + u.duration - now)
unfolding next_event
next_event-Soon cfg now u a h =
    rw (remaining_duration-eq now u.start_time u.duration a, next_event) (ground arith)

next_of_users-Soon :
    (cfg : Config) (now : ℕ) (us : List UserInfo) (user : ℕ) (u : UserInfo)
    → find_user_info us user ≡ some u
    → u.start_time ≤ now
    → is_live now u ≡ true
    → Soon (next_of_users cfg now us) (u.start_time + u.duration - now)
unfolding next_of_users find_user_info
next_of_users-Soon cfg now [] user u f a h = cc
next_of_users-Soon cfg now (v ∷ us) user u f a h = elim (Bool-cases (v.user_id == user)) [
  | inl same ↦
      let v≡u : v ≡ u = ground arith in
      subst
        (λ x.
          Soon (min_next (next_event cfg now v) (next_of_users cfg now us))
            (x.start_time + x.duration - now))
        v≡u
        (min_next-left (next_event cfg now v) _ _
          (next_event-Soon cfg now v (ground (arith, v≡u)) (ground (arith, v≡u))))
  | inr other ↦
      min_next-right (next_event cfg now v) _ _
        (next_of_users-Soon cfg now us user u (ground arith) a h)
]

next_of_store-Soon :
    (cfg : Config) (now : ℕ) (s : Store) (q : Key) (e : Entry) (user : ℕ) (u : UserInfo)
    → lookup q s ≡ some e
    → is_idle e.status ≡ false
    → find_user_info e.current_users user ≡ some u
    → u.start_time ≤ now
    → is_live now u ≡ true
    → Soon (next_of_store cfg now s) (u.start_time + u.duration - now)
unfolding next_of_store lookup
next_of_store-Soon cfg now [] q e user u l i f a h = cc
next_of_store-Soon cfg now ((k, c) ∷ s) q e user u l i f a h = elim (Bool-cases (key_eq k q)) [
  | inl same ↦
      let c≡e : c ≡ e = ground arith in
      let busy : is_idle c.status ≡ false = ground (arith, c≡e) in
      rw (busy, next_of_store)
        (min_next-left (next_of_users cfg now c.current_users) _ _
          (next_of_users-Soon cfg now c.current_users user u (ground (arith, c≡e)) a h))
  | inr other ↦
      let rest = next_of_store-Soon cfg now s q e user u (ground arith) i f a h in
      elim (Bool-cases (is_idle c.status)) [
        | inl free ↦ rw (free, next_of_store) rest
        | inr busy ↦
            rw (busy, next_of_store)
              (min_next-right (next_of_users cfg now c.current_users) _ _ rest)
      ]
]

find-Started :
    (now : ℕ) (us : List UserInfo) (user : ℕ) (u : UserInfo)
    → Started now us
    → find_user_info us user ≡ some u
    → u.start_time ≤ now
unfolding find_user_info
find-Started now [] user u a f = cc
find-Started now (v ∷ us) user u a f = ground (arith, find-Started now us user u a.1)

holding-Started :
    (now : ℕ) (s : Store) (user : ℕ) (q : Key)
    → AllStarted now s
    → (u : UserInfo) → holding user q s ≡ some u
    → u.start_time ≤ now
unfolding holding held_by
holding-Started now s user q a u h = elim (Option-cases (lookup q s)) [
  | inl miss ↦ absurd (ground (arith, h, miss))
  | inr (e, hit) ↦
      find-Started now e.current_users user u (lookup_EachEntry _ q s e a hit) (rw hit at h)
]

busy_of_find :
    (st : Status) (us : List UserInfo) (user : ℕ) (u : UserInfo)
    → Fits st us
    → find_user_info us user ≡ some u
    → is_idle st ≡ false
unfolding find_user_info is_idle
busy_of_find idle [] user u f h = cc
busy_of_find idle (v ∷ us) user u f h = absurd f
busy_of_find exclusive us user u f h = refl
busy_of_find shared us user u f h = refl

next-Soon :
    (cfg : Config) (now later : ℕ) (s : Store) (b : ℕ)
    → AllStarted now s
    → 1 ≤ b
    → Soon (next_of_store cfg later (check_and_notify cfg now s).state) b
    → (n : ℕ) × ((check_and_notify cfg now s).next later ≡ some n) × (n ≤ b)
unfolding check_and_notify
next-Soon cfg now later s b a p h =
    let good = (sweep_store-modify_each cfg now s a).1 in
    rw (good, check_and_notify)
      (of_Soon (at_least_one (next_of_store cfg later (sweep_store cfg now s).store)) b
        (at_least_one-Soon _ b p (rw (good, check_and_notify) at h)))
  where
    of_Soon : (o : Option ℕ) (b : ℕ) → Soon o b → (n : ℕ) × (o ≡ some n) × (n ≤ b)
    of_Soon none b h = absurd h
    of_Soon (some n) b h = (n, refl, h)

holding_missing :
    (user : ℕ) (q : Key) (s : Store) (u : UserInfo)
    → lookup q s ≡ none
    → holding user q s ≡ some u
    → ⊥
unfolding holding held_by
holding_missing user q s u miss h = ground arith

holding_found :
    (user : ℕ) (q : Key) (s : Store) (e : Entry)
    → lookup q s ≡ some e
    → holding user q s ≡ find_user_info e.current_users user
unfolding holding held_by
holding_found user q s e hit = rw hit

-- After a sweep of sound nodes, at a time when no lease starts in the future, let the clock be read
-- again, for the wake-up, not earlier than for the sweep. For whoever still holds a node by a lease that
-- has not ended at that second reading, a next sweep is due no later than the end of the lease.
pub sweep-wakes :
    (cfg : Config) (now later : ℕ) (s : Store) (user : ℕ) (q : Key) (u : UserInfo)
    → AllSound s
    → AllStarted now s
    → now ≤ later
    → holding user q (check_and_notify cfg now s).state ≡ some u
    → later < u.start_time + u.duration
    → (n : ℕ) × ((check_and_notify cfg now s).next later ≡ some n)
      × (later + n ≤ u.start_time + u.duration)
sweep-wakes cfg now later s user q u v a after h runs_ =
    let begun =
      swept_start (holding user q s) u
        (subst (λ o. SweptTo now (holding user q s) o) h (holding-sweep cfg now s user q v a))
        (holding-Started now s user q a) in
    let found = next-Soon cfg now later s (u.start_time + u.duration - later) a (ground arith) (
      held-Soon (check_and_notify cfg now s).state
        (check_and_notify-EachEntry _ cfg now (λ k e w. sweep_entry-IsSound cfg now k e w) s v)
        (omega (arith, begun)) (ground arith) h) in
    (found.0, found.1, omega (arith, found.2, runs_))
  where
    swept_start :
        (o : Option UserInfo) (w : UserInfo)
        → SweptTo now o (some w)
        → ((x : UserInfo) → o ≡ some x → x.start_time ≤ now)
        → w.start_time ≤ now
    swept_start _ w (runs x _ l i st d hd so n) b = omega (arith, st, b x refl)

    held-Soon :
        (s' : Store)
        → AllSound s'
        → u.start_time ≤ later
        → is_live later u ≡ true
        → holding user q s' ≡ some u
        → Soon (next_of_store cfg later s') (u.start_time + u.duration - later)
    held-Soon s' v' started live h' = elim (Option-cases (lookup q s')) [
      | inl miss ↦ absurd (holding_missing user q s' u miss h')
      | inr (e, hit) ↦
          let found = holding_found user q s' e hit in
          let at : find_user_info e.current_users user ≡ some u = ground (arith, found, h') in
          next_of_store-Soon cfg later s' q e user u hit
            (busy_of_find e.status e.current_users user u (lookup_EachEntry _ q s' e v' hit).fits
              at)
            at started live
    ]
