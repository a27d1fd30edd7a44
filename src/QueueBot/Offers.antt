-- ===== src/QueueBot/Offers.antt =====
-- What the sweep of a queue bot does to each resource, and whom it tells.
use lockbot.Base.{
  ℕ, ◌+◌, ◌<◌, ◌-◌, ◌≡◌, refl, true, false, ◌==◌, Bool-cases, inl, inr, ◌⊎◌, some, List, [], ◌∷◌,
  ◌++◌, arith, leb, sym, elem, ==_iff, elem-add_to_set,
}
use mathlib.Core.Path.{subst₂}
use lockbot.Keys.{Key, key_eq, key_eq_iff}
use lockbot.Users.{UserInfo}
use lockbot.State.{is_idle, Entry, Store, lookup}
use lockbot.State.Laws.{map_entry}
use lockbot.Config.{Config}
use lockbot.Policy.{is_empty}
use lockbot.Sweep.{sweep_entry, finish_entry, alert_users}
use lockbot.QueueBot.Sweep.{
  check_and_notify, sweep_store, queue_cons, queue_entry, entry_turn, queue_turn, notify_first,
  offered, sweep_users, add_named, with_key, time_to_lock,
}
use lockbot.QueueBot.Turns.{TurnOf, queue_turn-TurnOf, entry_scan-good, remove_first}
use lockbot.QueueBot.History.{AllQueued}

lookup-sweep_store :
    (cfg : Config) (now : ℕ) (s : Store) (q : Key)
    → AllQueued now s
    → (lookup q (sweep_store cfg now s).store ≡ map_entry (queue_entry cfg now q) (lookup q s))
      × ((sweep_store cfg now s).failed ≡ false)
unfolding sweep_store lookup queue_cons
lookup-sweep_store cfg now [] q a = (refl, refl)
lookup-sweep_store cfg now ((k, e) ∷ s) q a =
    ground
      (arith, entry_scan-good cfg now k e a.0, lookup-sweep_store cfg now s q a.1, key_eq_iff k q)

-- What a sweep does to an entry: the holders are swept as those of a node; then the queue of an idle
-- entry has its turn, and that of a busy one waits.
pub record Swept (cfg : Config) (now : ℕ) (q : Key) (before after : Entry) : Type 0 where
  pub mode : after.status ≡ (sweep_entry cfg now q before).status
  pub holders : after.current_users ≡ (sweep_entry cfg now q before).current_users
  pub line :
      ((is_idle after.status ≡ true) × TurnOf now before.booking_list after.booking_list)
      ⊎ ((is_idle after.status ≡ false) × (after.booking_list ≡ before.booking_list))

sweep_entry-queue :
    (cfg : Config) (now : ℕ) (q : Key) (e : Entry)
    → (sweep_entry cfg now q e).booking_list ≡ e.booking_list
unfolding sweep_entry finish_entry
sweep_entry-queue cfg now q e = ground arith

queue_entry-Swept :
    (cfg : Config) (now : ℕ) (q : Key) (e : Entry) → Swept cfg now q e (queue_entry cfg now q e)
unfolding queue_entry entry_turn
queue_entry-Swept cfg now q e =
    let same = sweep_entry-queue cfg now q e in
    record {
      mode = refl;
      holders = refl;
      line = elim (Bool-cases (is_idle (sweep_entry cfg now q e).status)) [
        | inl i ↦ inl (i, rw (i, same) (queue_turn-TurnOf now e.booking_list))
        | inr b ↦ inr (b, rw (b, same) refl)
      ];
    }

-- Where the queues are well formed, the sweep of a queue bot does not fail. Every entry is still
-- there: its holders and its status are swept as those of a node; the queue of an entry that is then
-- idle has its turn, and the queue of a busy one stays as it is.
pub sweep-Swept :
    (cfg : Config) (now : ℕ) (s : Store) (q : Key) (e : Entry)
    → AllQueued now s
    → lookup q s ≡ some e
    → ((check_and_notify cfg now s).failed ≡ false)
      × (e' : Entry) × (lookup q (check_and_notify cfg now s).state ≡ some e')
      × Swept cfg now q e e'
unfolding check_and_notify
sweep-Swept cfg now s q e a hit =
    let swept = lookup-sweep_store cfg now s q a in
    rw (swept.1, check_and_notify)
      (refl, queue_entry cfg now q e, rw (swept.0, hit) refl, queue_entry-Swept cfg now q e)

elem-add_named :
    (user : ℕ) (us : List (ℕ × Key)) (acc : List ℕ)
    → elem ◌==◌ user acc ≡ true
    → elem ◌==◌ user (add_named us acc) ≡ true
unfolding add_named
elem-add_named user [] acc h = h
elem-add_named user ((u, k) ∷ us) acc h =
    ground
      (arith, elem-add_to_set ◌==◌ ==_iff user u (add_named us acc), elem-add_named user us acc h)

-- The user is among those named.
abbrev pub IsNamed : ℕ → Key → List (ℕ × Key) → Type 0
IsNamed user q [] = ⊥
IsNamed user q ((u, k) ∷ us) = ((u ≡ user) × (k ≡ q)) ⊎ IsNamed user q us

IsNamed-append-left :
    (user : ℕ) (q : Key) (us vs : List (ℕ × Key)) → IsNamed user q us → IsNamed user q (us ++ vs)
IsNamed-append-left user q [] vs n = absurd n
IsNamed-append-left user q ((u, k) ∷ us) vs (inl h) = inl h
IsNamed-append-left user q ((u, k) ∷ us) vs (inr h) = inr (IsNamed-append-left user q us vs h)

IsNamed-append-right :
    (user : ℕ) (q : Key) (us vs : List (ℕ × Key)) → IsNamed user q vs → IsNamed user q (us ++ vs)
IsNamed-append-right user q [] vs n = n
IsNamed-append-right user q ((u, k) ∷ us) vs n = inr (IsNamed-append-right user q us vs n)

elem-IsNamed :
    (user : ℕ) (q : Key) (us : List (ℕ × Key)) (acc : List ℕ)
    → IsNamed user q us
    → elem ◌==◌ user (add_named us acc) ≡ true
unfolding add_named
elem-IsNamed user q [] acc n = absurd n
elem-IsNamed user q ((u, k) ∷ us) acc (inl h) =
    ground (arith, h.0, ==_iff u user, elem-add_to_set ◌==◌ ==_iff user u (add_named us acc))
elem-IsNamed user q ((u, k) ∷ us) acc (inr h) =
    ground
      (arith, elem-add_to_set ◌==◌ ==_iff user u (add_named us acc), elem-IsNamed user q us acc h)

-- Whoever is first after a turn was told before, in time, or is offered the resource now.
turn-told :
    (now : ℕ) (us : List UserInfo) (v : UserInfo) (vs : List UserInfo)
    → (queue_turn now us).queue ≡ v ∷ vs
    → (v.is_notified ≡ true)
      × (((us ≡ v ∷ vs) × (now < v.start_time + 300))
          ⊎ ((queue_turn now us).offers ≡ v.user_id ∷ []))
unfolding queue_turn notify_first offered
turn-told now [] v vs h = absurd (ground arith)
turn-told now (u ∷ us) v vs h = elim (Bool-cases u.is_notified) [
  | inr new ↦ (ground arith, inr (ground arith))
  | inl told ↦ elim (Bool-cases (leb time_to_lock (now - u.start_time))) [
    | inr open_ ↦ (ground arith, inl (ground arith, ground arith))
    | inl over ↦
        next us (ground (arith, remove_first u u us refl))
          (ground (arith, remove_first u u us refl))
  ]
]
  where
    next :
        (us' : List UserInfo)
        → (queue_turn now (u ∷ us)).queue ≡ (notify_first now (u.user_id ∷ []) us').queue
        → (queue_turn now (u ∷ us)).offers ≡ (notify_first now (u.user_id ∷ []) us').offers
        → (v.is_notified ≡ true)
          × (((u ∷ us ≡ v ∷ vs) × (now < v.start_time + 300))
              ⊎ ((queue_turn now (u ∷ us)).offers ≡ v.user_id ∷ []))
    next [] q o = absurd (ground (arith, h, q))
    next (w ∷ ws) q o = (ground (arith, h, q), inr (ground (arith, h, q, o)))

IsNamed-with_key :
    (user : ℕ) (q k : Key) (us : List ℕ) → k ≡ q → us ≡ user ∷ [] → IsNamed user q (with_key k us)
unfolding with_key
IsNamed-with_key user q k [] p h = absurd (ground arith)
IsNamed-with_key user q k (u ∷ us) p h = inl (ground arith, p)

sweep_store-offers :
    (cfg : Config) (now : ℕ) (s : Store) (q : Key) (e : Entry) (user : ℕ)
    → AllQueued now s
    → lookup q s ≡ some e
    → (entry_turn now (sweep_entry cfg now q e)).offers ≡ user ∷ []
    → IsNamed user q (sweep_store cfg now s).offers
unfolding sweep_store lookup queue_cons
sweep_store-offers cfg now [] q e user a hit o = cc
sweep_store-offers cfg now ((k, c) ∷ s) q e user a hit o =
    rw (entry_scan-good cfg now k c a.0, sweep_store)
      (elim (Bool-cases (key_eq k q)) [
        | inl same ↦
            let k≡q = (key_eq_iff k q).0 same in
            let c≡e : c ≡ e = ground arith in
            IsNamed-append-left user q _ _ (
              IsNamed-with_key user q k _ k≡q (
                subst₂ (λ x y. (entry_turn now (sweep_entry cfg now x y)).offers ≡ user ∷ [])
                  (sym k≡q) (sym c≡e) o))
        | inr other ↦
            IsNamed-append-right user q (with_key k _) _
              (sweep_store-offers cfg now s q e user a.1 (rw other at hit) o)
      ])

IsNamed-nonempty :
    (user : ℕ) (q : Key) (us : List (ℕ × Key)) → IsNamed user q us → is_empty us ≡ false
unfolding is_empty
IsNamed-nonempty user q [] n = absurd n
IsNamed-nonempty user q (u ∷ us) n = refl

-- An offer is told.
offers-sent :
    (cfg : Config) (now : ℕ) (s : Store) (user : ℕ) (q : Key)
    → (sweep_store cfg now s).failed ≡ false
    → IsNamed user q (sweep_store cfg now s).offers
    → ((check_and_notify cfg now s).sent ≡ true)
      × (elem ◌==◌ user (check_and_notify cfg now s).mentioned ≡ true)
unfolding check_and_notify sweep_users
offers-sent cfg now s user q good n =
    let swept = sweep_store cfg now s in
    ground (
      arith,
      IsNamed-nonempty user q swept.offers n,
      elem-add_named user swept.expired _
          (elem-IsNamed user q swept.offers (alert_users swept.alerts) n),
    )

-- After a sweep of well-formed queues, whoever is first in line at an idle resource has been told:
-- before this sweep, where the 300 seconds of the claim window have not passed since, or by the
-- message of this sweep.
pub sweep-tells_first :
    (cfg : Config) (now : ℕ) (s : Store) (q : Key) (e e' : Entry) (v : UserInfo)
    (vs : List UserInfo)
    → AllQueued now s
    → lookup q s ≡ some e
    → lookup q (check_and_notify cfg now s).state ≡ some e'
    → is_idle e'.status ≡ true
    → e'.booking_list ≡ v ∷ vs
    → (v.is_notified ≡ true)
      × (((e.booking_list ≡ v ∷ vs) × (now < v.start_time + 300))
          ⊎ (((check_and_notify cfg now s).sent ≡ true)
              × (elem ◌==◌ v.user_id (check_and_notify cfg now s).mentioned ≡ true)))
unfolding check_and_notify queue_entry entry_turn
sweep-tells_first cfg now s q e e' v vs a hit hit' i first =
    let swept = lookup-sweep_store cfg now s q a in
    let same = sweep_entry-queue cfg now q e in
    let e'≡ : queue_entry cfg now q e ≡ e' = ground (arith, swept.0, swept.1, hit, hit') in
    let idle_ : is_idle (sweep_entry cfg now q e).status ≡ true = ground (arith, e'≡, i) in
    let turned : (queue_turn now e.booking_list).queue ≡ v ∷ vs =
      ground (arith, e'≡, first, same, idle_) in
    let told = turn-told now e.booking_list v vs turned in
    (
      told.0,
      elim told.1 [
        | inl before ↦ inl before
        | inr offered_ ↦
            let offer : (entry_turn now (sweep_entry cfg now q e)).offers ≡ v.user_id ∷ [] =
              ground (arith, same, idle_, offered_) in
            inr (
              offers-sent cfg now s v.user_id q swept.1
                (sweep_store-offers cfg now s q e v.user_id a hit offer))
      ],
    )
