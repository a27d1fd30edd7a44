-- ===== src/QueueBot/Handover.antt =====
-- What a take leaves: the taker holds, and whoever held goes to the front of the line.
use lockbot.Base.{
  ℕ, ◌+◌, ◌≤◌, ◌<◌, ◌≡◌, ◌≢◌, ◌==◌, refl, sym, subst, true, false, not, Bool-cases, inl, inr,
  Option, some, List, [], ◌∷◌, ◌++◌, arith, any, elem, all-not-any, Distinct,
}
use lockbot.Keys.{Key, key_eq}
use lockbot.Users.{UserInfo, Request, has_user, create_user_info, remove_user_info, find_user_info}
use lockbot.Users.Laws.{Started, DistinctUsers}
use lockbot.State.{exclusive, Entry, Store, lookup, get_all}
use lockbot.State.Laws.{
  get_all-keys, get_all-Tracks, get_all-all, lookup_EachEntry, Changes, modify_all-Changes,
}
use lockbot.Config.{Config}
use lockbot.Reply.{pass}
use lockbot.Command.{Match, parse_command}
use lockbot.Command.Laws.{parse_command-Distinct}
use lockbot.Sweep.Users.{is_live}
use lockbot.QueueBot.Take.{take, take_entry, unnotify, waiting}
use lockbot.QueueBot.Displaced.{displaced, take_entry-displaced}
use lockbot.QueueBot.Cases.{take_cases}
use lockbot.QueueBot.History.{AllQueued, take_loop-AllQueued, Ready-get_all}

-- The leases of the displaced holders turned into bookings: an ended lease gives none, a live one a
-- booking of the same user that starts now, ends with the lease, and has not been offered.
pub data Handed (now : ℕ) : List UserInfo → List UserInfo → Type 0 where
  nobody : Handed now [] []
  ended :
      (u : UserInfo) (us vs : List UserInfo)
      → u.start_time + u.duration ≤ now
      → Handed now us vs
      → Handed now (u ∷ us) vs
  waits :
      (u v : UserInfo) (us vs : List UserInfo)
      → now < u.start_time + u.duration
      → v.user_id ≡ u.user_id
      → v.start_time ≡ now
      → now + v.duration ≡ u.start_time + u.duration
      → v.is_notified ≡ false
      → Handed now us vs
      → Handed now (u ∷ us) (v ∷ vs)

displaced-Handed :
    (now : ℕ) (us : List UserInfo) → Started now us → Handed now us (displaced now us)
unfolding displaced waiting
displaced-Handed now [] a = nobody
displaced-Handed now (u ∷ us) a = elim (Bool-cases (is_live now u)) [
  | inl live ↦
      rw (live, displaced)
        (waits u _ us _ (ground arith) refl refl (ground arith) refl (displaced-Handed now us a.1))
  | inr over ↦ rw (over, displaced) (ended u us _ (ground arith) (displaced-Handed now us a.1))
]

unnotify-append : (us vs : List UserInfo) → unnotify (us ++ vs) ≡ unnotify us ++ unnotify vs
unfolding unnotify
unnotify-append [] vs = refl
unnotify-append (u ∷ us) vs = ground (arith, unnotify-append us vs)

unnotify-displaced : (now : ℕ) (us : List UserInfo) → unnotify (displaced now us) ≡ displaced now us
unfolding unnotify displaced waiting
unnotify-displaced now [] = refl
unnotify-displaced now (u ∷ us) = ground (arith, unnotify-displaced now us)

-- Those who go on waiting: the line without the user, in its order, each booking with its user, start,
-- duration, holding and source as before, but with no offer.
pub data Waits (user : ℕ) : List UserInfo → List UserInfo → Type 0 where
  nobody_waits : Waits user [] []
  leaves :
      (u : UserInfo) (us vs : List UserInfo)
      → u.user_id ≡ user
      → Waits user us vs
      → Waits user (u ∷ us) vs
  keeps :
      (u v : UserInfo) (us vs : List UserInfo)
      → v.user_id ≢ user
      → v.user_id ≡ u.user_id
      → v.start_time ≡ u.start_time
      → v.duration ≡ u.duration
      → v.holding_id ≡ u.holding_id
      → v.source ≡ u.source
      → v.is_notified ≡ false
      → Waits user us vs
      → Waits user (u ∷ us) (v ∷ vs)

unnotify-Waits :
    (user : ℕ) (us : List UserInfo) → has_user us user ≡ false → Waits user us (unnotify us)
unfolding unnotify has_user find_user_info
unnotify-Waits user [] h = nobody_waits
unnotify-Waits user (u ∷ us) h =
    keeps u _ us _ (ground (arith, h)) refl refl refl refl refl refl
      (unnotify-Waits user us (ground (arith, h)))

unnotify-remove-Waits :
    (user : ℕ) (us : List UserInfo)
    → DistinctUsers us
    → Waits user us (unnotify (remove_user_info us user))
unfolding unnotify remove_user_info
unnotify-remove-Waits user [] d = nobody_waits
unnotify-remove-Waits user (u ∷ us) d = elim (Bool-cases (u.user_id == user)) [
  | inl same ↦
      let is_user : u.user_id ≡ user = ground arith in
      rw (same, remove_user_info)
        (leaves u us _ is_user
          (unnotify-Waits user us (subst (λ x. has_user us x ≡ false) is_user d.0)))
  | inr other ↦
      rw (other, remove_user_info)
        (keeps u _ us _ (ground arith) refl refl refl refl refl refl
          (unnotify-remove-Waits user us d.1))
]

-- An entry after a take: the taker alone holds it for the time asked, and the line is the displaced
-- holders followed by those who waited, less the taker, with no offer.
pub record Taken (now user duration : ℕ) (before after : Entry) : Type 0 where
  pub holder : UserInfo
  pub is_user : holder.user_id ≡ user
  pub starts : holder.start_time ≡ now
  pub lasts : holder.duration ≡ duration
  pub alone : after.current_users ≡ holder ∷ []
  pub mode : after.status ≡ exclusive
  pub front : List UserInfo
  pub handed : Handed now before.current_users front
  pub rest : List UserInfo
  pub waits : Waits user before.booking_list rest
  pub queue : after.booking_list ≡ front ++ rest

take_entry-Taken :
    (r : Request) (user duration : ℕ) (k : Key) (e : Entry)
    → Started r.now e.current_users
    → has_user e.current_users user ≡ false
    → DistinctUsers e.booking_list
    → Taken r.now user duration e (take_entry r user duration k e)
unfolding create_user_info
take_entry-Taken r user duration k e a h d =
    let front = displaced r.now e.current_users in
    let rest = remove_user_info e.booking_list user in
    rw ((take_entry-displaced r user duration k e a h).1) (record {
      holder = create_user_info r k user duration;
      is_user = refl;
      starts = refl;
      lasts = refl;
      alone = refl;
      mode = refl;
      front = front;
      handed = displaced-Handed r.now e.current_users a;
      rest = unnotify rest;
      waits = unnotify-remove-Waits user e.booking_list d;
      queue = ground (arith, unnotify-append front rest, unnotify-displaced r.now e.current_users);
    })

unheld :
    (user : ℕ) (keys : List Key) (s : Store) (es : List (Key × Entry))
    → get_all keys s ≡ some es
    → not (any (λ p. has_user p.1.current_users user) es) ≡ true
    → (q : Key) → elem key_eq q keys ≡ true
    → (e : Entry) × (lookup q s ≡ some e) × (has_user e.current_users user ≡ false)
unheld user keys s es g i q in_ =
    let at =
      get_all-all (λ p. not (has_user p.1.current_users user)) keys s es g (all-not-any _ es i) q
        in_ in
    (at.0, at.1, ground (arith, at.2))

-- A take that is committed has parsed. At each node that it names the user did not hold, and now
-- holds alone from now on for the duration; the displaced holders whose leases still ran lead the
-- line, with the rest of their time; those who waited follow in their order, with no standing offer.
-- The other nodes are as they were. This holds where the queues are well formed.
pub take-Taken :
    (cfg : Config) (r : Request) (user : ℕ) (text : Option Match) (s : Store) (q : Key)
    → AllQueued r.now s
    → (take cfg r user text s).saved ≡ true
    → (keys : List Key) × (duration : ℕ) × (parse_command cfg user true text
        ≡ pass (keys, duration))
      × Changes (Taken r.now user duration) keys q s (take cfg r user text s).state
take-Taken cfg r user text s q a =
    take_cases
      (λ o.
        o.saved ≡ true
        → (keys : List Key) × (duration : ℕ) × (parse_command cfg user true text
            ≡ pass (keys, duration))
          × Changes (Taken r.now user duration) keys q s o.state)
      cfg r user s (λ x h. cc) text
      λ keys d es p g i _.
        let distinct = parse_command-Distinct cfg user true text p in
        let ready = Ready-get_all user s es (get_all-Tracks keys s es g) i in
        let listed = get_all-keys keys s es g in
        let done =
          (take_loop-AllQueued r user d es (user ∷ []) s
            (subst (Distinct key_eq) (sym listed) distinct) ready a).2 in
        (
          keys,
          d,
          p,
          rw (done, listed)
              (modify_all-Changes (Taken r.now user d) (take_entry r user d) keys q s distinct
                λ in_.
                  let at = unheld user keys s es g i q in_ in
                  let v = lookup_EachEntry _ q s at.0 a at.1 in
                  (at.0, at.1, take_entry-Taken r user d q at.0 v.started at.2 v.in_line)),
        )
