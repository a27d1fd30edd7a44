-- ===== src/NodeBot/Locks.antt =====
-- What a lock gives, when it is refused, and how long it lasts.
use lockbot.Base.{
  ℕ, ◌+◌, ◌≤◌, true, false, ◌≡◌, ◌≢◌, refl, Option, none, some, List, [], ◌∷◌, elem, arith,
  Option-cases, inl, inr, Each, pos_part, subst, sym,
}
use lockbot.Keys.{Key, key_eq}
use lockbot.Users.{
  UserInfo, Request, find_user_info, has_user, create_user_info, remaining_duration,
}
use lockbot.Users.Laws.{find_user_info-user}
use lockbot.State.{Status, idle, exclusive, shared, is_idle, is_exclusive, Entry, Store, lookup}
use lockbot.State.Laws.{
  lookup-modify_all, lookup_EachEntry, get_all-all, get_all-Each, Changes, modify_all-Changes,
}
use lockbot.State.Modes.{Fits}
use lockbot.Config.{Config}
use lockbot.Reply.{pass, Message, lock_max_duration_exceeded}
use lockbot.Command.{
  Match, parse_command, is_limited, check_limits, check_durations, check_entry_duration,
}
use lockbot.Command.Laws.{parse_command-Distinct}
use lockbot.NodeBot.{lock, lock_entry, can_lock}
use lockbot.NodeBot.Cases.{lock_cases}
use lockbot.NodeBot.History.{AllSound}

-- When the user's lease on an entry ends, or now if there is none.
unfoldable pub lease_end : ℕ → ℕ → Entry → ℕ
lease_end now user e = elim (find_user_info e.current_users user) [
  | none ↦ now
  | some u ↦ u.start_time + u.duration
]

-- An entry after the user has locked it for so long more: the only holder, in exclusive mode.
pub record Locked (now user duration : ℕ) (before after : Entry) : Type 0 where
  pub holder : UserInfo
  pub is_user : holder.user_id ≡ user
  pub unwarned : holder.is_notified ≡ false
  pub until : holder.start_time + holder.duration ≡ lease_end now user before + duration
  pub alone : after.current_users ≡ holder ∷ []
  pub mode : after.status ≡ exclusive
  pub queue : after.booking_list ≡ before.booking_list

pub lock_entry-Locked :
    (r : Request) (user duration : ℕ) (k : Key) (e : Entry)
    → Locked r.now user duration e (lock_entry r user duration k e)
unfolding lock_entry lease_end create_user_info
lock_entry-Locked r user duration k e = elim (Option-cases (find_user_info e.current_users user)) [
  | inl new ↦
      rw (new, lock_entry, lease_end)
        (record {
          holder = create_user_info r k user duration;
          is_user = refl;
          unwarned = refl;
          until = ground (arith, new);
          alone = refl;
          mode = refl;
          queue = refl;
        })
  | inr (u, old) ↦
      rw (old, lock_entry, lease_end)
        (record {
          holder = record u { duration = duration + u.duration; is_notified = false };
          is_user = find_user_info-user e.current_users user u old;
          unwarned = refl;
          until = ground (arith, old);
          alone = refl;
          mode = refl;
          queue = refl;
        })
]

-- A lock that is committed has parsed: each node it names is then held by the user alone, in
-- exclusive mode and not yet warned, until the end of the user's lease there (or now) plus the
-- duration; its queue and all other nodes are as they were.
pub lock-Locked :
    (cfg : Config) (r : Request) (user : ℕ) (text : Option Match) (limit : Option ℕ) (s : Store)
    (q : Key)
    → (lock cfg r user text limit s).saved ≡ true
    → (keys : List Key) × (duration : ℕ) × (parse_command cfg user true text
        ≡ pass (keys, duration))
      × Changes (Locked r.now user duration) keys q s (lock cfg r user text limit s).state
lock-Locked cfg r user text limit s q =
    lock_cases
      (λ o.
        o.saved ≡ true
        → (keys : List Key) × (duration : ℕ) × (parse_command cfg user true text
            ≡ pass (keys, duration))
          × Changes (Locked r.now user duration) keys q s o.state)
      cfg r user text limit s (λ x h. cc)
      λ keys d es g _. (
        keys,
        d,
        g.parsed,
        modify_all-Changes (Locked r.now user d) (lock_entry r user d) keys q s
            (parse_command-Distinct cfg user true text g.parsed)
            λ in_.
              let at = get_all-all (λ p. can_lock user p.1) keys s es g.found g.tested q in_ in
              (at.0, at.1, lock_entry-Locked r user d q at.0),
      )

-- A user may not lock a sound entry that somebody else holds.
can_lock_held :
    (user other : ℕ) (st : Status) (us queue : List UserInfo)
    → other ≢ user
    → Fits st us
    → has_user us other ≡ true
    → can_lock user (record { status = st; current_users = us; booking_list = queue }) ≡ false
unfolding can_lock has_user is_idle is_exclusive
can_lock_held user other idle [] queue ne f h = cc
can_lock_held user other idle (u ∷ us) queue ne f h = absurd f
can_lock_held user other exclusive [] queue ne f h = absurd f
can_lock_held user other exclusive (u ∷ []) queue ne f h = ground arith
can_lock_held user other exclusive (u ∷ v ∷ us) queue ne f h = absurd f
can_lock_held user other shared us queue ne f h = ground arith

-- A lock that names a sound node which somebody else holds is refused: nothing is written and the
-- state is as it was.
pub lock_refused :
    (cfg : Config) (r : Request) (user other : ℕ) (text : Option Match) (limit : Option ℕ)
    (s : Store) (keys : List Key) (duration : ℕ) (q : Key) (e : Entry)
    → AllSound s
    → parse_command cfg user true text ≡ pass (keys, duration)
    → elem key_eq q keys ≡ true
    → lookup q s ≡ some e
    → has_user e.current_users other ≡ true
    → other ≢ user
    → ((lock cfg r user text limit s).saved ≡ false) × ((lock cfg r user text limit s).state ≡ s)
lock_refused cfg r user other text limit s keys duration q e a parsed named hit held ne =
    lock_cases (λ o. (o.saved ≡ false) × (o.state ≡ s)) cfg r user text limit s (λ x. (refl, refl))
      λ keys' d es g.
        let same : keys' ≡ keys = ground (arith, g.parsed) in
        let in_ = subst (λ ks. elem key_eq q ks ≡ true) (sym same) named in
        let at = get_all-all (λ p. can_lock user p.1) keys' s es g.found g.tested q in_ in
        let e≡ : at.0 ≡ e = ground (arith, at.1) in
        let free : can_lock user e ≡ true = subst (λ x. can_lock user x ≡ true) e≡ at.2 in
        let taken =
          can_lock_held user other e.status e.current_users e.booking_list ne
            (lookup_EachEntry _ q s e a hit).fits held in
        absurd (ground (arith, free, taken))

check_durations-Each :
    (cfg : Config) (r : Request) (user duration : ℕ) (msg : Message) (es : List (Key × Entry))
    → check_durations cfg r user duration msg es ≡ pass tt
    → Each (λ p. check_entry_duration cfg r user duration msg p.1 ≡ pass tt) es
unfolding check_durations
check_durations-Each cfg r user duration msg [] h = tt
check_durations-Each cfg r user duration msg ((k, e) ∷ es) h =
    (ground arith, check_durations-Each cfg r user duration msg es (ground arith))

check_entry_duration-le :
    (cfg : Config) (r : Request) (user duration : ℕ) (msg : Message) (e : Entry)
    → check_entry_duration cfg r user duration msg e ≡ pass tt
    → lease_end r.now user e + duration ≤ r.now + pos_part cfg.max_lock_duration
unfolding check_entry_duration lease_end remaining_duration
check_entry_duration-le cfg r user duration msg e h = ground arith

-- A committed lock by a user to whom MAX_LOCK_DURATION applies leaves no named node locked beyond
-- that many seconds from now, however often the lock is renewed.
pub lock-le-max :
    (cfg : Config) (r : Request) (user : ℕ) (text : Option Match) (limit : Option ℕ) (s : Store)
    (keys : List Key) (duration : ℕ) (q : Key) (e : Entry) (u : UserInfo)
    → is_limited cfg user ≡ true
    → (lock cfg r user text limit s).saved ≡ true
    → parse_command cfg user true text ≡ pass (keys, duration)
    → elem key_eq q keys ≡ true
    → lookup q (lock cfg r user text limit s).state ≡ some e
    → e.current_users ≡ u ∷ []
    → u.start_time + u.duration ≤ r.now + pos_part cfg.max_lock_duration
unfolding check_limits
lock-le-max cfg r user text limit s keys duration q e u limited saved parsed named =
    lock_cases
      (λ o.
        o.saved ≡ true
        → lookup q o.state ≡ some e
        → e.current_users ≡ u ∷ []
        → u.start_time + u.duration ≤ r.now + pos_part cfg.max_lock_duration)
      cfg r user text limit s (λ x h. cc)
      (λ keys' d es g _ hit alone.
        let same : keys' ≡ keys = ground (arith, g.parsed) in
        let in_ = subst (λ ks. elem key_eq q ks ≡ true) (sym same) named in
        let checked : check_durations cfg r user d lock_max_duration_exceeded es ≡ pass tt =
          ground (arith, g.short) in
        let at =
          get_all-Each
            (λ p. check_entry_duration cfg r user d lock_max_duration_exceeded p.1 ≡ pass tt) keys'
            s es g.found (check_durations-Each cfg r user d lock_max_duration_exceeded es checked) q
            in_ in
        let locked = lock_entry-Locked r user d q at.0 in
        let distinct = parse_command-Distinct cfg user true text g.parsed in
        let e≡ : lock_entry r user d q at.0 ≡ e =
          ground (arith, at.1, lookup-modify_all (lock_entry r user d) keys' q s distinct) in
        let u≡ : locked.holder ≡ u = ground (arith, e≡, locked.alone) in
        subst (λ x. x.start_time + x.duration ≤ r.now + pos_part cfg.max_lock_duration) u≡
          (omega (
            arith,
            locked.until,
            check_entry_duration-le cfg r user d lock_max_duration_exceeded at.0 at.2,
          )))
      saved
