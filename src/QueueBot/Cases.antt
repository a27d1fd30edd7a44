-- ===== src/QueueBot/Cases.antt =====
-- The ways through each handler of python/lockbot/core/queue_bot.py.
use lockbot.Base.{
  ℕ, true, false, not, ◌≡◌, Option, none, some, List, [], ◌∷◌, all, any, map, Option-cases, inl,
  inr, refl, length, ◌==◌, ltb, pos_part, ◌&&◌,
}
use lockbot.Keys.{Key, node_of}
use lockbot.Users.{Request, has_user, remaining_duration}
use lockbot.State.{Entry, Store, nodes, get_all, modify_all}
use lockbot.Config.{Config}
use lockbot.Reply.{
  pass, stop, raised, Outcome, Result, Operation, completed, replied, kicked, stopped, bind_cases,
  raise_cases, require_cases, resource_locked, booking_added, kicklock_cleared, unknown_resources,
}
use lockbot.Policy.{resource_policy_locked, check_acquisition_limit_locked}
use lockbot.Command.{Match, parse_command, is_limited}
use lockbot.QueueBot.{
  LockText, lock, book, can_lock, lock_entry, lock_notified, claimed_duration, check_limits,
  is_named, book_entry, is_too_long,
}
use lockbot.QueueBot.Take.{take, take_loop}
use lockbot.QueueBot.Operator.{
  kicklock, do_kicklock, clear_current_locks, release_holders, freed_keys, freed_users, sorted,
  union,
}

-- The checks that a lock passes.
pub record Granted (cfg : Config) (r : Request) (user : ℕ) (command : LockText) (limit : Option ℕ)
    (s : Store) (keys : List Key) (duration : ℕ) (es : List (Key × Entry)) : Type 0 where
  pub parsed : parse_command cfg user true command.text ≡ pass (keys, duration)
  pub limited : check_acquisition_limit_locked (nodes s) user (map node_of keys) limit ≡ pass tt
  pub found : get_all keys s ≡ some es
  pub permitted :
      resource_policy_locked cfg r.now
        (nodes s)
        user
        keys
        (claimed_duration command.has_duration duration)
      ≡ pass tt
  pub tested : all (λ q. can_lock user q.1) es ≡ true
  pub short : check_limits cfg r user command.has_duration duration es ≡ pass tt

module _ (P : Outcome Store → Type 0) (cfg : Config) (r : Request) (user : ℕ) (s : Store)
    (no_ : (x : Result) → P (stopped s x)) where
  pub lock_cases :
      (command : LockText) (limit : Option ℕ)
      → ((keys : List Key) (duration : ℕ) (es : List (Key × Entry))
          → Granted cfg r user command limit s keys duration es
          → P (record {
            state = modify_all (lock_entry r user command.has_duration duration) keys s;
            saved = true;
            result =
                completed Operation.lock
                  (length (lock_notified user command.has_duration duration es (user ∷ [])) == 1)
                  resource_locked
                  (lock_notified user command.has_duration duration es (user ∷ []));
          }))
      → P (lock cfg r user command limit s)
  unfolding lock
  lock_cases command limit go =
      bind_cases P s no_ (parse_command cfg user true command.text) _ λ p e.
        bind_cases P s no_ (check_acquisition_limit_locked (nodes s) user (map node_of p.0) limit) _
          λ _ f. raise_cases P s no_ (get_all p.0 s) _ _ λ es g.
            bind_cases P s no_
              (resource_policy_locked cfg r.now (nodes s) user p.0
                (claimed_duration command.has_duration p.1))
              _
              λ _ h. require_cases P s no_ (all (λ q. can_lock user q.1) es) _ _ λ i.
                bind_cases P s no_ (check_limits cfg r user command.has_duration p.1 es) _ λ _ j.
                  go p.0 p.1 es (record {
                    parsed = e;
                    limited = f;
                    found = g;
                    permitted = h;
                    tested = i;
                    short = j;
                  })

  pub book_cases :
      (text : Option Match) (limit : Option ℕ)
      → ((keys : List Key) (duration : ℕ) (es : List (Key × Entry))
          → parse_command cfg user true text ≡ pass (keys, duration)
          → get_all keys s ≡ some es
          → not (any (λ q. is_named user q.1) es) ≡ true
          → not (is_too_long cfg user duration) ≡ true
          → P (record {
            state = modify_all (book_entry r user duration) keys s;
            saved = true;
            result = replied booking_added (user ∷ []);
          }))
      → P (book cfg r user text limit s)
  unfolding book
  book_cases text limit go = bind_cases P s no_ (parse_command cfg user true text) _ λ p e.
      bind_cases P s no_ (check_acquisition_limit_locked (nodes s) user (map node_of p.0) limit) _
        λ _ _. raise_cases P s no_ (get_all p.0 s) _ _ λ es g.
          bind_cases P s no_ (resource_policy_locked cfg r.now (nodes s) user p.0 none) _ λ _ _.
            require_cases P s no_ (not (any (λ q. is_named user q.1) es)) _ _ λ i.
              require_cases P s no_ (not (is_too_long cfg user p.1)) _ _ λ j. go p.0 p.1 es e g i j

  pub take_cases :
      (text : Option Match)
      → ((keys : List Key) (duration : ℕ) (es : List (Key × Entry))
          → parse_command cfg user true text ≡ pass (keys, duration)
          → get_all keys s ≡ some es
          → not (any (λ q. has_user q.1.current_users user) es) ≡ true
          → P (take_loop r user duration es (user ∷ []) s))
      → P (take cfg r user text s)
  unfolding take
  take_cases text go = bind_cases P s no_ (parse_command cfg user true text) _ λ p e.
      raise_cases P s no_ (get_all p.0 s) _ _ λ es g.
        bind_cases P s no_ (resource_policy_locked cfg r.now (nodes s) user p.0 (some p.1)) _ λ _ _.
          require_cases P s no_ (not (any (λ q. has_user q.1.current_users user) es)) _ _ λ i.
            raise_cases P s no_ (remaining_duration r.now r.now p.1) _ _ λ rest _.
              require_cases P s no_
                (not (is_limited cfg user && ltb (pos_part cfg.max_lock_duration) rest)) _ _
                λ _. go p.0 p.1 es e g i

module _ (P : Outcome Store → Type 0) (s : Store) (no_ : (x : Result) → P (stopped s x)) where
  clear-none :
      (keys : List Key)
      → get_all keys s ≡ none
      → clear_current_locks keys s ≡ stop (raised unknown_resources)
  unfolding clear_current_locks
  clear-none keys g = rw (g, clear_current_locks) refl

  clear-some :
      (keys : List Key) (es : List (Key × Entry))
      → get_all keys s ≡ some es
      → clear_current_locks keys s
        ≡ pass (record {
          state = modify_all release_holders keys s;
          freed = freed_keys es;
          affected_users = sorted (freed_users es []);
        })
  unfolding clear_current_locks
  clear-some keys es g = rw (g, clear_current_locks) refl

  pub kicklock_cases :
      (cfg : Config) (user : ℕ) (text : Option Match)
      → ((keys : List Key) (duration : ℕ) (es : List (Key × Entry))
          → parse_command cfg user false text ≡ pass (keys, duration)
          → get_all keys s ≡ some es
          → P (record {
            state = modify_all release_holders keys s;
            saved = true;
            result = replied kicklock_cleared (union (user ∷ []) (sorted (freed_users es [])));
          }))
      → P (kicklock cfg user text s)
  unfolding kicklock
  kicklock_cases cfg user text go = bind_cases P s no_ (parse_command cfg user false text) _ λ p e.
      elim (Option-cases (get_all p.0 s)) [
        | inl g ↦ rw (clear-none p.0 g) (no_ _)
        | inr (es, g) ↦ rw (clear-some p.0 es g) (go p.0 p.1 es e g)
      ]

  pub do_kicklock_cases :
      (keys : List Key)
      → ((es : List (Key × Entry))
          → get_all keys s ≡ some es
          → P (record {
            state = modify_all release_holders keys s;
            saved = true;
            result = kicked (freed_keys es) (sorted (freed_users es []));
          }))
      → P (do_kicklock keys s)
  unfolding do_kicklock
  do_kicklock_cases keys go = elim (Option-cases (get_all keys s)) [
    | inl g ↦ rw (clear-none keys g) (no_ _)
    | inr (es, g) ↦ rw (clear-some keys es g) (go es g)
  ]
