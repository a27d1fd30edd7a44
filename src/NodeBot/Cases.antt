-- ===== src/NodeBot/Cases.antt =====
-- The ways through each handler of python/lockbot/core/node_bot.py: it stops with the state
-- as it was, or passes all its checks and mutates.
use lockbot.Base.{ℕ, Bool, true, false, ◌≡◌, Option, none, some, List, [], ◌∷◌, all, map}
use lockbot.Keys.{Key, node_of}
use lockbot.Users.{Request}
use lockbot.State.{Entry, Store, nodes, get_all, modify_all}
use lockbot.Config.{Config}
use lockbot.Reply.{
  pass, Outcome, Result, Message, Operation, completed, replied, stopped, bind_cases, raise_cases,
  require_cases, resource_locked, resource_released, resource_force_released,
  lock_max_duration_exceeded, slock_max_duration_exceeded,
}
use lockbot.Policy.{resource_policy_locked, check_acquisition_limit_locked}
use lockbot.Command.{Match, parse_command, check_limits}
use lockbot.NodeBot.{
  lock, slock, unlock_named, kickout, can_lock, lock_entry, can_share, slock_entry, is_named,
  unlock_entry, clear_entry, kicked_users,
}

-- The checks that an acquisition passes: `test` is that of the node's mode, `msg` the refusal of a
-- lock that is too long.
pub record Granted (cfg : Config) (r : Request) (user : ℕ) (text : Option Match) (limit : Option ℕ)
    (s : Store) (test : Entry → Bool) (msg : Message) (keys : List Key) (duration : ℕ)
    (es : List (Key × Entry)) : Type 0 where
  pub parsed : parse_command cfg user true text ≡ pass (keys, duration)
  pub limited : check_acquisition_limit_locked (nodes s) user (map node_of keys) limit ≡ pass tt
  pub found : get_all keys s ≡ some es
  pub permitted : resource_policy_locked cfg r.now (nodes s) user keys none ≡ pass tt
  pub tested : all (λ q. test q.1) es ≡ true
  pub short : check_limits cfg r user duration msg es ≡ pass tt

module _ (P : Outcome Store → Type 0) (cfg : Config) (r : Request) (user : ℕ) (text : Option Match)
    (limit : Option ℕ) (s : Store) (no_ : (x : Result) → P (stopped s x)) where
  pub lock_cases :
      ((keys : List Key) (duration : ℕ) (es : List (Key × Entry))
        → Granted cfg r user text limit s
            (can_lock user)
            lock_max_duration_exceeded
            keys
            duration
            es
        → P (record {
          state = modify_all (lock_entry r user duration) keys s;
          saved = true;
          result = completed Operation.lock true resource_locked (user ∷ []);
        }))
      → P (lock cfg r user text limit s)
  unfolding lock
  lock_cases go = bind_cases P s no_ (parse_command cfg user true text) _ λ p e.
      bind_cases P s no_ (check_acquisition_limit_locked (nodes s) user (map node_of p.0) limit) _
        λ _ f. raise_cases P s no_ (get_all p.0 s) _ _ λ es g.
          bind_cases P s no_ (resource_policy_locked cfg r.now (nodes s) user p.0 none) _ λ _ h.
            require_cases P s no_ (all (λ q. can_lock user q.1) es) _ _ λ i.
              bind_cases P s no_ (check_limits cfg r user p.1 lock_max_duration_exceeded es) _
                λ _ j. go p.0 p.1 es (record {
                  parsed = e;
                  limited = f;
                  found = g;
                  permitted = h;
                  tested = i;
                  short = j;
                })

  pub slock_cases :
      ((keys : List Key) (duration : ℕ) (es : List (Key × Entry))
        → Granted cfg r user text limit s can_share slock_max_duration_exceeded keys duration es
        → P (record {
          state = modify_all (slock_entry r user duration) keys s;
          saved = true;
          result = completed Operation.slock true resource_locked (user ∷ []);
        }))
      → P (slock cfg r user text limit s)
  unfolding slock
  slock_cases go = bind_cases P s no_ (parse_command cfg user true text) _ λ p e.
      bind_cases P s no_ (check_acquisition_limit_locked (nodes s) user (map node_of p.0) limit) _
        λ _ f. raise_cases P s no_ (get_all p.0 s) _ _ λ es g.
          bind_cases P s no_ (resource_policy_locked cfg r.now (nodes s) user p.0 none) _ λ _ h.
            require_cases P s no_ (all (λ q. can_share q.1) es) _ _ λ i.
              bind_cases P s no_ (check_limits cfg r user p.1 slock_max_duration_exceeded es) _
                λ _ j. go p.0 p.1 es (record {
                  parsed = e;
                  limited = f;
                  found = g;
                  permitted = h;
                  tested = i;
                  short = j;
                })

module _ (P : Outcome Store → Type 0) (cfg : Config) (user : ℕ) (text : Option Match) (s : Store)
    (no_ : (x : Result) → P (stopped s x)) where
  pub unlock_cases :
      ((keys : List Key) (duration : ℕ) (es : List (Key × Entry))
        → parse_command cfg user false text ≡ pass (keys, duration)
        → get_all keys s ≡ some es
        → all (λ q. is_named user q.1) es ≡ true
        → P (record {
          state = modify_all (unlock_entry user) keys s;
          saved = true;
          result = completed Operation.unlock true resource_released (user ∷ []);
        }))
      → P (unlock_named cfg user text s)
  unfolding unlock_named
  unlock_cases go = bind_cases P s no_ (parse_command cfg user false text) _ λ p e.
      raise_cases P s no_ (get_all p.0 s) _ _
        λ es g. require_cases P s no_ (all (λ q. is_named user q.1) es) _ _ λ i. go p.0 p.1 es e g i

  pub kickout_cases :
      ((keys : List Key) (duration : ℕ) (es : List (Key × Entry))
        → parse_command cfg user false text ≡ pass (keys, duration)
        → get_all keys s ≡ some es
        → P (record {
          state = modify_all clear_entry keys s;
          saved = true;
          result = replied resource_force_released (kicked_users es (user ∷ []));
        }))
      → P (kickout cfg user text s)
  unfolding kickout
  kickout_cases go =
      bind_cases P s no_ (parse_command cfg user false text) _
        λ p e. raise_cases P s no_ (get_all p.0 s) _ _ λ es g. go p.0 p.1 es e g
