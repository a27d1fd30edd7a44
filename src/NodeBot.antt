-- ===== src/NodeBot.antt =====
-- python/lockbot/core/node_bot.py: whole-node locks, exclusive and shared.
-- A handler is the chain of its checks, then one mutation of the entries that the command names.
use lockbot.Base.{
  ℕ, ◌+◌, Bool, true, false, ◌&&◌, ◌||◌, not, Option, none, some, List, [], ◌∷◌, ◌++◌, map, ◌==◌,
  if◌then◌else◌, all, add_to_set,
}
use lockbot.Keys.{Key, node_of}
use lockbot.Users.{UserInfo, Request, create_user_info, find_user_info, remove_user_info, has_user}
use lockbot.State.{
  Status, idle, exclusive, shared, is_idle, is_exclusive, settle, Entry, Store, nodes, get_all,
  lookup, modify, modify_all, modify_each,
}
use lockbot.Config.{Config}
use lockbot.Reply.{
  Check, pass, stop, Outcome, replied, completed, raised, kicked, show_error, ◌>>=◌, ◌>>◌, require,
  or_raise, run, Operation, node_in_use_or_shared, node_exclusive_mode, node_not_requested,
  lock_max_duration_exceeded, slock_max_duration_exceeded, resource_locked, resource_released,
  resource_force_released, key_error, no_active_locks,
}
use lockbot.Policy.{resource_policy_locked, check_acquisition_limit_locked, is_empty}
use lockbot.Command.{Match, parse_command, check_limits}
pub mod Cases
pub mod Invariant
pub mod History
pub mod Others
pub mod Locks
pub mod Release
pub mod Expiry
pub mod Wake

-- `lock`: the node is idle, or the user holds it exclusively.
unfoldable pub can_lock : ℕ → Entry → Bool
can_lock user e = is_idle e.status || (has_user e.current_users user && is_exclusive e.status)

unfoldable pub lock_entry : Request → ℕ → ℕ → Key → Entry → Entry
lock_entry r user duration k e = elim (find_user_info e.current_users user) [
  | none ↦ record e { status = exclusive; current_users = create_user_info r k user duration ∷ [] }
  | some u ↦ record e {
    status = exclusive;
    current_users = record u { duration = duration + u.duration; is_notified = false } ∷ [];
  }
]

unfoldable pub lock : Config → Request → ℕ → Option Match → Option ℕ → Store → Outcome Store
lock cfg r user text limit s = run s (do
  (keys, duration) ← parse_command cfg user true text
  check_acquisition_limit_locked (nodes s) user (map node_of keys) limit
  entries ← or_raise (get_all keys s) key_error
  resource_policy_locked cfg r.now (nodes s) user keys none
  require (all (λ p. can_lock user p.1) entries) (show_error user node_in_use_or_shared)
  check_limits cfg r user duration lock_max_duration_exceeded entries
  pass (record {
    state = modify_all (lock_entry r user duration) keys s;
    saved = true;
    result = completed Operation.lock true resource_locked (user ∷ []);
  }))

unfoldable pub can_share : Entry → Bool
can_share e = not (is_exclusive e.status)

-- `user_info["duration"] += duration` on the record that `find_user_info` gives.
unfoldable pub extend_user : ℕ → ℕ → List UserInfo → List UserInfo
extend_user user duration [] = []
extend_user user duration (u ∷ us) =
    if u.user_id == user
    then record u { duration = u.duration + duration; is_notified = false } ∷ us
    else u ∷ extend_user user duration us

unfoldable pub slock_entry : Request → ℕ → ℕ → Key → Entry → Entry
slock_entry r user duration k e =
    if has_user e.current_users user
    then record e { status = shared; current_users = extend_user user duration e.current_users }
    else record e {
      status = shared;
      current_users = e.current_users ++ create_user_info r k user duration ∷ [];
    }

unfoldable pub slock : Config → Request → ℕ → Option Match → Option ℕ → Store → Outcome Store
slock cfg r user text limit s = run s (do
  (keys, duration) ← parse_command cfg user true text
  check_acquisition_limit_locked (nodes s) user (map node_of keys) limit
  entries ← or_raise (get_all keys s) key_error
  resource_policy_locked cfg r.now (nodes s) user keys none
  require (all (λ p. can_share p.1) entries) (show_error user node_exclusive_mode)
  check_limits cfg r user duration slock_max_duration_exceeded entries
  pass (record {
    state = modify_all (slock_entry r user duration) keys s;
    saved = true;
    result = completed Operation.slock true resource_locked (user ∷ []);
  }))

-- The body of the loop of a bare `unlock`.
unfoldable pub release_entry : ℕ → Key → Entry → Entry
release_entry user k e =
    let users = remove_user_info e.current_users user in
    let queue = remove_user_info e.booking_list user in
    if is_idle e.status
    then record e { booking_list = queue }
    else record { status = settle e.status users; current_users = users; booking_list = queue }

-- The body of the loop of `unlock` with nodes.
unfoldable pub unlock_entry : ℕ → Key → Entry → Entry
unlock_entry user k e =
    let users = remove_user_info e.current_users user in
    record {
      status = settle e.status users;
      current_users = users;
      booking_list = remove_user_info e.booking_list user;
    }

unfoldable pub is_named : ℕ → Entry → Bool
is_named user e = has_user e.current_users user || has_user e.booking_list user

pub data UnlockText : Type 0 where
  bare : UnlockText
  named : Option Match → UnlockText

unfoldable pub unlock_all : ℕ → Store → Outcome Store
unlock_all user s = record {
  state = modify_each (release_entry user) s;
  saved = true;
  result = completed Operation.unlock true resource_released (user ∷ []);
}

unfoldable pub unlock_named : Config → ℕ → Option Match → Store → Outcome Store
unlock_named cfg user text s = run s (do
  (keys, duration) ← parse_command cfg user false text
  entries ← or_raise (get_all keys s) key_error
  require (all (λ p. is_named user p.1) entries) (show_error user node_not_requested)
  pass (record {
    state = modify_all (unlock_entry user) keys s;
    saved = true;
    result = completed Operation.unlock true resource_released (user ∷ []);
  }))

unfoldable pub unlock : Config → ℕ → UnlockText → Store → Outcome Store
unlock cfg user bare s = unlock_all user s
unlock cfg user (named text) s = unlock_named cfg user text s

-- `users.add(...)` for each record, over a Python set.
unfoldable pub add_users : List UserInfo → List ℕ → List ℕ
add_users [] acc = acc
add_users (u ∷ us) acc = add_users us (add_to_set ◌==◌ u.user_id acc)

unfoldable pub kicked_users : List (Key × Entry) → List ℕ → List ℕ
kicked_users [] acc = acc
kicked_users ((k, e) ∷ es) acc =
    kicked_users es (add_users e.booking_list (add_users e.current_users acc))

unfoldable pub clear_entry : Key → Entry → Entry
clear_entry k e = record { status = idle; current_users = []; booking_list = [] }

unfoldable pub kickout : Config → ℕ → Option Match → Store → Outcome Store
kickout cfg user text s = run s (do
  (keys, duration) ← parse_command cfg user false text
  entries ← or_raise (get_all keys s) key_error
  pass (record {
    state = modify_all clear_entry keys s;
    saved = true;
    result = replied resource_force_released (kicked_users entries (user ∷ []));
  }))

-- The body of the loop of `do_opkick`.
unfoldable pub kick_entry : ℕ → Key → Entry → Entry
kick_entry user k e =
    let users = remove_user_info e.current_users user in
    record e { status = settle e.status users; current_users = users }

-- The loop of `do_opkick`: the state and `freed`.
unfoldable pub opkick_step : ℕ → Key → Store × List Key → Store × List Key
opkick_step user k (s, freed) = elim (lookup k s) [
  | none ↦ (s, freed)
  | some e ↦
      if has_user e.current_users user
      then (modify (kick_entry user) k s, freed ++ k ∷ [])
      else (s, freed)
]

unfoldable pub opkick_loop : ℕ → List Key → Store × List Key → Store × List Key
opkick_loop user [] acc = acc
opkick_loop user (k ∷ ks) acc = opkick_loop user ks (opkick_step user k acc)

-- `target_nodes`: the node asked for, or all that the user holds.
unfoldable pub opkick_targets : ℕ → Option Key → Store → List Key
opkick_targets user (some k) s = k ∷ []
opkick_targets user none [] = []
opkick_targets user none ((k, e) ∷ s) =
    let rest = opkick_targets user none s in
    if has_user e.current_users user then k ∷ rest else rest

unfoldable pub opkick_result : ℕ → Store → Store × List Key → Outcome Store
opkick_result user s (s', freed) =
    if is_empty freed
    then record { state = s'; saved = false; result = raised no_active_locks }
    else record { state = s'; saved = true; result = kicked freed (user ∷ []) }

-- The test for no targets in the source is the case of an empty loop here.
unfoldable pub do_opkick : ℕ → Option Key → Store → Outcome Store
do_opkick user node_key s =
    opkick_result user s (opkick_loop user (opkick_targets user node_key s) (s, []))
