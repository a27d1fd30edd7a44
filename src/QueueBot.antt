-- ===== src/QueueBot.antt =====
-- python/lockbot/core/queue_bot.py: exclusive locks with a booking list for each resource.
-- `unlock` and `kickout` are those of the node bot. The state is what `_resource_state()` refers to.
use lockbot.Base.{
  ℕ, ◌+◌, Bool, true, false, ◌&&◌, ◌||◌, not, Option, none, some, List, [], ◌∷◌, ◌++◌, map, ltb,
  ◌==◌, if◌then◌else◌, all, any, length, pos_part,
}
use lockbot.Keys.{Key, node_of}
use lockbot.Users.{
  UserInfo, Request, create_user_info, is_first_user, find_user_info, remove_user_info, has_user,
  remaining_duration,
}
use lockbot.State.{
  idle, exclusive, is_idle, Entry, Store, nodes, get_all, lookup, modify, modify_all,
}
use lockbot.Config.{Config}
use lockbot.Reply.{
  Check, pass, stop, Outcome, Result, replied, completed, raised, kicked, show_error, ◌>>=◌, ◌>>◌,
  require, or_raise, run, Operation, slock_not_supported, node_in_use_or_not_your_turn,
  already_locked, locked_user_cannot_take, lock_max_duration_exceeded, resource_locked,
  booking_added, take_success, kicklock_cleared, key_error, assertion_error, unknown_resources,
}
use lockbot.Policy.{resource_policy_locked, check_acquisition_limit_locked, is_empty}
use lockbot.Command.{Match, parse_command, is_limited}
use lockbot.NodeBot.{add_users}
pub mod Take
pub mod Operator
pub mod Sweep
pub mod Invariant
pub mod Displaced
pub mod Turns
pub mod History
pub mod Line
pub mod Claims
pub mod Handover
pub mod Lapses
pub mod Offers
pub mod Cases

-- A command for `lock`: the match, and whether `re.search` finds a duration at the end of the text.
pub record LockText : Type 0 where
  pub text : Option Match
  pub has_duration : Bool

-- `duration if command_has_duration else None`.
unfoldable pub claimed_duration : Bool → ℕ → Option ℕ
claimed_duration has_duration duration = if has_duration then some duration else none

-- The node is idle with no queue or the user's turn, or the user holds it.
unfoldable pub can_lock : ℕ → Entry → Bool
can_lock user e =
    (is_idle e.status && (is_empty e.booking_list || is_first_user e.booking_list user))
    || has_user e.current_users user

-- The duration that counts: the booking's, if the command has none.
unfoldable pub booked_or : Bool → Option UserInfo → ℕ → ℕ
booked_or true booking duration = duration
booked_or false none duration = duration
booked_or false (some b) duration = b.duration

unfoldable pub check_entry_duration : Config → Request → ℕ → Bool → ℕ → Entry → Check (Unit {0})
check_entry_duration cfg r user has_duration duration e =
    let base = booked_or has_duration (find_user_info e.booking_list user) duration in
    elim (find_user_info e.current_users user) [
      | none ↦ do
        rest ← or_raise (remaining_duration r.now r.now base) assertion_error
        require (not (ltb (pos_part cfg.max_lock_duration) rest))
            (show_error user lock_max_duration_exceeded)
      | some u ↦ do
        rest ← or_raise (remaining_duration r.now u.start_time (base + u.duration)) assertion_error
        require (not (ltb (pos_part cfg.max_lock_duration) rest))
            (show_error user lock_max_duration_exceeded)
    ]

unfoldable pub check_durations :
    Config → Request → ℕ → Bool → ℕ → List (Key × Entry) → Check (Unit {0})
check_durations cfg r user has_duration duration [] = pass tt
check_durations cfg r user has_duration duration ((k, e) ∷ es) = do
  check_entry_duration cfg r user has_duration duration e
  check_durations cfg r user has_duration duration es

unfoldable pub check_limits :
    Config → Request → ℕ → Bool → ℕ → List (Key × Entry) → Check (Unit {0})
check_limits cfg r user has_duration duration es =
    let checks = check_durations cfg r user has_duration duration es in
    if is_limited cfg user then checks else pass tt

-- The record that `lock` leaves as the only holder, from the old one if there is one.
unfoldable pub lock_holder : Request → Key → ℕ → ℕ → Option UserInfo → UserInfo
lock_holder r k user total none = create_user_info r k user total
lock_holder r k user total (some u) = record u {
  duration = total + u.duration;
  is_notified = false;
}

unfoldable pub lock_entry : Request → ℕ → Bool → ℕ → Key → Entry → Entry
lock_entry r user has_duration duration k e =
    let total = booked_or has_duration (find_user_info e.booking_list user) duration in
    record {
      status = exclusive;
      current_users = lock_holder r k user total (find_user_info e.current_users user) ∷ [];
      booking_list = remove_user_info e.booking_list user;
    }

-- The wait of those in the queue has grown: the claim is longer than the booking, or a renewal.
unfoldable pub grows_wait : ℕ → Option UserInfo → Option UserInfo → Bool
grows_wait total none none = false
grows_wait total (some b) none = ltb b.duration total
grows_wait total booking (some u) = true

unfoldable pub lock_notified : ℕ → Bool → ℕ → List (Key × Entry) → List ℕ → List ℕ
lock_notified user has_duration duration [] acc = acc
lock_notified user has_duration duration ((k, e) ∷ es) acc =
    let booking = find_user_info e.booking_list user in
    let total = booked_or has_duration booking duration in
    let told = add_users (remove_user_info e.booking_list user) acc in
    let acc' =
      if grows_wait total booking (find_user_info e.current_users user) then told else acc in
    lock_notified user has_duration duration es acc'

unfoldable pub lock : Config → Request → ℕ → LockText → Option ℕ → Store → Outcome Store
lock cfg r user command limit s = run s (do
  (keys, duration) ← parse_command cfg user true command.text
  check_acquisition_limit_locked (nodes s) user (map node_of keys) limit
  entries ← or_raise (get_all keys s) key_error
  resource_policy_locked cfg r.now (nodes s) user keys
      (claimed_duration command.has_duration duration)
  require (all (λ p. can_lock user p.1) entries) (show_error user node_in_use_or_not_your_turn)
  check_limits cfg r user command.has_duration duration entries
  let notified = lock_notified user command.has_duration duration entries (user ∷ [])
  pass (record {
    state = modify_all (lock_entry r user command.has_duration duration) keys s;
    saved = true;
    result = completed Operation.lock (length notified == 1) resource_locked notified;
  }))

unfoldable pub slock : ℕ → Store → Outcome Store
slock user s = record { state = s; saved = false; result = show_error user slock_not_supported }

unfoldable pub is_named : ℕ → Entry → Bool
is_named user e = has_user e.current_users user || has_user e.booking_list user

unfoldable pub book_entry : Request → ℕ → ℕ → Key → Entry → Entry
book_entry r user duration k e = record e {
  booking_list = e.booking_list ++ create_user_info r k user duration ∷ [];
}

-- `max_dur > 0 and user_id not in whitelist and duration > max_dur`.
unfoldable pub is_too_long : Config → ℕ → ℕ → Bool
is_too_long cfg user duration = is_limited cfg user && ltb (pos_part cfg.max_lock_duration) duration

unfoldable pub book : Config → Request → ℕ → Option Match → Option ℕ → Store → Outcome Store
book cfg r user text limit s = run s (do
  (keys, duration) ← parse_command cfg user true text
  check_acquisition_limit_locked (nodes s) user (map node_of keys) limit
  entries ← or_raise (get_all keys s) key_error
  resource_policy_locked cfg r.now (nodes s) user keys none
  require (not (any (λ p. is_named user p.1) entries)) (show_error user already_locked)
  require (not (is_too_long cfg user duration)) (show_error user lock_max_duration_exceeded)
  pass (record {
    state = modify_all (book_entry r user duration) keys s;
    saved = true;
    result = replied booking_added (user ∷ []);
  }))
