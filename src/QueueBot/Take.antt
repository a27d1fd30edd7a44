-- ===== src/QueueBot/Take.antt =====
-- `take` of python/lockbot/core/queue_bot.py: the user gets the nodes at once, and the holders
-- go to the front of the queue with what is left of their time.
use lockbot.Base.{
  ℕ, Bool, true, false, ◌&&◌, ◌||◌, not, Option, none, some, List, [], ◌∷◌, ◌++◌, ltb, ◌==◌,
  if◌then◌else◌, any, pos_part,
}
use lockbot.Keys.{Key}
use lockbot.Users.{
  UserInfo, Request, find_user_info, remove_user_info, has_user, remaining_duration,
}
use lockbot.State.{exclusive, Entry, Store, nodes, get_all, modify}
use lockbot.Config.{Config}
use lockbot.Reply.{
  pass, Outcome, replied, raised, show_error, ◌>>=◌, ◌>>◌, require, or_raise, run,
  locked_user_cannot_take, lock_max_duration_exceeded, take_success, key_error, assertion_error,
}
use lockbot.Policy.{resource_policy_locked}
use lockbot.Command.{Match, parse_command, is_limited}
use lockbot.NodeBot.{add_users}
use lockbot.QueueBot.{lock_holder}

-- The reversed loop over the other holders: what it has put in front of the queue, and the holders
-- as it leaves them (they are the same objects). `failed` is an AssertionError.
pub record Displaced : Type 0 where
  pub front : List UserInfo
  pub holders : List UserInfo
  pub failed : Bool

-- A holder whose time is not up waits for the rest of it.
unfoldable pub waiting : ℕ → UserInfo → ℕ → UserInfo
waiting now u rest = record u { start_time = now; duration = rest; is_notified = false }

-- One round, after those that come later in the list.
unfoldable pub displace_one : ℕ → ℕ → UserInfo → Displaced → Displaced
displace_one now user u later =
    if u.user_id == user || later.failed
    then record later { holders = u ∷ later.holders }
    else elim (remaining_duration now u.start_time u.duration) [
      | none ↦ record { front = later.front; holders = u ∷ later.holders; failed = true }
      | some rest ↦
          if ltb 0 rest
          then record {
            front = waiting now u rest ∷ later.front;
            holders = waiting now u rest ∷ later.holders;
            failed = false;
          }
          else record later { holders = u ∷ later.holders }
    ]

unfoldable pub displace : ℕ → ℕ → List UserInfo → Displaced
displace now user [] = record { front = []; holders = []; failed = false }
displace now user (u ∷ us) = displace_one now user u (displace now user us)

-- `for user in node["booking_list"]: user["is_notified"] = False`.
unfoldable pub unnotify : List UserInfo → List UserInfo
unnotify [] = []
unnotify (u ∷ us) = record u { is_notified = false } ∷ unnotify us

unfoldable pub take_finish : Request → ℕ → ℕ → Key → Entry → Displaced → Entry
take_finish r user duration k e d =
    let queue = d.front ++ remove_user_info e.booking_list user in
    if d.failed
    then record { status = exclusive; current_users = d.holders; booking_list = queue }
    else record {
      status = exclusive;
      current_users = lock_holder r k user duration (find_user_info e.current_users user) ∷ [];
      booking_list = unnotify queue;
    }

unfoldable pub take_entry : Request → ℕ → ℕ → Key → Entry → Entry
take_entry r user duration k e =
    take_finish r user duration k e (displace r.now user e.current_users)

unfoldable pub take_failed : Request → ℕ → Entry → Bool
take_failed r user e = (displace r.now user e.current_users).failed

-- The loop over the nodes. An exception leaves the later nodes as they were.
unfoldable pub take_loop : Request → ℕ → ℕ → List (Key × Entry) → List ℕ → Store → Outcome Store
take_loop r user duration [] notified s = record {
  state = s;
  saved = true;
  result = replied take_success notified;
}
take_loop r user duration ((k, e) ∷ es) notified s =
    let s' = modify (take_entry r user duration) k s in
    let notified' = add_users (take_entry r user duration k e).booking_list notified in
    let rest = take_loop r user duration es notified' s' in
    if take_failed r user e
    then record { state = s'; saved = false; result = raised assertion_error }
    else rest

unfoldable pub take : Config → Request → ℕ → Option Match → Store → Outcome Store
take cfg r user text s = run s (do
  (keys, duration) ← parse_command cfg user true text
  entries ← or_raise (get_all keys s) key_error
  resource_policy_locked cfg r.now (nodes s) user keys (some duration)
  require (not (any (λ p. has_user p.1.current_users user) entries))
      (show_error user locked_user_cannot_take)
  rest ← or_raise (remaining_duration r.now r.now duration) assertion_error
  require (not (is_limited cfg user && ltb (pos_part cfg.max_lock_duration) rest))
      (show_error user lock_max_duration_exceeded)
  pass (take_loop r user duration entries (user ∷ []) s))
