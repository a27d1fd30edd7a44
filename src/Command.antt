-- ===== src/Command.antt =====
-- The start of a command: `parse_command` of python/lockbot/core/node_bot.py, and the check of
-- MAX_LOCK_DURATION that `lock` and `slock` make there.
-- The match of `re.match` enters as data: the words of the node list and of the duration.
use lockbot.Base.{
  ℕ, ◌+◌, Bool, ◌&&◌, not, Option, none, some, List, [], ◌∷◌, map, ltb, ◌==◌, if◌then◌else◌, elem,
  dedup, pos_part,
}
use lockbot.Keys.{Key, machine}
use lockbot.Users.{
  Request, find_user_info, Decimal, TimeUnit, duration_to_seconds, truncate, remaining_duration,
}
use lockbot.State.{Entry}
use lockbot.Config.{Config, in_cluster}
use lockbot.Reply.{
  Check, pass, stop, show_error, ◌>>=◌, ◌>>◌, require, or_raise, Message, invalid_command_format,
  invalid_node_key, duration_must_be_positive, assertion_error,
}
pub mod Laws

-- What the pattern of `parse_command` captures: the node words, and number and unit.
pub record Match : Type 0 where
  pub words : List ℕ
  pub amount : Option (Decimal × TimeUnit)

-- `m[6]`, `m[7]`, or DEFAULT_DURATION.
unfoldable pub parsed_duration : Config → Match → ℕ
parsed_duration cfg m = elim m.amount [
  | none ↦ cfg.default_duration
  | some (d, u) ↦ truncate (duration_to_seconds d u)
]

-- The loop over the node words.
unfoldable pub check_nodes : Config → ℕ → List ℕ → Check (Unit {0})
check_nodes cfg user [] = pass tt
check_nodes cfg user (w ∷ ws) = do
  require (in_cluster w cfg.cluster) (show_error user (invalid_node_key w))
  check_nodes cfg user ws

-- `none` is a text that the pattern does not match. `list(set(node_keys))` keeps the first places.
unfoldable pub parse_command : Config → ℕ → Bool → Option Match → Check (List Key × ℕ)
parse_command cfg user parsing_duration none = stop (show_error user invalid_command_format)
parse_command cfg user parsing_duration (some m) = do
  check_nodes cfg user m.words
  let duration = if parsing_duration then parsed_duration cfg m else 0
  require (not (parsing_duration && duration == 0)) (show_error user duration_must_be_positive)
  pass (map machine (dedup m.words), duration)

-- Whether the length of locks is limited for the user.
unfoldable pub is_limited : Config → ℕ → Bool
is_limited cfg user =
    ltb 0 (pos_part cfg.max_lock_duration) && not (elem ◌==◌ user cfg.duration_whitelist)

-- `remaining_duration(start_time, total_duration) > max_dur` for one entry.
unfoldable pub check_entry_duration : Config → Request → ℕ → ℕ → Message → Entry → Check (Unit {0})
check_entry_duration cfg r user duration msg e = elim (find_user_info e.current_users user) [
  | none ↦ do
    rest ← or_raise (remaining_duration r.now r.now duration) assertion_error
    require (not (ltb (pos_part cfg.max_lock_duration) rest)) (show_error user msg)
  | some u ↦ do
    rest ← or_raise (remaining_duration r.now u.start_time (duration + u.duration)) assertion_error
    require (not (ltb (pos_part cfg.max_lock_duration) rest)) (show_error user msg)
]

unfoldable pub check_durations :
    Config → Request → ℕ → ℕ → Message → List (Key × Entry) → Check (Unit {0})
check_durations cfg r user duration msg [] = pass tt
check_durations cfg r user duration msg ((k, e) ∷ es) = do
  check_entry_duration cfg r user duration msg e
  check_durations cfg r user duration msg es

unfoldable pub check_limits :
    Config → Request → ℕ → ℕ → Message → List (Key × Entry) → Check (Unit {0})
check_limits cfg r user duration msg es =
    let checks = check_durations cfg r user duration msg es in
    if is_limited cfg user then checks else pass tt
