-- ===== src/DeviceBot/Parse.antt =====
-- `parse_command` of python/lockbot/core/device_bot.py: nodes and the cards on each.
use lockbot.Base.{
  ℕ, suc, zero, ◌+◌, Bool, not, ◌&&◌, Option, none, some, List, [], ◌∷◌, ◌++◌, ltb, ◌==◌,
  if◌then◌else◌, all, length, dedup,
}
use lockbot.Users.{Decimal, TimeUnit, duration_to_seconds, truncate}
use lockbot.Config.{Config, devices_of, in_cluster}
use lockbot.Reply.{
  Check, pass, stop, show_error, ◌>>=◌, ◌>>◌, require, or_raise, invalid_command_format,
  invalid_node_key, dev_id_range_invalid, dev_id_out_of_range, duration_must_be_positive, key_error,
}

-- `dev 0-3` or `dev 0,1,2`.
pub data DevSpec : Type 0 where
  range : ℕ → ℕ → DevSpec
  listed : List ℕ → DevSpec

-- What the pattern captures: the node words, the devices, number and unit.
pub record Match : Type 0 where
  pub words : List ℕ
  pub devs : Option DevSpec
  pub amount : Option (Decimal × TimeUnit)

-- The cards that a command selects: node by node, the indices.
abbrev pub Selection : Type 0
Selection = List (ℕ × List ℕ)

-- `list(range(a, a + n))`.
unfoldable pub count_up : ℕ → ℕ → List ℕ
count_up a zero = []
count_up a (suc n) = a ∷ count_up (a + 1) n

unfoldable pub check_nodes : Config → ℕ → List ℕ → Check (Unit {0})
check_nodes cfg user [] = pass tt
check_nodes cfg user (w ∷ ws) = do
  require (in_cluster w cfg.cluster) (show_error user (invalid_node_key w))
  check_nodes cfg user ws

unfoldable pub same_devs : List ℕ → List ℕ → Selection
same_devs ids [] = []
same_devs ids (w ∷ ws) = (w, ids) ∷ same_devs ids ws

-- No devices are named: all of each node.
unfoldable pub all_devs : Config → List ℕ → Check Selection
all_devs cfg [] = pass []
all_devs cfg (w ∷ ws) = do
  ds ← or_raise (devices_of w cfg.cluster) key_error
  rest ← all_devs cfg ws
  pass ((w, count_up 0 (length ds)) ∷ rest)

unfoldable pub select : Config → ℕ → List ℕ → Option DevSpec → Check Selection
select cfg user ws none = all_devs cfg ws
select cfg user ws (some (range a b)) = do
  require (not (ltb b a)) (show_error user (dev_id_range_invalid a b))
  pass (same_devs (count_up a (lockbot.Base.◌-◌ (b + 1) a)) ws)
select cfg user ws (some (listed ids)) = pass (same_devs (dedup ids) ws)

unfoldable pub check_bounds : Config → ℕ → Selection → Check (Unit {0})
check_bounds cfg user [] = pass tt
check_bounds cfg user ((w, ids) ∷ sel) = do
  ds ← or_raise (devices_of w cfg.cluster) key_error
  require (all (λ i. ltb i (length ds)) ids) (show_error user (dev_id_out_of_range w (length ds)))
  check_bounds cfg user sel

unfoldable pub parsed_duration : Config → Match → ℕ
parsed_duration cfg m = elim m.amount [
  | none ↦ cfg.default_duration
  | some (d, u) ↦ truncate (duration_to_seconds d u)
]

unfoldable pub parse_command : Config → ℕ → Bool → Option Match → Check (Selection × ℕ)
parse_command cfg user parsing_duration none = stop (show_error user invalid_command_format)
parse_command cfg user parsing_duration (some m) = do
  let words = dedup m.words
  check_nodes cfg user words
  sel ← select cfg user words m.devs
  check_bounds cfg user sel
  let duration = if parsing_duration then parsed_duration cfg m else 0
  require (not (parsing_duration && duration == 0)) (show_error user duration_must_be_positive)
  pass (sel, duration)
