-- ===== src/State.antt =====
-- The bot state in memory: python/lockbot/core/base_bot.py (`BotState`), the default entries of
-- python/lockbot/core/io.py, and `resource_entries` of python/lockbot/core/resource_policy.py.
use lockbot.Base.{ℕ, Bool, true, false, Option, none, some, List, [], ◌∷◌, ◌++◌, if◌then◌else◌}
use lockbot.Users.{UserInfo}
use lockbot.Keys.{Key, card, key_eq}
pub mod Laws
pub mod Modes

pub data Status : Type 0 where
  idle exclusive shared : Status

-- `entry["status"] == "idle"` and the other two tests.
unfoldable pub is_idle : Status → Bool
is_idle idle = true
is_idle exclusive = false
is_idle shared = false

unfoldable pub is_exclusive : Status → Bool
is_exclusive idle = false
is_exclusive exclusive = true
is_exclusive shared = false

-- `if len(current_users) == 0: status = "idle"`.
unfoldable pub settle : Status → List UserInfo → Status
settle st [] = idle
settle st (u ∷ us) = st

-- What a node or a card records of its holders. A DEVICE card has no `booking_list`, which every
-- reader takes as the empty list.
pub record Entry : Type 0 where
  pub status : Status
  pub current_users : List UserInfo
  pub booking_list : List UserInfo

pub record Card : Type 0 where
  pub dev_id : ℕ
  pub dev_model : ℕ
  pub entry : Entry

-- The dictionary of resources, in its order.
abbrev pub Store : Type 0
Store = List (Key × Entry)

unfoldable pub lookup : Key → Store → Option Entry
lookup k [] = none
lookup k ((j, e) ∷ s) = if key_eq j k then some e else lookup k s

-- `[state[key] for key in keys]`; `none` is a KeyError.
unfoldable pub get_all : List Key → Store → Option (List (Key × Entry))
get_all [] s = some []
get_all (k ∷ ks) s = elim (lookup k s) [
  | none ↦ none
  | some e ↦ elim (get_all ks s) [ none ↦ none | some es ↦ some ((k, e) ∷ es) ]
]

-- A mutation of the entry that a key refers to.
unfoldable pub modify : (Key → Entry → Entry) → Key → Store → Store
modify f k [] = []
modify f k ((j, e) ∷ s) = if key_eq j k then (j, f j e) ∷ s else (j, e) ∷ modify f k s

-- `for node in nodes: ...`, over references to the entries of distinct keys.
unfoldable pub modify_all : (Key → Entry → Entry) → List Key → Store → Store
modify_all f [] s = s
modify_all f (k ∷ ks) s = modify_all f ks (modify f k s)

-- `for node in state.values(): ...`.
unfoldable pub modify_each : (Key → Entry → Entry) → Store → Store
modify_each f [] = []
modify_each f ((j, e) ∷ s) = (j, f j e) ∷ modify_each f s

-- The two shapes of `state.bot_state`: a dictionary of entries, or of lists of cards.
abbrev pub Fleet : Type 0
Fleet = List (ℕ × List Card)

pub data BotState : Type 0 where
  nodes : Store → BotState
  fleet : Fleet → BotState

unfoldable pub card_entries : ℕ → List Card → Store
card_entries node [] = []
card_entries node (c ∷ cs) = (card node c.dev_id, c.entry) ∷ card_entries node cs

unfoldable pub fleet_entries : Fleet → Store
fleet_entries [] = []
fleet_entries ((node, cs) ∷ f) = card_entries node cs ++ fleet_entries f

unfoldable pub resource_entries : BotState → Store
resource_entries (nodes s) = s
resource_entries (fleet f) = fleet_entries f
