-- ===== src/DeviceBot.antt =====
-- python/lockbot/core/device_bot.py: locks on single cards. A card is an entry of its node's list;
-- what a command does to one card is what the node bot does to a node.
use lockbot.Base.{
  ℕ, zero, suc, Bool, true, false, ◌&&◌, ◌||◌, not, Option, none, some, List, [], ◌∷◌, ◌++◌, map,
  ◌==◌, if◌then◌else◌, all,
}
use lockbot.Keys.{Key, card}
use lockbot.Users.{Request}
use lockbot.State.{Entry, Card, Fleet, fleet}
use lockbot.Config.{Config}
use lockbot.Reply.{
  Check, pass, Outcome, completed, show_error, ◌>>=◌, ◌>>◌, require, or_raise, run, Message,
  Operation, device_in_use_or_shared, device_exclusive_mode, lock_max_duration_exceeded,
  slock_max_duration_exceeded, resource_locked, key_error, index_error,
}
use lockbot.Policy.{resource_policy_locked, check_acquisition_limit_locked}
use lockbot.Command.{is_limited, check_entry_duration}
use lockbot.NodeBot.{can_lock, can_share, lock_entry, slock_entry}
pub mod Parse
use Parse.{Match, Selection, parse_command}
pub mod Release
pub mod Sweep
pub mod History
pub mod Names
pub mod Ranges

-- `self.state.bot_state[node_key]`, and `node_status[dev_id]`.
unfoldable pub cards_of : ℕ → Fleet → Option (List Card)
cards_of w [] = none
cards_of w ((j, cs) ∷ f) = if j == w then some cs else cards_of w f

unfoldable pub card_at : ℕ → List Card → Option Card
card_at i [] = none
card_at zero (c ∷ cs) = some c
card_at (suc i) (c ∷ cs) = card_at i cs

unfoldable pub fetch : List ℕ → List Card → Option (List Card)
fetch [] cs = some []
fetch (i ∷ is) cs = elim (card_at i cs) [
  | none ↦ none
  | some c ↦ elim (fetch is cs) [ none ↦ none | some rest ↦ some (c ∷ rest) ]
]

-- The same entry of each card changed at an index, at several, and on the nodes of a selection.
unfoldable pub modify_card : (ℕ → Entry → Entry) → ℕ → ℕ → List Card → List Card
modify_card f at i [] = []
modify_card f at zero (c ∷ cs) = record c { entry = f at c.entry } ∷ cs
modify_card f at (suc i) (c ∷ cs) = c ∷ modify_card f at i cs

unfoldable pub modify_cards : (ℕ → Entry → Entry) → List ℕ → List Card → List Card
modify_cards f [] cs = cs
modify_cards f (i ∷ is) cs = modify_cards f is (modify_card f i i cs)

unfoldable pub modify_node : (List Card → List Card) → ℕ → Fleet → Fleet
modify_node g w [] = []
modify_node g w ((j, cs) ∷ f) = if j == w then (j, g cs) ∷ f else (j, cs) ∷ modify_node g w f

unfoldable pub modify_selected : (ℕ → ℕ → Entry → Entry) → Selection → Fleet → Fleet
modify_selected h [] f = f
modify_selected h ((w, is) ∷ sel) f =
    modify_selected h sel (modify_node (modify_cards (h w) is) w f)

-- `[f"{node}:dev{dev}" ...]`.
unfoldable pub targets_on : ℕ → List ℕ → List Key
targets_on w [] = []
targets_on w (i ∷ is) = card w i ∷ targets_on w is

unfoldable pub targets : Selection → List Key
targets [] = []
targets ((w, is) ∷ sel) = targets_on w is ++ targets sel

unfoldable pub selected_nodes : Selection → List ℕ
selected_nodes [] = []
selected_nodes ((w, is) ∷ sel) = w ∷ selected_nodes sel

unfoldable pub check_cards : Config → Request → ℕ → ℕ → Message → List Card → Check (Unit {0})
check_cards cfg r user duration msg [] = pass tt
check_cards cfg r user duration msg (c ∷ cs) = do
  check_entry_duration cfg r user duration msg c.entry
  check_cards cfg r user duration msg cs

unfoldable pub check_card_limits : Config → Request → ℕ → ℕ → Message → List Card → Check (Unit {0})
check_card_limits cfg r user duration msg cs =
    let checks = check_cards cfg r user duration msg cs in
    if is_limited cfg user then checks else pass tt

-- The first loop of `lock` and `slock`: node by node, the mode and then the durations.
unfoldable pub check_selected :
    Config
    → Request
    → ℕ
    → ℕ
    → (Entry → Bool)
    → (ℕ → Message)
    → Message
    → Fleet
    → Selection
    → Check (Unit {0})
check_selected cfg r user duration test busy long f [] = pass tt
check_selected cfg r user duration test busy long f ((w, is) ∷ sel) = do
  cs ← or_raise (cards_of w f) key_error
  devices ← or_raise (fetch is cs) index_error
  require (all (λ c. test c.entry) devices) (show_error user (busy w))
  check_card_limits cfg r user duration long devices
  check_selected cfg r user duration test busy long f sel

unfoldable pub lock : Config → Request → ℕ → Option Match → Option ℕ → Fleet → Outcome Fleet
lock cfg r user text limit f = run f (do
  (sel, duration) ← parse_command cfg user true text
  check_acquisition_limit_locked (fleet f) user (selected_nodes sel) limit
  resource_policy_locked cfg r.now (fleet f) user (targets sel) none
  check_selected cfg r user duration (can_lock user) device_in_use_or_shared
      lock_max_duration_exceeded f sel
  pass (record {
    state = modify_selected (λ w i. lock_entry r user duration (card w i)) sel f;
    saved = true;
    result = completed Operation.lock true resource_locked (user ∷ []);
  }))

unfoldable pub slock : Config → Request → ℕ → Option Match → Option ℕ → Fleet → Outcome Fleet
slock cfg r user text limit f = run f (do
  (sel, duration) ← parse_command cfg user true text
  check_acquisition_limit_locked (fleet f) user (selected_nodes sel) limit
  resource_policy_locked cfg r.now (fleet f) user (targets sel) none
  check_selected cfg r user duration can_share device_exclusive_mode slock_max_duration_exceeded f
      sel
  pass (record {
    state = modify_selected (λ w i. slock_entry r user duration (card w i)) sel f;
    saved = true;
    result = completed Operation.slock true resource_locked (user ∷ []);
  }))
