-- ===== src/DeviceBot/Release.antt =====
-- `unlock`, `kickout` and `do_opkick` of python/lockbot/core/device_bot.py.
use lockbot.Base.{
  ℕ, ◌+◌, Bool, true, false, ◌&&◌, ◌||◌, Option, none, some, List, [], ◌∷◌, ◌++◌, ◌==◌,
  if◌then◌else◌, all, dedup, elem,
}
use lockbot.Keys.{Key, card}
use lockbot.Users.{has_user}
use lockbot.State.{idle, is_idle, Entry, Card, Fleet}
use lockbot.Config.{Config}
use lockbot.Reply.{
  Check, pass, Outcome, replied, completed, raised, kicked, show_error, ◌>>=◌, ◌>>◌, require,
  or_raise, run, Operation, device_not_requested, resource_released, resource_force_released,
  key_error, index_error, no_active_locks,
}
use lockbot.Policy.{is_empty}
use lockbot.NodeBot.{kick_entry, add_users}
use lockbot.DeviceBot.Parse.{Match, Selection, check_nodes, parse_command}
use lockbot.DeviceBot.{cards_of, fetch, modify_node, modify_selected}

-- The body of the loops over whole nodes.
unfoldable pub release_entry : ℕ → Key → Entry → Entry
release_entry user k e = if is_idle e.status then e else kick_entry user k e

unfoldable pub release_cards : ℕ → ℕ → List Card → List Card
release_cards user w [] = []
release_cards user w (c ∷ cs) =
    record c { entry = release_entry user (card w c.dev_id) c.entry } ∷ release_cards user w cs

unfoldable pub release_fleet : ℕ → Fleet → Fleet
release_fleet user [] = []
release_fleet user ((w, cs) ∷ f) = (w, release_cards user w cs) ∷ release_fleet user f

-- The three forms of the command, in the order in which they are tried: no argument, a list of
-- node names only, and the general form with devices.
pub data UnlockText : Type 0 where
  bare : UnlockText
  names : ℕ → List ℕ → UnlockText
  general : Option Match → UnlockText

-- `m[2]` followed by `m[3]`. The group of `m[3]` is repeated, and a match keeps its last repetition.
unfoldable pub last_of : List ℕ → List ℕ
last_of [] = []
last_of (w ∷ []) = w ∷ []
last_of (w ∷ v ∷ ws) = last_of (v ∷ ws)

unfoldable pub captured : ℕ → List ℕ → List ℕ
captured first rest = dedup (first ∷ last_of rest)

-- All the nodes are in the state, or a KeyError is raised. It is raised at the first that is not,
-- when those before it have been released.
unfoldable pub released : ℕ → List ℕ → Fleet → Outcome Fleet
released user [] f = record {
  state = f;
  saved = true;
  result = completed Operation.unlock true resource_released (user ∷ []);
}
released user (w ∷ ws) f =
    let rest = released user ws (modify_node (release_cards user w) w f) in
    elim (cards_of w f) [
      | none ↦ record { state = f; saved = false; result = raised key_error }
      | some cs ↦ rest
    ]

unfoldable pub unlock_names : Config → ℕ → List ℕ → Fleet → Outcome Fleet
unlock_names cfg user ws f = run f (do check_nodes cfg user ws; pass (released user ws f))

-- Each selected card names the user as a holder.
unfoldable pub check_held : ℕ → Fleet → Selection → Check (Unit {0})
check_held user f [] = pass tt
check_held user f ((w, is) ∷ sel) = do
  cs ← or_raise (cards_of w f) key_error
  devices ← or_raise (fetch is cs) index_error
  require (all (λ c. has_user c.entry.current_users user) devices)
      (show_error user (device_not_requested w))
  check_held user f sel

unfoldable pub unlock_selected : Config → ℕ → Option Match → Fleet → Outcome Fleet
unlock_selected cfg user text f = run f (do
  (sel, duration) ← parse_command cfg user false text
  check_held user f sel
  pass (record {
    state = modify_selected (λ w i. kick_entry user (card w i)) sel f;
    saved = true;
    result = completed Operation.unlock true resource_released (user ∷ []);
  }))

unfoldable pub unlock : Config → ℕ → UnlockText → Fleet → Outcome Fleet
unlock cfg user bare f = record {
  state = release_fleet user f;
  saved = true;
  result = completed Operation.unlock true resource_released (user ∷ []);
}
unlock cfg user (names first rest) f = unlock_names cfg user (captured first rest) f
unlock cfg user (general text) f = unlock_selected cfg user text f

unfoldable pub clear_entry : Entry → Entry
clear_entry e = record e { status = idle; current_users = [] }

-- The cards of a selection; a missing one is a KeyError or an IndexError.
unfoldable pub selected_cards : Fleet → Selection → Check (List Card)
selected_cards f [] = pass []
selected_cards f ((w, is) ∷ sel) = do
  cs ← or_raise (cards_of w f) key_error
  devices ← or_raise (fetch is cs) index_error
  rest ← selected_cards f sel
  pass (devices ++ rest)

unfoldable pub card_users : List Card → List ℕ → List ℕ
card_users [] acc = acc
card_users (c ∷ cs) acc = card_users cs (add_users c.entry.current_users acc)

unfoldable pub kickout : Config → ℕ → Option Match → Fleet → Outcome Fleet
kickout cfg user text f = run f (do
  (sel, duration) ← parse_command cfg user false text
  cards ← selected_cards f sel
  pass (record {
    state = modify_selected (λ w i. clear_entry) sel f;
    saved = true;
    result = replied resource_force_released (card_users cards (user ∷ []));
  }))

-- `do_opkick`: `dev_ids` is None or empty for all cards of the node.
unfoldable pub wants_dev : List ℕ → ℕ → Bool
wants_dev ids i = is_empty ids || elem ◌==◌ i ids

unfoldable pub opkick_cards : ℕ → List ℕ → ℕ → ℕ → List Card → List Card × List Key
opkick_cards user ids w i [] = ([], [])
opkick_cards user ids w i (c ∷ cs) =
    let (rest, freed) = opkick_cards user ids w (i + 1) cs in
    if wants_dev ids i && has_user c.entry.current_users user
    then (record c { entry = kick_entry user (card w i) c.entry } ∷ rest, card w i ∷ freed)
    else (c ∷ rest, freed)

unfoldable pub is_target : Option ℕ → ℕ → Bool
is_target none w = true
is_target (some v) w = w == v

unfoldable pub opkick_fleet : ℕ → Option ℕ → List ℕ → Fleet → Fleet × List Key
opkick_fleet user target ids [] = ([], [])
opkick_fleet user target ids ((w, cs) ∷ f) =
    let (rest, freed) = opkick_fleet user target ids f in
    let (cs', here) = opkick_cards user ids w 0 cs in
    if is_target target w then ((w, cs') ∷ rest, here ++ freed) else ((w, cs) ∷ rest, freed)

unfoldable pub do_opkick : ℕ → Option ℕ → List ℕ → Fleet → Outcome Fleet
do_opkick user target ids f =
    let (f', freed) = opkick_fleet user target ids f in
    if is_empty freed
    then record { state = f'; saved = false; result = raised no_active_locks }
    else record { state = f'; saved = true; result = kicked freed (user ∷ []) }
