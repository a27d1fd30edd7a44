-- ===== src/QueueBot/Operator.antt =====
-- Releasing holders and keeping the queue, in python/lockbot/core/queue_bot.py: `kicklock`,
-- `_clear_current_locks`, `do_kicklock` and `do_opkick`.
use lockbot.Base.{ℕ, Bool, true, false, Option, none, some, List, [], ◌∷◌, ◌++◌, leb, if◌then◌else◌}
use lockbot.Keys.{Key}
use lockbot.State.{idle, Entry, Store, get_all, modify_all}
use lockbot.Config.{Config}
use lockbot.Reply.{
  Check, pass, Outcome, replied, kicked, ◌>>=◌, or_raise, run, kicklock_cleared, unknown_resources,
}
use lockbot.Policy.{is_empty}
use lockbot.Command.{Match, parse_command}
use lockbot.NodeBot
use lockbot.NodeBot.{add_users}

-- `sorted(users)`, by insertion; a user stands for its place in the order of the texts.
unfoldable pub insert_sorted : ℕ → List ℕ → List ℕ
insert_sorted a [] = a ∷ []
insert_sorted a (x ∷ xs) = if leb a x then a ∷ x ∷ xs else x ∷ insert_sorted a xs

unfoldable pub sorted : List ℕ → List ℕ
sorted [] = []
sorted (x ∷ xs) = insert_sorted x (sorted xs)

unfoldable pub release_holders : Key → Entry → Entry
release_holders k e = record e { status = idle; current_users = [] }

-- The freed keys, and the users who held them.
unfoldable pub freed_keys : List (Key × Entry) → List Key
freed_keys [] = []
freed_keys ((k, e) ∷ es) = if is_empty e.current_users then freed_keys es else k ∷ freed_keys es

unfoldable pub freed_users : List (Key × Entry) → List ℕ → List ℕ
freed_users [] acc = acc
freed_users ((k, e) ∷ es) acc = freed_users es (add_users e.current_users acc)

pub record Cleared : Type 0 where
  pub state : Store
  pub freed : List Key
  pub affected_users : List ℕ

-- A missing key is refused before anything is released.
unfoldable pub clear_current_locks : List Key → Store → Check Cleared
clear_current_locks keys s = do
  entries ← or_raise (get_all keys s) unknown_resources
  pass (record {
    state = modify_all release_holders keys s;
    freed = freed_keys entries;
    affected_users = sorted (freed_users entries []);
  })

unfoldable pub union : List ℕ → List ℕ → List ℕ
union acc [] = acc
union acc (x ∷ xs) = union (lockbot.Base.add_to_set lockbot.Base.◌==◌ x acc) xs

unfoldable pub kicklock : Config → ℕ → Option Match → Store → Outcome Store
kicklock cfg user text s = run s (do
  (keys, duration) ← parse_command cfg user false text
  cleared ← clear_current_locks keys s
  pass (record {
    state = cleared.state;
    saved = true;
    result = replied kicklock_cleared (union (user ∷ []) cleared.affected_users);
  }))

unfoldable pub do_kicklock : List Key → Store → Outcome Store
do_kicklock keys s = run s (do
  cleared ← clear_current_locks keys s
  pass (record {
    state = cleared.state;
    saved = true;
    result = kicked cleared.freed cleared.affected_users;
  }))

-- The text of the method is that of the node bot, which leaves the booking list alone.
unfoldable pub do_opkick : ℕ → Option Key → Store → Outcome Store
do_opkick user node_key s = NodeBot.do_opkick user node_key s
