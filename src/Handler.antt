-- ===== src/Handler.antt =====
-- python/lockbot/core/handler.py: `_execute_text_command`, from a text to the method of the bot.
use lockbot.Base.{
  ℕ, ◌+◌, Bool, true, false, ◌&&◌, ◌||◌, not, Option, none, some, List, [], ◌∷◌, map, ◌==◌,
  if◌then◌else◌, elem,
}
pub mod Gates

-- The command words that the source names; any other word, or none, is `other`.
pub data Word : Type 0 where
  lock slock unlock free kickout book take query help h alias kicklock : Word
  bind unbind bindings : Word
  other : ℕ → Word

unfoldable pub word_index : Word → ℕ
word_index lock = 0
word_index slock = 1
word_index unlock = 2
word_index free = 3
word_index kickout = 4
word_index book = 5
word_index take = 6
word_index query = 7
word_index help = 8
word_index h = 9
word_index alias = 10
word_index kicklock = 11
word_index bind = 12
word_index unbind = 13
word_index bindings = 14
word_index (other n) = 15 + n

unfoldable pub word_eq : Word → Word → Bool
word_eq a b = word_index a == word_index b

unfoldable pub canonical_command : Word → Word
canonical_command lock = lock
canonical_command slock = slock
canonical_command unlock = unlock
canonical_command free = unlock
canonical_command kickout = kickout
canonical_command book = book
canonical_command take = take
canonical_command query = query
canonical_command help = help
canonical_command h = help
canonical_command alias = alias
canonical_command kicklock = kicklock
canonical_command bind = bind
canonical_command unbind = unbind
canonical_command bindings = bindings
canonical_command (other n) = other n

-- `cmd in BINDING_COMMANDS`.
unfoldable pub is_binding : Word → Bool
is_binding w = word_eq w bind || (word_eq w unbind || word_eq w bindings)

-- What is read off the text: its first word, whether it is blank, and the node that it names, if the
-- whole text is a key of CLUSTER_CONFIGS.
pub record Text : Type 0 where
  pub word : Word
  pub blank : Bool
  pub node : Option ℕ

unfoldable pub is_node : Option ℕ → Bool
is_node none = false
is_node (some n) = true

-- What becomes of a command: a method of the bot, under its canonical word; the binding hook; a help
-- reply; or a rejection.
pub data Route : Type 0 where
  operates : Word → Route
  queries : Option ℕ → Route
  binds : Word → Route
  helps unrecognized_command unknown_error : Route
  not_allowed not_supported : Word → Route

unfoldable pub resolve : List Word → Text → Word
resolve supported text =
    let cmd = if text.blank then query else text.word in
    if not (elem word_eq cmd supported) && is_node text.node then query else cmd

-- `gated and (...)`.
unfoldable pub is_refused : Option (List Word) → Word → Bool
is_refused none cmd = false
is_refused (some allowed) cmd =
    is_binding cmd || not (elem word_eq (canonical_command cmd) (map canonical_command allowed))

unfoldable pub is_gated : Option (List Word) → Bool
is_gated none = false
is_gated (some allowed) = true

-- The chain of comparisons, whose last branch is reached by a word that has none of its own.
unfoldable pub fall_through : Bool → Word → Route
fall_through true cmd = not_supported cmd
fall_through false cmd = unknown_error

unfoldable pub branch : Bool → Text → Word → Route
branch gated text lock = operates lock
branch gated text slock = operates slock
branch gated text unlock = operates unlock
branch gated text free = operates unlock
branch gated text kickout = operates kickout
branch gated text book = operates book
branch gated text take = operates take
branch gated text query = queries text.node
branch gated text help = helps
branch gated text h = helps
branch gated text alias = operates alias
branch gated text kicklock = fall_through gated kicklock
branch gated text bind = fall_through gated bind
branch gated text unbind = fall_through gated unbind
branch gated text bindings = fall_through gated bindings
branch gated text (other n) = fall_through gated (other n)

unfoldable pub unsupported : Bool → Word → Route
unsupported true cmd = not_supported cmd
unsupported false cmd = unrecognized_command

unfoldable pub execute_text_command : Option (List Word) → List Word → Text → Route
execute_text_command allowed supported text =
    let cmd = resolve supported text in
    if is_refused allowed cmd
    then not_allowed cmd
    else if is_binding cmd
    then binds cmd
    else if elem word_eq cmd supported
    then branch (is_gated allowed) text cmd
    else unsupported (is_gated allowed) cmd
