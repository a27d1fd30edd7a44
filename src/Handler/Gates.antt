-- ===== src/Handler/Gates.antt =====
-- What the allowlist and the list of supported commands let through.
use lockbot.Base.{
  Bool, true, false, ◌≡◌, ◌∙◌, refl, ◌⊎◌, Option, none, some, List, [], ◌∷◌, map, elem, arith,
}
use lockbot.Handler.{
  Word, lock, slock, unlock, free, kickout, book, take, query, help, h, alias, kicklock, bind,
  unbind, bindings, other, word_eq, word_index, canonical_command, is_binding, Text, Route,
  operates, queries, binds, helps, unrecognized_command, unknown_error, not_allowed, not_supported,
  resolve, is_refused, is_gated, fall_through, branch, unsupported, execute_text_command,
}

-- The word under which a route reaches a method of the bot.
unfoldable pub is_operation : Word → Route → Bool
is_operation w (operates v) = word_eq v w
is_operation w (queries n) = false
is_operation w (binds v) = false
is_operation w helps = false
is_operation w unrecognized_command = false
is_operation w unknown_error = false
is_operation w (not_allowed v) = false
is_operation w (not_supported v) = false

-- The word under which a route reaches a method of the bot, the binding hook or the help; a rejection
-- reaches nothing.
unfoldable pub reached : Route → Option Word
reached (operates w) = some w
reached (queries n) = some query
reached (binds w) = some w
reached helps = some help
reached unrecognized_command = none
reached unknown_error = none
reached (not_allowed w) = none
reached (not_supported w) = none

fall_through-none : (gated : Bool) (cmd : Word) → reached (fall_through gated cmd) ≡ none
unfolding reached fall_through
fall_through-none true cmd = refl
fall_through-none false cmd = refl

unsupported-none : (gated : Bool) (cmd : Word) → reached (unsupported gated cmd) ≡ none
unfolding reached unsupported
unsupported-none true cmd = refl
unsupported-none false cmd = refl

some_word : (v w : Word) → some v ≡ some w → word_eq v w ≡ true
unfolding word_eq
some_word v w e = ground arith

branch-canonical :
    (gated : Bool) (text : Text) (cmd w : Word)
    → reached (branch gated text cmd) ≡ some w
    → word_eq (canonical_command cmd) w ≡ true
unfolding branch reached canonical_command
branch-canonical gated text lock w e = some_word lock w e
branch-canonical gated text slock w e = some_word slock w e
branch-canonical gated text unlock w e = some_word unlock w e
branch-canonical gated text free w e = some_word unlock w e
branch-canonical gated text kickout w e = some_word kickout w e
branch-canonical gated text book w e = some_word book w e
branch-canonical gated text take w e = some_word take w e
branch-canonical gated text query w e = some_word query w e
branch-canonical gated text help w e = some_word help w e
branch-canonical gated text h w e = some_word help w e
branch-canonical gated text alias w e = some_word alias w e
branch-canonical gated text kicklock w e = ground (arith, fall_through-none gated kicklock)
branch-canonical gated text bind w e = ground (arith, fall_through-none gated bind)
branch-canonical gated text unbind w e = ground (arith, fall_through-none gated unbind)
branch-canonical gated text bindings w e = ground (arith, fall_through-none gated bindings)
branch-canonical gated text (other n) w e = ground (arith, fall_through-none gated (other n))

elem-word_eq :
    (v w : Word) (ws : List Word) → word_eq v w ≡ true → elem word_eq v ws ≡ elem word_eq w ws
unfolding elem word_eq
elem-word_eq v w [] e = refl
elem-word_eq v w (x ∷ xs) e = ground (arith, elem-word_eq v w xs)

resolve-reads :
    (supported : List Word) (text : Text)
    → (resolve supported text ≡ text.word) ⊎ (resolve supported text ≡ query)
unfolding resolve
resolve-reads supported text = ground arith

fall_through-other :
    (gated : Bool) (cmd : Word) → is_operation kicklock (fall_through gated cmd) ≡ false
unfolding is_operation fall_through
fall_through-other true cmd = refl
fall_through-other false cmd = refl

unsupported-other :
    (gated : Bool) (cmd : Word) → is_operation kicklock (unsupported gated cmd) ≡ false
unfolding is_operation unsupported
unsupported-other true cmd = refl
unsupported-other false cmd = refl

branch-kicklock :
    (gated : Bool) (text : Text) (cmd : Word)
    → is_operation kicklock (branch gated text cmd) ≡ false
unfolding branch is_operation word_eq word_index
branch-kicklock gated text lock = refl
branch-kicklock gated text slock = refl
branch-kicklock gated text unlock = refl
branch-kicklock gated text free = refl
branch-kicklock gated text kickout = refl
branch-kicklock gated text book = refl
branch-kicklock gated text take = refl
branch-kicklock gated text query = refl
branch-kicklock gated text help = refl
branch-kicklock gated text h = refl
branch-kicklock gated text alias = refl
branch-kicklock gated text kicklock = fall_through-other gated kicklock
branch-kicklock gated text bind = fall_through-other gated bind
branch-kicklock gated text unbind = fall_through-other gated unbind
branch-kicklock gated text bindings = fall_through-other gated bindings
branch-kicklock gated text (other n) = fall_through-other gated (other n)

is_binding-canonical : (cmd : Word) → is_binding (canonical_command cmd) ≡ is_binding cmd
unfolding canonical_command is_binding word_eq word_index
is_binding-canonical lock = refl
is_binding-canonical slock = refl
is_binding-canonical unlock = refl
is_binding-canonical free = refl
is_binding-canonical kickout = refl
is_binding-canonical book = refl
is_binding-canonical take = refl
is_binding-canonical query = refl
is_binding-canonical help = refl
is_binding-canonical h = refl
is_binding-canonical alias = refl
is_binding-canonical kicklock = refl
is_binding-canonical bind = refl
is_binding-canonical unbind = refl
is_binding-canonical bindings = refl
is_binding-canonical (other n) = refl

is_binding-word_eq :
    (v w : Word)
    → word_eq v w ≡ true
    → is_binding v ≡ false
    → (word_eq w bind ≡ false) × (word_eq w unbind ≡ false) × (word_eq w bindings ≡ false)
unfolding is_binding word_eq
is_binding-word_eq v w same free_ = ground arith

-- Whatever reaches something has passed the gates, and all three of them.
past_gates :
    (allowed supported : List Word) (text : Text) (w : Word)
    → reached (execute_text_command (some allowed) supported text) ≡ some w
    → let cmd = resolve supported text in
      (is_binding cmd ≡ false)
      × ((elem word_eq (canonical_command cmd) (map canonical_command allowed) ≡ true)
          × (elem word_eq cmd supported ≡ true))
      × (word_eq (canonical_command cmd) w ≡ true)
unfolding execute_text_command is_refused is_gated reached
past_gates allowed supported text w e =
    let cmd = resolve supported text in
    ground (arith, branch-canonical true text cmd w, unsupported-none true cmd)

-- A caller with an allowlist reaches a method of the bot, the binding hook or the help only under a
-- canonical word of the allowlist, and only by a word that the bot supports and of which that is the
-- canonical word: the first word of the text, or `query`. For such a caller the words of the binding
-- hook reach nothing, whatever the allowlist and the supported commands.
pub execute_text_command-allowed :
    (allowed supported : List Word) (text : Text) (w : Word)
    → reached (execute_text_command (some allowed) supported text) ≡ some w
    → (elem word_eq w (map canonical_command allowed) ≡ true)
      × ((cmd : Word) × (elem word_eq cmd supported ≡ true)
          × (word_eq (canonical_command cmd) w ≡ true)
          × ((cmd ≡ text.word) ⊎ (cmd ≡ query)))
      × (word_eq w bind ≡ false)
      × (word_eq w unbind ≡ false)
      × (word_eq w bindings ≡ false)
execute_text_command-allowed allowed supported text w e =
    let cmd = resolve supported text in
    let past = past_gates allowed supported text w e in
    let unbound =
      is_binding-word_eq (canonical_command cmd) w past.2 (is_binding-canonical cmd ∙ past.0) in
    (
      ground (arith, past, elem-word_eq (canonical_command cmd) w (map canonical_command allowed)),
      (cmd, ground (arith, past), past.2, resolve-reads supported text),
      unbound.0,
      unbound.1,
      unbound.2,
    )

-- No text reaches a method of a bot as `kicklock`, whatever the allowlist and the supported commands.
pub kicklock-unreached :
    (allowed : Option (List Word)) (supported : List Word) (text : Text)
    → is_operation kicklock (execute_text_command allowed supported text) ≡ false
unfolding execute_text_command is_operation
kicklock-unreached allowed supported text =
    let cmd = resolve supported text in
    ground
      (arith, branch-kicklock (is_gated allowed) text cmd, unsupported-other (is_gated allowed) cmd)
