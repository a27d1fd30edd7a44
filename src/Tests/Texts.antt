-- ===== src/Tests/Texts.antt =====
-- The dispatcher.
use lockbot.Base.{true, ◌≡◌, ◌⊎◌, refl, none, [], ◌∷◌, map, some, elem, false}
use lockbot.Handler.{
  Word, Text, word_eq, word_index, canonical_command, is_binding, resolve, is_refused, is_gated,
  branch, execute_text_command,
}
use lockbot.Handler.Gates.{is_operation, reached, execute_text_command-allowed, kicklock-unreached}

-- `free ...`, for a caller that may unlock.
abbrev freeing : Text
freeing = record { word = Word.free; blank = false; node = none }

freeing-reached :
    reached (
      execute_text_command
        (some (Word.unlock ∷ []))
        (Word.lock ∷ Word.unlock ∷ Word.free ∷ [])
        freeing)
    ≡ some Word.unlock
unfolding reached execute_text_command is_refused is_gated resolve branch is_binding word_eq
    word_index canonical_command elem
freeing-reached = refl

execute_text_command-allowed_example :
    (elem word_eq Word.unlock (map canonical_command (Word.unlock ∷ [])) ≡ true)
    × ((cmd : Word) × (elem word_eq cmd (Word.lock ∷ Word.unlock ∷ Word.free ∷ []) ≡ true)
        × (word_eq (canonical_command cmd) Word.unlock ≡ true)
        × ((cmd ≡ Word.free) ⊎ (cmd ≡ Word.query)))
    × (word_eq Word.unlock Word.bind ≡ false)
    × (word_eq Word.unlock Word.unbind ≡ false)
    × (word_eq Word.unlock Word.bindings ≡ false)
execute_text_command-allowed_example =
    execute_text_command-allowed (Word.unlock ∷ []) (Word.lock ∷ Word.unlock ∷ Word.free ∷ [])
      freeing Word.unlock freeing-reached

kicklock-unreached_example :
    is_operation Word.kicklock (
      execute_text_command none
        (Word.lock ∷ Word.kicklock ∷ [])
        (record { word = Word.kicklock; blank = false; node = none }))
    ≡ false
kicklock-unreached_example =
    kicklock-unreached none (Word.lock ∷ Word.kicklock ∷ [])
      (record { word = Word.kicklock; blank = false; node = none })
