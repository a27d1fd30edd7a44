-- ===== src/Reply.antt =====
-- Replies and exceptions, and the two ways in which a handler ends early.
-- A reply is the catalogue key of its text with the users that it mentions: the text itself, the
-- usage table and the platform's envelope are left to the adapter.
-- Source: python/lockbot/core/base_bot.py (`show_error`) and python/lockbot/core/command_result.py.
use lockbot.Base.{ℕ, Bool, true, false, List, [], ◌∷◌, Option, none, some, ◌≡◌, refl, ◌⊎◌, inl, inr}
use lockbot.Keys.{Key}

pub data Message : Type 0 where
  invalid_command_format duration_must_be_positive : Message
  invalid_node_key : ℕ → Message
  dev_id_range_invalid : ℕ → ℕ → Message
  dev_id_out_of_range : ℕ → ℕ → Message
  node_in_use_or_shared node_exclusive_mode node_not_requested : Message
  node_in_use_or_not_your_turn already_locked locked_user_cannot_take : Message
  slock_not_supported : Message
  device_in_use_or_shared device_exclusive_mode device_not_requested : ℕ → Message
  lock_max_duration_exceeded slock_max_duration_exceeded : Message
  resource_count_limit relock_forbidden claim_duration_limit : Message
  resource_locked resource_released resource_force_released : Message
  booking_added take_success kicklock_cleared : Message

pub data Operation : Type 0 where
  lock slock unlock : Operation

pub data Exception : Type 0 where
  key_error index_error assertion_error acquisition_limit_exceeded no_active_locks : Exception
  unknown_resources : Exception

-- `kicked` is the answer of an operator's kick: the freed resources, and who is told.
-- `completed` is a reply that `completed_reply` marks: its operation, and whether a reaction may
-- stand for it.
pub data Result : Type 0 where
  replied : Message → List ℕ → Result
  completed : Operation → Bool → Message → List ℕ → Result
  kicked : List Key → List ℕ → Result
  raised : Exception → Result

unfoldable pub show_error : ℕ → Message → Result
show_error user msg = replied msg (user ∷ [])

-- What a handler leaves: the state in memory, whether `_save_and_notify` was reached, the result.
pub record Outcome (S : Type 0) : Type 0 where
  pub state : S
  pub saved : Bool
  pub result : Result

-- The part of a handler before its first mutation: it goes on with a value, or stops.
pub data Check {ℓ} (A : Type ℓ) : Type ℓ where
  pass : A → Check A
  stop : Result → Check A

infixl 5 ◌>>=◌ ◌>>◌
abbrev pub ◌>>=◌ {ℓ κ} : {A : Type ℓ} {B : Type κ} → Check A → (A → Check B) → Check B
pass a >>= f = f a
stop r >>= f = stop r

abbrev pub ◌>>◌ {ℓ} : {B : Type ℓ} → Check (Unit {0}) → Check B → Check B
m >> k = m >>= λ _. k

-- `if not ok: return r`.
abbrev pub require : Bool → Result → Check (Unit {0})
require true r = pass tt
require false r = stop r

-- A value that is there, or the exception of its absence.
abbrev pub or_raise {ℓ} : {A : Type ℓ} → Option A → Exception → Check A
or_raise (some a) x = pass a
or_raise none x = stop (raised x)

-- A handler that stops before its first mutation leaves the state alone.
abbrev pub run : {S : Type 0} → S → Check (Outcome S) → Outcome S
run s (pass o) = o
run s (stop r) = record { state = s; saved = false; result = r }

pub Check-cases {ℓ} :
    {A : Type ℓ} (m : Check A) → ((r : Result) × (m ≡ stop r)) ⊎ ((a : A) × (m ≡ pass a))
Check-cases (pass a) = inr (a, refl)
Check-cases (stop r) = inl (r, refl)

-- The outcome of a handler that stops before its first mutation.
abbrev pub stopped : {S : Type 0} → S → Result → Outcome S
stopped s r = record { state = s; saved = false; result = r }

-- The rules for the checks at the head of a handler: what holds of every stop, and of what the rest
-- makes of a pass, holds of the handler.
module _ {S : Type 0} (P : Outcome S → Type 0) (s : S) (no_ : (x : Result) → P (stopped s x)) where
  pub bind_cases :
      {A : Type 0} (m : Check A) (f : A → Check (Outcome S))
      → ((a : A) → m ≡ pass a → P (run s (f a)))
      → P (run s (m >>= f))
  bind_cases (pass a) f h = h a refl
  bind_cases (stop x) f h = no_ x

  pub raise_cases :
      {A : Type 0} (o : Option A) (x : Exception) (f : A → Check (Outcome S))
      → ((a : A) → o ≡ some a → P (run s (f a)))
      → P (run s (or_raise o x >>= f))
  raise_cases none x f h = no_ _
  raise_cases (some a) x f h = h a refl

  pub require_cases :
      (b : Bool) (x : Result) (f : Check (Outcome S))
      → (b ≡ true → P (run s f))
      → P (run s (require b x >> f))
  require_cases false x f h = no_ x
  require_cases true x f h = h refl
