-- ===== src/Manager.antt =====
-- python/lockbot/backend/app/bots/manager.py: admission of operations and the lifecycle of a bot's
-- instance. Each function is one section of the manager's lock, on the entries that its dictionaries
-- have for one bot. Instances and threads are numbers.
use lockbot.Base.{
  ℕ, ◌+◌, ◌-◌, Bool, true, false, ◌&&◌, ◌||◌, not, Option, none, some, ltb, leb, ◌==◌,
  if◌then◌else◌,
}
use lockbot.Scheduler.{is_stale}
pub mod World
pub mod Admit
pub mod Sound
pub mod Steps
pub mod Transitions
pub mod Retiring
pub mod Retired
pub mod Drain
pub mod Restart
pub mod Lifecycle
pub mod Refines
pub mod Lives

pub data Health : Type 0 where
  running error : Health

-- The errors: InstanceRetiring, BotNotRunning, AdmissionFull, and the RuntimeError of a second start.
pub data Refusal : Type 0 where
  instance_retiring bot_not_running admission_full already_running : Refusal

-- The entries of one bot. A missing count or generation is 0, as `get(bot_id, 0)` reads it; a count is
-- never kept at 0, so `bot_id in _fatal_pending` is that it is not 0. `owner` is [thread, depth].
pub record Slot : Type 0 where
  pub live : Option ℕ
  pub failed : Option ℕ
  pub retiring : Bool
  pub inflight : ℕ
  pub generation : ℕ
  pub health : Option Health
  pub staged : Option ℕ
  pub fatal_pending : ℕ
  pub owner : Option (ℕ × ℕ)

pub record Lease : Type 0 where
  pub generation : ℕ
  pub instance : ℕ
  pub health : Option Health

-- `BotManager.__init__`, for one bot.
unfoldable pub fresh_slot : Slot
fresh_slot = record {
  live = none;
  failed = none;
  retiring = false;
  inflight = 0;
  generation = 0;
  health = none;
  staged = none;
  fatal_pending = 0;
  owner = none;
}

-- `d.get(k) == n`, and `k in d`.
unfoldable pub is_at : Option ℕ → ℕ → Bool
is_at none n = false
is_at (some m) n = m == n

unfoldable pub is_some {ℓ} : {A : Type ℓ} → Option A → Bool
is_some none = false
is_some (some a) = true

-- `transition`: the owner's entry on the way in (none: refused) and on the way out.
unfoldable pub enter_owner : ℕ → Option (ℕ × ℕ) → Option (ℕ × ℕ)
enter_owner me none = some (me, 1)
enter_owner me (some (t, depth)) = if t == me then some (t, depth + 1) else none

unfoldable pub enter : ℕ → Slot → Option Slot
enter me s = elim (enter_owner me s.owner) [
  | none ↦ none
  | some o ↦ some (record s { owner = some o })
]

unfoldable pub exit_owner : ℕ → Option (ℕ × ℕ) → Option (ℕ × ℕ)
exit_owner me none = none
exit_owner me (some (t, depth)) =
    if t == me then (if leb depth 1 then none else some (t, depth - 1)) else some (t, depth)

unfoldable pub exit : ℕ → Slot → Slot
exit me s = record s { owner = exit_owner me s.owner }

-- The instance that `admit` leases, and the health that it reports.
pub data Found : Type 0 where
  found : ℕ → Option Health → Found
  missing : Refusal → Found

unfoldable pub health_or_error : Option Health → Option Health
health_or_error none = some error
health_or_error (some h) = some h

unfoldable pub find_failed : Slot → Option ℕ → Found
find_failed s none = missing bot_not_running
find_failed s (some i) = found i (health_or_error s.health)

unfoldable pub find_instance : Bool → Slot → Option ℕ → Found
find_instance for_read s (some i) =
    if is_at s.staged s.generation then missing instance_retiring else found i s.health
find_instance for_read s none = if for_read then find_failed s s.failed else missing bot_not_running

pub data Admission : Type 0 where
  admitted : Lease → Slot → Admission
  refused : Refusal → Admission

-- How an operation asks: `enforce_cap`, `for_read`, and the registration that it is bound to.
pub record Request : Type 0 where
  pub enforce_cap : Bool
  pub for_read : Bool
  pub expected_generation : Option ℕ
  pub expected_instance : Option ℕ

unfoldable pub admit_instance : ℕ → Request → Slot → Found → Admission
admit_instance max_inflight r s (missing why) = refused why
admit_instance max_inflight r s (found i health) =
    if is_stale r.expected_generation s.generation
    then refused instance_retiring
    else if is_stale r.expected_instance i
    then refused instance_retiring
    else if r.enforce_cap && leb max_inflight s.inflight
    then refused admission_full
    else admitted (record { generation = s.generation; instance = i; health = health })
        (record s { inflight = s.inflight + 1 })

unfoldable pub admit : ℕ → Request → Slot → Admission
admit max_inflight r s =
    if s.retiring
    then refused instance_retiring
    else admit_instance max_inflight r s (find_instance r.for_read s s.live)

-- The admission of the scheduler's sweep of a registered generation and instance.
unfoldable pub sweep_request : ℕ → ℕ → Request
sweep_request generation instance = record {
  enforce_cap = false;
  for_read = false;
  expected_generation = some generation;
  expected_instance = some instance;
}

-- `_release_obligation`, for a lease and for a fatal completion.
unfoldable pub release_lease : Slot → Slot
release_lease s = record s { inflight = s.inflight - 1 }

unfoldable pub release_fatal : Slot → Slot
release_fatal s = record s { fatal_pending = s.fatal_pending - 1 }

unfoldable pub lease_is_current : Lease → Slot → Bool
lease_is_current l s = s.generation == l.generation && is_at s.live l.instance

-- `start_bot`: whether it may construct an instance, and the publication of the constructed one.
unfoldable pub start_refusal : Slot → Option Refusal
start_refusal s =
    if is_some s.live
    then some already_running
    else if s.retiring || (is_some s.failed || ltb 0 s.fatal_pending)
    then some instance_retiring
    else none

unfoldable pub publish : ℕ → Slot → Slot
publish i s = record s {
  live = some i;
  generation = s.generation + 1;
  health = some running;
  staged = some (s.generation + 1);
}

-- `_activate_generation`: what is to be registered with the scheduler, and the opening of admission.
unfoldable pub to_activate : Slot → Option (ℕ × ℕ)
to_activate s = elim s.live [
  | none ↦ none
  | some i ↦ if is_at s.staged s.generation then some (i, s.generation) else none
]

unfoldable pub open_admission : ℕ → Slot → Slot
open_admission generation s = if is_at s.staged generation then record s { staged = none } else s

-- The handler of a fatal error of `expected`; none where it does nothing.
unfoldable pub fail_generation : ℕ → Slot → Option Slot
fail_generation expected s =
    if not (s.generation == expected) || is_at s.staged expected then none else elim s.live [
      | none ↦ none
      | some i ↦ some (record s {
        live = none;
        failed = some i;
        health = some error;
        fatal_pending = s.fatal_pending + 1;
      })
    ]

-- The handler's check before it writes the status.
unfoldable pub still_ours : Slot → ℕ → Bool
still_ours s expected = s.generation == expected && is_some s.failed

-- `stop_bot`: the mark and the generation it retires, the condition of the wait, the retirement.
unfoldable pub mark_retiring : Slot → Option (Slot × ℕ)
mark_retiring s =
    if is_some s.live || is_some s.failed
    then some (record s { retiring = true }, s.generation)
    else none

unfoldable pub is_drained : Slot → Bool
is_drained s = s.inflight == 0 && s.fatal_pending == 0

unfoldable pub retire : ℕ → Slot → Slot
retire generation s =
    if s.generation == generation
    then record s {
      live = none;
      failed = none;
      inflight = 0;
      health = none;
      staged = none;
      retiring = false;
    }
    else s

-- `restart_bot`: whether its stop half is needed.
unfoldable pub needs_stop : Slot → Bool
needs_stop s = is_some s.live || is_some s.failed
