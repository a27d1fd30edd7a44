-- ===== src/Manager/World.antt =====
-- The sections of the manager's lock for one bot, interleaved: operations, fatal errors and the
-- transitions of the bot by any number of threads.
use lockbot.Base.{
  ℕ, ◌-◌, ◌==◌, Bool, false, ◌||◌, Option, none, some, List, [], ◌∷◌, ◌++◌, if◌then◌else◌,
}
use lockbot.Manager.{
  Slot, Lease, Request, Admission, admitted, refused, enter, exit, admit, release_lease,
  release_fatal, start_refusal, publish, to_activate, open_admission, fail_generation,
  mark_retiring, is_drained, retire, needs_stop,
}

-- An operation that was admitted and is not over, and whether it came under the cap.
pub record Held : Type 0 where
  pub lease : Lease
  pub under_cap : Bool

-- Where the thread that owns the transition is: between calls, constructing an instance, registering
-- an instance of a generation with the scheduler, or waiting to retire a generation.
pub data Stage : Type 0 where
  idle building : Stage
  activating : ℕ → ℕ → Stage
  draining : ℕ → Stage

-- `fatals` are the generations whose fatal completions are being written.
pub record World : Type 0 where
  pub slot : Slot
  pub leases : List Held
  pub fatals : List ℕ
  pub stage : Stage

-- The first argument of a transition's event is its thread. `aborts` is an exception of the step at
-- hand: a construction or registration that fails, or a wait that times out.
pub data Event : Type 0 where
  admits : Request → Event
  releases settles : ℕ → Event
  fails : ℕ → Event
  enters exits begins activates opens stops retires aborts : ℕ → Event
  publishes : ℕ → ℕ → Event

unfoldable pub drop_nth {ℓ} : {A : Type ℓ} → ℕ → List A → List A
drop_nth n [] = []
drop_nth n (x ∷ xs) = if n == 0 then xs else x ∷ drop_nth (n - 1) xs

unfoldable pub owns : ℕ → Option (ℕ × ℕ) → Bool
owns me none = false
owns me (some (t, depth)) = t == me

unfoldable pub has_nth {ℓ} : {A : Type ℓ} → ℕ → List A → Bool
has_nth n [] = false
has_nth n (x ∷ xs) = n == 0 || has_nth (n - 1) xs

unfoldable pub after_admit : Bool → World → Admission → World
after_admit under_cap w (refused why) = w
after_admit under_cap w (admitted l s) = record w {
  slot = s;
  leases = record { lease = l; under_cap = under_cap } ∷ w.leases;
}

unfoldable pub release : ℕ → World → World
release n w =
    if has_nth n w.leases
    then record w { slot = release_lease w.slot; leases = drop_nth n w.leases }
    else w

unfoldable pub settle_fatal : ℕ → World → World
settle_fatal n w =
    if has_nth n w.fatals
    then record w { slot = release_fatal w.slot; fatals = drop_nth n w.fatals }
    else w

unfoldable pub fail : ℕ → World → World
fail g w = elim (fail_generation g w.slot) [
  | none ↦ w
  | some s ↦ record w { slot = s; fatals = g ∷ w.fatals }
]

unfoldable pub enter_world : ℕ → World → World
enter_world me w = elim (enter me w.slot) [ none ↦ w | some s ↦ record w { slot = s } ]

-- The steps of the owner, by the stage that it is at.
unfoldable pub begin_start : World → Stage → World
begin_start w idle = elim (start_refusal w.slot) [
  | none ↦ record w { stage = building }
  | some why ↦ w
]
begin_start w stage = w

unfoldable pub publish_built : ℕ → World → Stage → World
publish_built i w building = record w { slot = publish i w.slot; stage = idle }
publish_built i w stage = w

unfoldable pub begin_activation : World → Stage → World
begin_activation w idle = elim (to_activate w.slot) [
  | none ↦ w
  | some (i, g) ↦ record w { stage = activating i g }
]
begin_activation w stage = w

unfoldable pub open_activated : World → Stage → World
open_activated w (activating i g) = record w { slot = open_admission g w.slot; stage = idle }
open_activated w stage = w

unfoldable pub begin_stop : World → Stage → World
begin_stop w idle = elim (mark_retiring w.slot) [
  | none ↦ w
  | some (s, g) ↦ record w { slot = s; stage = draining g }
]
begin_stop w stage = w

unfoldable pub end_stop : World → Stage → World
end_stop w (draining g) =
    if is_drained w.slot then record w { slot = retire g w.slot; stage = idle } else w
end_stop w stage = w

-- A wait times out only while something is outstanding.
unfoldable pub abort : World → Stage → World
abort w (draining g) = if is_drained w.slot then w else record w { stage = idle }
abort w stage = record w { stage = idle }

unfoldable pub leave : ℕ → World → Stage → World
leave me w idle = record w { slot = exit me w.slot }
leave me w stage = w

unfoldable pub if_owner : ℕ → World → World → World
if_owner me w then_ = if owns me w.slot.owner then then_ else w

unfoldable pub step : ℕ → Event → World → World
step max_inflight (admits r) w = after_admit r.enforce_cap w (admit max_inflight r w.slot)
step max_inflight (releases n) w = release n w
step max_inflight (settles n) w = settle_fatal n w
step max_inflight (fails g) w = fail g w
step max_inflight (enters me) w = enter_world me w
step max_inflight (exits me) w = if_owner me w (leave me w w.stage)
step max_inflight (begins me) w = if_owner me w (begin_start w w.stage)
step max_inflight (publishes me i) w = if_owner me w (publish_built i w w.stage)
step max_inflight (activates me) w = if_owner me w (begin_activation w w.stage)
step max_inflight (opens me) w = if_owner me w (open_activated w w.stage)
step max_inflight (stops me) w = if_owner me w (begin_stop w w.stage)
step max_inflight (retires me) w = if_owner me w (end_stop w w.stage)
step max_inflight (aborts me) w = if_owner me w (abort w w.stage)

unfoldable pub run_events : ℕ → List Event → World → World
run_events max_inflight [] w = w
run_events max_inflight (e ∷ es) w = run_events max_inflight es (step max_inflight e w)

-- The calls, as the events of one thread: `start_bot` with activation, `stop_bot`, `restart_bot`.
unfoldable pub start_bot : ℕ → ℕ → List Event
start_bot me i = enters me ∷ begins me ∷ publishes me i ∷ activates me ∷ opens me ∷ exits me ∷ []

unfoldable pub stop_bot : ℕ → List Event
stop_bot me = enters me ∷ stops me ∷ retires me ∷ exits me ∷ []

unfoldable pub restart_bot : ℕ → ℕ → Slot → List Event
restart_bot me i s =
    enters me ∷ (if needs_stop s then stop_bot me else []) ++ (start_bot me i ++ exits me ∷ [])
