-- ===== src/Manager/Retired.antt =====
-- A registration that is over is never swept again.
use lockbot.Base.{ℕ, ◌==◌, ◌≡◌, refl, Bool, true, false, ◌&&◌, ◌||◌, not, List, [], ◌∷◌, ltb, arith}
use lockbot.Scheduler.{is_stale}
use lockbot.Manager.{
  Slot, Request, Admission, admitted, refused, is_some, admit, sweep_request, enter, exit,
  release_lease, release_fatal, publish, open_admission, fail_generation, mark_retiring, retire,
}
use lockbot.Manager.World.{
  World, Stage, Event, admits, releases, settles, fails, enters, exits, begins, activates, opens,
  stops, retires, aborts, publishes, after_admit, release, settle_fatal, fail, enter_world,
  begin_start, publish_built, begin_activation, open_activated, begin_stop, end_stop, abort, leave,
  if_owner, step, run_events,
}
use lockbot.Manager.Admit.{Verdict, admit-Verdict}

-- A later generation has been published, or this one has no live instance any more.
unfoldable pub is_over : ℕ → Slot → Bool
is_over g s = ltb g s.generation || (s.generation == g && not (is_some s.live))

unfoldable pub is_turned_away : Admission → Bool
is_turned_away (admitted l s) = false
is_turned_away (refused why) = true

module _ (g : ℕ) where
  abbrev Over : World → Type 0
  Over w = is_over g w.slot ≡ true

  module _ (w : World) (over : Over w) where
    after_admit-Over :
        (max : ℕ) (r : Request) (a : Admission)
        → Verdict max r w.slot a
        → Over (after_admit r.enforce_cap w a)
    unfolding after_admit is_over
    after_admit-Over max r (admitted l s) v = ground arith
    after_admit-Over max r (refused why) v = over

    release-Over : (n : ℕ) → Over (release n w)
    unfolding release release_lease is_over
    release-Over n = ground arith

    settle_fatal-Over : (n : ℕ) → Over (settle_fatal n w)
    unfolding settle_fatal release_fatal is_over
    settle_fatal-Over n = ground arith

    fail-Over : (n : ℕ) → Over (fail n w)
    unfolding fail fail_generation is_over is_some
    fail-Over n = ground arith

    enter-Over : (me : ℕ) → Over (enter_world me w)
    unfolding enter_world enter is_over
    enter-Over me = ground arith

    leave-Over : (me : ℕ) (stage : Stage) → Over (leave me w stage)
    unfolding leave exit is_over
    leave-Over me stage = ground arith

    begin_start-Over : (stage : Stage) → Over (begin_start w stage)
    unfolding begin_start
    begin_start-Over stage = ground arith

    publish_built-Over : (i : ℕ) (stage : Stage) → Over (publish_built i w stage)
    unfolding publish_built publish is_over
    publish_built-Over i stage = ground arith

    begin_activation-Over : (stage : Stage) → Over (begin_activation w stage)
    unfolding begin_activation
    begin_activation-Over stage = ground arith

    open_activated-Over : (stage : Stage) → Over (open_activated w stage)
    unfolding open_activated open_admission is_over
    open_activated-Over stage = ground arith

    begin_stop-Over : (stage : Stage) → Over (begin_stop w stage)
    unfolding begin_stop mark_retiring is_over
    begin_stop-Over stage = ground arith

    end_stop-Over : (stage : Stage) → Over (end_stop w stage)
    unfolding end_stop retire is_over is_some
    end_stop-Over stage = ground arith

    abort-Over : (stage : Stage) → Over (abort w stage)
    unfolding abort
    abort-Over stage = ground arith

    if_owner-Over : (me : ℕ) (w' : World) → Over w' → Over (if_owner me w w')
    unfolding if_owner
    if_owner-Over me w' h = ground arith

    step-Over : (max : ℕ) (e : Event) → Over (step max e w)
    unfolding step
    step-Over max (admits r) =
        after_admit-Over max r (admit max r w.slot) (admit-Verdict max r w.slot)
    step-Over max (releases n) = release-Over n
    step-Over max (settles n) = settle_fatal-Over n
    step-Over max (fails n) = fail-Over n
    step-Over max (enters me) = enter-Over me
    step-Over max (exits me) = if_owner-Over me _ (leave-Over me w.stage)
    step-Over max (begins me) = if_owner-Over me _ (begin_start-Over w.stage)
    step-Over max (publishes me i) = if_owner-Over me _ (publish_built-Over i w.stage)
    step-Over max (activates me) = if_owner-Over me _ (begin_activation-Over w.stage)
    step-Over max (opens me) = if_owner-Over me _ (open_activated-Over w.stage)
    step-Over max (stops me) = if_owner-Over me _ (begin_stop-Over w.stage)
    step-Over max (retires me) = if_owner-Over me _ (end_stop-Over w.stage)
    step-Over max (aborts me) = if_owner-Over me _ (abort-Over w.stage)

  run_events-Over : (max : ℕ) (es : List Event) (w : World) → Over w → Over (run_events max es w)
  unfolding run_events
  run_events-Over max [] w over = over
  run_events-Over max (e ∷ es) w over =
      run_events-Over max es (step max e w) (step-Over w over max e)

sweep-refused :
    (max g i : ℕ) (s : Slot) (a : Admission)
    → is_over g s ≡ true
    → Verdict max (sweep_request g i) s a
    → is_turned_away a ≡ true
unfolding is_turned_away is_over sweep_request is_stale is_some
sweep-refused max g i s (admitted l s') over v = ground arith
sweep-refused max g i s (refused why) over v = refl

-- When a generation has been replaced, has been stopped or has failed, a sweep that was registered for
-- it is refused, after any further sections in any order: no replacement is ever swept in its place.
pub run_events-refuses_sweep :
    (max_inflight g i : ℕ) (es : List Event) (w : World)
    → is_over g w.slot ≡ true
    → is_turned_away (admit max_inflight (sweep_request g i) (run_events max_inflight es w).slot)
      ≡ true
run_events-refuses_sweep max g i es w over =
    let s = (run_events max es w).slot in
    sweep-refused max g i s (admit max (sweep_request g i) s) (run_events-Over g max es w over)
      (admit-Verdict max (sweep_request g i) s)
