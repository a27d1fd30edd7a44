-- ===== src/Manager/Restart.antt =====
-- The calls by one thread that nothing else interferes with.
use lockbot.Base.{
  ℕ, ◌+◌, ◌≡◌, ◌∙◌, refl, ap, true, false, Option, none, some, [], ◌∷◌, ◌++◌, if◌then◌else◌, arith,
  ==_refl, Bool-cases, inl, inr,
}
use lockbot.Manager.{
  Slot, running, is_at, is_some, is_drained, retire, enter, enter_owner, exit, exit_owner,
  start_refusal, publish, to_activate, open_admission, mark_retiring, needs_stop, fresh_slot,
}
use lockbot.Manager.World.{
  World, idle, enters, exits, owns, enter_world, begin_start, publish_built, begin_activation,
  open_activated, begin_stop, end_stop, leave, if_owner, step, run_events, start_bot, stop_bot,
  restart_bot,
}
use lockbot.Manager.Sound.{is_coherent}
use lockbot.Manager.Drain.{stopped, run_events-append}

-- A bot with nothing outstanding, which no transition owns.
abbrev pub at_rest : Slot → World
at_rest s = record { slot = s; leases = []; fatals = []; stage = idle }

-- The new instance serves, under the generation after the old one.
unfoldable pub serving : ℕ → ℕ → Option (ℕ × ℕ) → World
serving i generation owner = record {
  slot = record fresh_slot {
    live = some i;
    health = some running;
    generation = generation;
    owner = owner;
  };
  leases = [];
  fatals = [];
  stage = idle;
}

run_events-start_bot :
    (max me i g : ℕ)
    → run_events max (start_bot me i) (stopped g (some (me, 1))) ≡ serving i (g + 1) (some (me, 1))
unfolding run_events step start_bot if_owner owns enter_world enter enter_owner begin_start
    start_refusal publish_built publish begin_activation to_activate open_activated open_admission
    leave exit exit_owner is_at is_some stopped serving fresh_slot
run_events-start_bot max me i g = ground (arith, ==_refl me, ==_refl (g + 1))

run_events-stop_bot :
    (max me : ℕ) (s : Slot)
    → needs_stop s ≡ true
    → s.inflight ≡ 0
    → s.fatal_pending ≡ 0
    → s.owner ≡ some (me, 1)
    → run_events max (stop_bot me) (at_rest s) ≡ stopped s.generation (some (me, 1))
unfolding run_events step stop_bot if_owner owns enter_world enter enter_owner begin_stop
    mark_retiring end_stop is_drained retire leave exit exit_owner is_some stopped fresh_slot
    needs_stop
run_events-stop_bot max me s needed none_ no_fatal mine =
    ground (arith, ==_refl me, ==_refl s.generation)

-- Without an instance, live or failed, a coherent slot holds nothing else.
nothing_to_stop :
    (s : Slot) (me : ℕ)
    → needs_stop s ≡ false
    → is_coherent s ≡ true
    → s.retiring ≡ false
    → s.inflight ≡ 0
    → s.fatal_pending ≡ 0
    → at_rest (record s { owner = some (me, 1) }) ≡ stopped s.generation (some (me, 1))
unfolding needs_stop is_coherent is_some stopped fresh_slot
nothing_to_stop s me never c retiring none_ no_fatal = ground arith

leave-serving :
    (max me i g : ℕ) → step max (exits me) (serving i g (some (me, 1))) ≡ serving i g none
unfolding step if_owner owns leave exit exit_owner serving fresh_slot
leave-serving max me i g = ground (arith, ==_refl me)

after_stop :
    (max me : ℕ) (s : Slot)
    → is_coherent s ≡ true
    → s.retiring ≡ false
    → s.inflight ≡ 0
    → s.fatal_pending ≡ 0
    → run_events max
        (if needs_stop s then stop_bot me else [])
        (at_rest (record s { owner = some (me, 1) }))
      ≡ stopped s.generation (some (me, 1))
unfolding needs_stop run_events
after_stop max me s c retiring none_ no_fatal = elim (Bool-cases (needs_stop s)) [
  | inl needed ↦
      rw needed
        (run_events-stop_bot max me (record s { owner = some (me, 1) }) needed none_ no_fatal refl)
  | inr never ↦ rw never (nothing_to_stop s me never c retiring none_ no_fatal)
]

enters-at_rest :
    (max me : ℕ) (s : Slot)
    → s.owner ≡ none
    → step max (enters me) (at_rest s) ≡ at_rest (record s { owner = some (me, 1) })
unfolding step enter_world enter enter_owner
enters-at_rest max me s free = ground arith

-- A restart that no other thread interferes with, of a bot that has a live or a failed instance or
-- none, and nothing outstanding: the new instance is live, activated and running under the next
-- generation, nothing is retained or retiring, and the transition has no owner.
pub run_events-restarts :
    (max_inflight me i : ℕ) (s : Slot)
    → is_coherent s ≡ true
    → s.owner ≡ none
    → s.retiring ≡ false
    → s.inflight ≡ 0
    → s.fatal_pending ≡ 0
    → run_events max_inflight (restart_bot me i s) (at_rest s) ≡ serving i (s.generation + 1) none
unfolding restart_bot run_events
run_events-restarts max me i s c free retiring none_ no_fatal =
    let entered = at_rest (record s { owner = some (me, 1) }) in
    let stops_ = if needs_stop s then stop_bot me else [] in
    let rest = start_bot me i ++ exits me ∷ [] in
    ap (run_events max (stops_ ++ rest)) (enters-at_rest max me s free)
    ∙ run_events-append max stops_ rest entered
    ∙ ap (run_events max rest) (after_stop max me s c retiring none_ no_fatal)
    ∙ run_events-append max (start_bot me i) (exits me ∷ []) (stopped s.generation (some (me, 1)))
    ∙ ap (step max (exits me)) (run_events-start_bot max me i s.generation)
    ∙ leave-serving max me i (s.generation + 1)
