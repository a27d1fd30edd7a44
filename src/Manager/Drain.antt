-- ===== src/Manager/Drain.antt =====
-- A stop ends once what is outstanding is over, and a restart leaves the new instance alone.
use lockbot.Base.{
  ℕ, ◌≡◌, ◌∙◌, refl, ap, subst, true, Option, List, [], ◌∷◌, ◌++◌, length, arith, ==_refl,
}
use lockbot.Manager.{Slot, is_drained, retire, release_lease, release_fatal, fresh_slot}
use lockbot.Manager.World.{
  World, Held, Stage, idle, draining, Event, releases, settles, retires, has_nth, drop_nth, owns,
  release, settle_fatal, end_stop, if_owner, step, run_events,
}
use lockbot.Manager.Sound.{Sound, agrees}

pub run_events-append :
    (max : ℕ) (es fs : List Event) (w : World)
    → run_events max (es ++ fs) w ≡ run_events max fs (run_events max es w)
unfolding run_events
run_events-append max [] fs w = refl
run_events-append max (e ∷ es) fs w = run_events-append max es fs (step max e w)

-- The operations that are outstanding end one after the other, and likewise the fatal completions.
abbrev pub release_all : List Held → List Event
release_all [] = []
release_all (h ∷ hs) = releases 0 ∷ release_all hs

abbrev pub settle_all : List ℕ → List Event
settle_all [] = []
settle_all (g ∷ gs) = settles 0 ∷ settle_all gs

run_events-release_all :
    (max : ℕ) (s : Slot) (hs : List Held) (fatals : List ℕ) (stage : Stage)
    → s.inflight ≡ length hs
    → run_events max
        (release_all hs)
        (record { slot = s; leases = hs; fatals = fatals; stage = stage })
      ≡ record { slot = record s { inflight = 0 }; leases = []; fatals = fatals; stage = stage }
unfolding run_events step release release_lease has_nth drop_nth
run_events-release_all max s [] fatals stage e =
    ap
      (λ n. record {
        slot = record s { inflight = n };
        leases = [];
        fatals = fatals;
        stage = stage;
      })
      e
run_events-release_all max s (h ∷ hs) fatals stage e =
    run_events-release_all max (release_lease s) hs fatals stage (omega (arith, e))

run_events-settle_all :
    (max : ℕ) (s : Slot) (fatals : List ℕ) (stage : Stage)
    → s.fatal_pending ≡ length fatals
    → run_events max
        (settle_all fatals)
        (record { slot = s; leases = []; fatals = fatals; stage = stage })
      ≡ record { slot = record s { fatal_pending = 0 }; leases = []; fatals = []; stage = stage }
unfolding run_events step settle_fatal release_fatal has_nth drop_nth
run_events-settle_all max s [] stage e =
    ap
      (λ n. record {
        slot = record s { fatal_pending = n };
        leases = [];
        fatals = [];
        stage = stage;
      })
      e
run_events-settle_all max s (g ∷ gs) stage e =
    run_events-settle_all max (release_fatal s) gs stage (omega (arith, e))

-- Nothing is registered for the bot, and no transition but the owner's is left of it.
unfoldable pub stopped : ℕ → Option (ℕ × ℕ) → World
stopped generation owner = record {
  slot = record fresh_slot { generation = generation; owner = owner };
  leases = [];
  fatals = [];
  stage = idle;
}

retires_drained :
    (max me g : ℕ) (s : Slot)
    → s.generation ≡ g
    → owns me s.owner ≡ true
    → step max (retires me) (record {
      slot = record s { inflight = 0; fatal_pending = 0 };
      leases = [];
      fatals = [];
      stage = draining g;
    })
      ≡ stopped g s.owner
unfolding step if_owner end_stop is_drained retire stopped fresh_slot
retires_drained max me g s gen mine = rw (gen, mine, ==_refl g) refl

draining_generation :
    (s : Slot) (stage : Stage) (g : ℕ)
    → stage ≡ draining g
    → agrees s stage ≡ true
    → s.generation ≡ g
unfolding agrees
draining_generation s stage g e a =
    let there : agrees s (draining g) ≡ true = subst (λ st. agrees s st ≡ true) e a in ground arith

-- A stop that waits to retire a generation succeeds once the outstanding operations and fatal
-- completions are over: nothing of the bot is registered then, live or failed, nothing is counted, the
-- bot is not retiring any more, and its generation and the transition's owner are what they were.
pub run_events-stops :
    (max_inflight me g : ℕ) (w : World)
    → Sound max_inflight w
    → w.stage ≡ draining g
    → owns me w.slot.owner ≡ true
    → run_events max_inflight (release_all w.leases ++ (settle_all w.fatals ++ retires me ∷ [])) w
      ≡ stopped g w.slot.owner
unfolding run_events
run_events-stops max me g w sound draining_ mine =
    let released : World = record w { slot = record w.slot { inflight = 0 }; leases = [] } in
    let at_rest : World = record {
      slot = record w.slot { inflight = 0; fatal_pending = 0 };
      leases = [];
      fatals = [];
      stage = w.stage;
    } in
    let es = settle_all w.fatals ++ retires me ∷ [] in
    run_events-append max (release_all w.leases) es w
    ∙ ap (run_events max es) (run_events-release_all max w.slot w.leases w.fatals w.stage sound.0)
    ∙ run_events-append max (settle_all w.fatals) (retires me ∷ []) released
    ∙ ap (step max (retires me)) (run_events-settle_all max released.slot w.fatals w.stage sound.1)
    ∙ ap (λ stage. step max (retires me) (record at_rest { stage = stage })) draining_
    ∙ retires_drained max me g w.slot (draining_generation w.slot w.stage g draining_ sound.7) mine
