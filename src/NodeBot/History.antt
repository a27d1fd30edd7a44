-- ===== src/NodeBot/History.antt =====
-- The histories of a node bot: its commands, the operator's kick and the timer's sweep.
use lockbot.Base.{ℕ, ◌≡◌, Option, List, [], ◌∷◌, arith, Bool-cases, Option-cases, inl, inr}
use lockbot.Keys.{Key}
use lockbot.Users.{Request, has_user}
use lockbot.State.{Entry, Store, lookup}
use lockbot.State.Laws.{EachEntry, modify-EachEntry, modify_all-EachEntry, modify_each-EachEntry}
use lockbot.Config.{Config}
use lockbot.Command.{Match}
use lockbot.Sweep.{check_and_notify}
use lockbot.Sweep.Laws.{check_and_notify-EachEntry}
use lockbot.NodeBot.{
  lock, slock, unlock, unlock_all, UnlockText, bare, named, kickout, do_opkick, opkick_loop,
  opkick_step, opkick_result, opkick_targets, lock_entry, slock_entry, release_entry, unlock_entry,
  clear_entry, kick_entry,
}
use lockbot.NodeBot.Cases.{lock_cases, slock_cases, unlock_cases, kickout_cases}
use lockbot.NodeBot.Invariant.{
  IsSound, lock_entry-IsSound, slock_entry-IsSound, release_entry-IsSound, unlock_entry-IsSound,
  clear_entry-IsSound, kick_entry-IsSound, sweep_entry-IsSound,
}

-- What can happen to a node bot: who does it, and what was matched.
pub data Event : Type 0 where
  locks slocks : Request → ℕ → Option Match → Option ℕ → Event
  unlocks : ℕ → UnlockText → Event
  kickouts : ℕ → Option Match → Event
  opkicks : ℕ → Option Key → Event
  sweeps : ℕ → Event

unfoldable pub step : Config → Event → Store → Store
step cfg (locks r user text limit) s = (lock cfg r user text limit s).state
step cfg (slocks r user text limit) s = (slock cfg r user text limit s).state
step cfg (unlocks user text) s = (unlock cfg user text s).state
step cfg (kickouts user text) s = (kickout cfg user text s).state
step cfg (opkicks user key) s = (do_opkick user key s).state
step cfg (sweeps now) s = (check_and_notify cfg now s).state

unfoldable pub history : Config → List Event → Store → Store
history cfg [] s = s
history cfg (c ∷ cs) s = history cfg cs (step cfg c s)

-- Each entry is sound.
abbrev pub AllSound : Store → Type 0
AllSound = EachEntry (λ k e. IsSound e)

module _ (P : Key → Entry → Type 0) (user : ℕ)
    (h : (k : Key) (e : Entry) → P k e → P k (kick_entry user k e)) where
  opkick_step-EachEntry :
      (k : Key) (acc : Store × List Key)
      → EachEntry P acc.0
      → EachEntry P (opkick_step user k acc).0
  unfolding opkick_step
  opkick_step-EachEntry k (s, freed) a = elim (Option-cases (lookup k s)) [
    | inl miss ↦ rw (miss, opkick_step) a
    | inr (e, hit) ↦
        rw (hit, opkick_step)
          (elim (Bool-cases (has_user e.current_users user)) [
            | inl here ↦ rw here (modify-EachEntry P (kick_entry user) h k s a)
            | inr gone ↦ rw gone a
          ])
  ]

  pub opkick_loop-EachEntry :
      (ks : List Key) (acc : Store × List Key)
      → EachEntry P acc.0
      → EachEntry P (opkick_loop user ks acc).0
  unfolding opkick_loop
  opkick_loop-EachEntry [] acc a = a
  opkick_loop-EachEntry (k ∷ ks) acc a =
      opkick_loop-EachEntry ks (opkick_step user k acc) (opkick_step-EachEntry k acc a)

pub do_opkick-state :
    (user : ℕ) (key : Option Key) (s : Store)
    → (do_opkick user key s).state ≡ (opkick_loop user (opkick_targets user key s) (s, [])).0
unfolding do_opkick opkick_result
do_opkick-state user key s = ground arith

pub unlock-EachEntry :
    (P : Key → Entry → Type 0) (cfg : Config) (user : ℕ) (text : UnlockText) (s : Store)
    → ((k : Key) (e : Entry) → P k e → P k (release_entry user k e))
    → ((k : Key) (e : Entry) → P k e → P k (unlock_entry user k e))
    → EachEntry P s
    → EachEntry P (unlock cfg user text s).state
unfolding unlock unlock_all
unlock-EachEntry P cfg user bare s g h a = modify_each-EachEntry P (release_entry user) g s a
unlock-EachEntry P cfg user (named text) s g h a =
    unlock_cases (λ o. EachEntry P o.state) cfg user text s (λ x. a)
      λ keys d es _ _ _. modify_all-EachEntry P (unlock_entry user) h keys s a

-- Whatever happens to a node bot, refused or not, each node stays sound: idle exactly when nobody
-- holds it, exclusive with one holder, no user holding it twice, and nobody waiting.
pub step-AllSound : (cfg : Config) (c : Event) (s : Store) → AllSound s → AllSound (step cfg c s)
unfolding step
step-AllSound cfg (locks r user text limit) s a =
    lock_cases (λ o. AllSound o.state) cfg r user text limit s (λ x. a)
      λ keys d es _.
        modify_all-EachEntry _ (lock_entry r user d) (λ k e v. lock_entry-IsSound r user d k e v)
          keys s a
step-AllSound cfg (slocks r user text limit) s a =
    slock_cases (λ o. AllSound o.state) cfg r user text limit s (λ x. a)
      λ keys d es _.
        modify_all-EachEntry _ (slock_entry r user d) (λ k e v. slock_entry-IsSound r user d k e v)
          keys s a
step-AllSound cfg (unlocks user text) s a =
    unlock-EachEntry _ cfg user text s (λ k e v. release_entry-IsSound user k e v)
      (λ k e v. unlock_entry-IsSound user k e v) a
step-AllSound cfg (kickouts user text) s a =
    kickout_cases (λ o. AllSound o.state) cfg user text s (λ x. a)
      λ keys d es _ _.
        modify_all-EachEntry _ clear_entry (λ k e v. clear_entry-IsSound k e) keys s a
step-AllSound cfg (opkicks user key) s a = rw (do_opkick-state user key s) (
    opkick_loop-EachEntry _ user (λ k e v. kick_entry-IsSound user k e v)
      (opkick_targets user key s) (s, []) a)
step-AllSound cfg (sweeps now) s a =
    check_and_notify-EachEntry _ cfg now (λ k e v. sweep_entry-IsSound cfg now k e v) s a

-- Whatever happens to a node bot, refused or not, over any history: if each node was sound at the
-- start, idle exactly when nobody holds it, exclusive with one holder, no user holding it twice, and
-- nobody waiting, then so is each node at the end.
pub history-AllSound :
    (cfg : Config) (cs : List Event) (s : Store) → AllSound s → AllSound (history cfg cs s)
unfolding history
history-AllSound cfg [] s a = a
history-AllSound cfg (c ∷ cs) s a = history-AllSound cfg cs (step cfg c s) (step-AllSound cfg c s a)
