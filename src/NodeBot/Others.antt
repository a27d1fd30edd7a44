-- ===== src/NodeBot/Others.antt =====
-- Nobody's lock is taken, shortened or lengthened by a command of somebody else.
use lockbot.Base.{
  ℕ, true, false, ◌≡◌, ◌≢◌, refl, List, [], ◌∷◌, ◌∙◌, arith, Bool-cases, Option-cases, inl, inr,
}
use lockbot.Keys.{Key}
use lockbot.Users.{UserInfo, Request, find_user_info, has_user, create_user_info}
use lockbot.Users.Laws.{find-remove_ne, find-append_ne}
use lockbot.State.{
  Status, idle, exclusive, shared, is_idle, is_exclusive, Entry, Store, lookup, modify,
}
use lockbot.State.Laws.{
  holding, holding-modify_all, lookup_EachEntry, get_all-all, lookup-modify, lookup-modify_each,
}
use lockbot.State.Modes.{Fits}
use lockbot.Config.{Config}
use lockbot.Command.Laws.{parse_command-Distinct}
use lockbot.NodeBot.{
  unlock, unlock_all, UnlockText, bare, named, opkick_loop, opkick_step, opkick_targets, lock_entry,
  slock_entry, release_entry, unlock_entry, kick_entry, can_lock, extend_user,
}
use lockbot.NodeBot.Cases.{lock_cases, slock_cases, unlock_cases}
use lockbot.NodeBot.History.{
  Event, locks, slocks, unlocks, kickouts, opkicks, sweeps, step, AllSound, do_opkick-state,
}

-- An entry that a user may lock has no other holder, so the lock leaves others as they were.
lock_entry-others :
    (r : Request) (user duration other : ℕ) (k : Key) (st : Status) (us queue : List UserInfo)
    → other ≢ user
    → Fits st us
    → let e : Entry = record { status = st; current_users = us; booking_list = queue } in
      can_lock user e ≡ true
      → find_user_info (lock_entry r user duration k e).current_users other
        ≡ find_user_info us other
unfolding lock_entry can_lock find_user_info has_user is_idle is_exclusive create_user_info
lock_entry-others r user duration other k idle [] queue ne f h = ground arith
lock_entry-others r user duration other k idle (u ∷ us) queue ne f h = absurd f
lock_entry-others r user duration other k exclusive [] queue ne f h = absurd f
lock_entry-others r user duration other k exclusive (u ∷ []) queue ne f h = ground arith
lock_entry-others r user duration other k exclusive (u ∷ v ∷ us) queue ne f h = absurd f
lock_entry-others r user duration other k shared us queue ne f h = ground arith

extend_user-others :
    (user duration other : ℕ) (us : List UserInfo)
    → other ≢ user
    → find_user_info (extend_user user duration us) other ≡ find_user_info us other
unfolding extend_user find_user_info
extend_user-others user duration other [] ne = refl
extend_user-others user duration other (u ∷ us) ne =
    ground (arith, extend_user-others user duration other us ne)

slock_entry-others :
    (r : Request) (user duration other : ℕ) (k : Key) (e : Entry)
    → other ≢ user
    → find_user_info (slock_entry r user duration k e).current_users other
      ≡ find_user_info e.current_users other
unfolding slock_entry create_user_info
slock_entry-others r user duration other k e ne = ground (
  arith,
  extend_user-others user duration other e.current_users ne,
  find-append_ne e.current_users (create_user_info r k user duration) other ne,
)

release_entry-others :
    (user other : ℕ) (k : Key) (e : Entry)
    → other ≢ user
    → find_user_info (release_entry user k e).current_users other
      ≡ find_user_info e.current_users other
unfolding release_entry
release_entry-others user other k e ne =
    ground (arith, find-remove_ne e.current_users user other ne)

module _ (user other : ℕ) (ne : other ≢ user) (q : Key) where
  unlock-others :
      (cfg : Config) (text : UnlockText) (s : Store)
      → holding other q (unlock cfg user text s).state ≡ holding other q s
  unfolding unlock unlock_all holding unlock_entry
  unlock-others cfg bare s = elim (Option-cases (lookup q s)) [
    | inl miss ↦ rw (lookup-modify_each (release_entry user) q s, miss)
    | inr (e, hit) ↦
        rw (lookup-modify_each (release_entry user) q s, hit)
          (release_entry-others user other q e ne)
  ]
  unlock-others cfg (named text) s =
      unlock_cases (λ o. holding other q o.state ≡ holding other q s) cfg user text s (λ x. refl)
        λ keys d es parsed _ _.
          holding-modify_all (unlock_entry user) keys other q s
            (parse_command-Distinct cfg user false text parsed)
            λ e _ _. find-remove_ne e.current_users user other ne

  kicked-others :
      (k : Key) (s : Store) → holding other q (modify (kick_entry user) k s) ≡ holding other q s
  unfolding holding kick_entry
  kicked-others k s = rw (lookup-modify (kick_entry user) k q s) (elim (Option-cases (lookup q s)) [
    | inl miss ↦ rw miss (ground arith)
    | inr (x, found) ↦ rw found (ground (arith, find-remove_ne x.current_users user other ne))
  ])

  opkick_step-others :
      (k : Key) (acc : Store × List Key)
      → holding other q (opkick_step user k acc).0 ≡ holding other q acc.0
  unfolding opkick_step
  opkick_step-others k (s, freed) = elim (Option-cases (lookup k s)) [
    | inl miss ↦ rw (miss, opkick_step)
    | inr (e, hit) ↦
        rw (hit, opkick_step)
          (elim (Bool-cases (has_user e.current_users user)) [
            | inr gone ↦ rw gone
            | inl here ↦ rw here (kicked-others k s)
          ])
  ]

  opkick_loop-others :
      (ks : List Key) (acc : Store × List Key)
      → holding other q (opkick_loop user ks acc).0 ≡ holding other q acc.0
  unfolding opkick_loop
  opkick_loop-others [] acc = refl
  opkick_loop-others (k ∷ ks) acc =
      opkick_loop-others ks (opkick_step user k acc) ∙ opkick_step-others k acc

-- The event is a command of, or an operator's kick of, somebody else.
abbrev pub Bystander : ℕ → Event → Type 0
Bystander other (locks r user text limit) = other ≢ user
Bystander other (slocks r user text limit) = other ≢ user
Bystander other (unlocks user text) = other ≢ user
Bystander other (kickouts user text) = ⊥
Bystander other (opkicks user key) = other ≢ user
Bystander other (sweeps now) = ⊥

-- On sound nodes, a lock, shared lock or unlock by another user, and an operator's kick of another
-- user, leave the record of every holder exactly as it was, on every node, refused or not.
pub step-others :
    (cfg : Config) (c : Event) (other : ℕ) (q : Key) (s : Store)
    → AllSound s
    → Bystander other c
    → holding other q (step cfg c s) ≡ holding other q s
unfolding step
step-others cfg (locks r user text limit) other q s a ne =
    lock_cases (λ o. holding other q o.state ≡ holding other q s) cfg r user text limit s
      (λ x. refl)
      λ keys d es g.
        holding-modify_all (lock_entry r user d) keys other q s
          (parse_command-Distinct cfg user true text g.parsed)
          λ e in_ hit.
            let at = get_all-all (λ p. can_lock user p.1) keys s es g.found g.tested q in_ in
            let e≡ : at.0 ≡ e = ground (arith, at.1) in
            lock_entry-others r user d other q e.status e.current_users e.booking_list ne
              (lookup_EachEntry _ q s e a hit).fits (rw e≡ at (at.2))
step-others cfg (slocks r user text limit) other q s a ne =
    slock_cases (λ o. holding other q o.state ≡ holding other q s) cfg r user text limit s
      (λ x. refl)
      λ keys d es g.
        holding-modify_all (slock_entry r user d) keys other q s
          (parse_command-Distinct cfg user true text g.parsed)
          λ e _ _. slock_entry-others r user d other q e ne
step-others cfg (unlocks user text) other q s a ne = unlock-others user other ne q cfg text s
step-others cfg (kickouts user text) other q s a ne = absurd ne
step-others cfg (opkicks user key) other q s a ne =
    rw (do_opkick-state user key s)
      (opkick_loop-others user other ne q (opkick_targets user key s) (s, []))
step-others cfg (sweeps now) other q s a ne = absurd ne
