-- ===== src/QueueBot/Claims.antt =====
-- Who may claim a resource of a queue bot, and what a claim leaves.
use lockbot.Base.{
  ℕ, ◌+◌, Bool, ◌≡◌, refl, true, false, Option-cases, inl, inr, ◌⊎◌, Option, some, List, [], ◌∷◌,
  arith,
}
use lockbot.Keys.{Key}
use lockbot.Users.{
  UserInfo, Request, find_user_info, has_user, is_first_user, create_user_info, remove_user_info,
}
use lockbot.Users.Laws.{find_user_info-user, DistinctUsers, has_user-remove_self}
use lockbot.State.{Status, idle, exclusive, shared, is_idle, Entry, Store}
use lockbot.State.Laws.{get_all-all, lookup_EachEntry, Changes, modify_all-Changes}
use lockbot.State.Modes.{Fits}
use lockbot.Config.{Config}
use lockbot.Reply.{pass}
use lockbot.Command.{parse_command}
use lockbot.Command.Laws.{parse_command-Distinct}
use lockbot.Policy.{is_empty}
use lockbot.NodeBot.Locks.{lease_end}
use lockbot.QueueBot.{LockText, lock, lock_entry, lock_holder, can_lock, booked_or}
use lockbot.QueueBot.Cases.{lock_cases}
use lockbot.QueueBot.History.{AllQueued}

-- It is the user's turn: the user holds the resource, or nobody does and nobody else is first in line.
abbrev pub HasTurn : ℕ → Entry → Type 0
HasTurn user e =
    (has_user e.current_users user ≡ true)
    ⊎ ((e.current_users ≡ [])
        × ((e.booking_list ≡ []) ⊎ (is_first_user e.booking_list user ≡ true)))

can_lock-HasTurn :
    (user : ℕ) (st : Status) (us queue : List UserInfo)
    → Fits st us
    → can_lock user (record { status = st; current_users = us; booking_list = queue }) ≡ true
    → HasTurn user (record { status = st; current_users = us; booking_list = queue })
unfolding can_lock is_idle is_empty has_user
can_lock-HasTurn user idle [] [] f h = inr (refl, inl refl)
can_lock-HasTurn user idle [] (b ∷ queue) f h = inr (refl, inr (ground arith))
can_lock-HasTurn user idle (u ∷ us) queue f h = absurd f
can_lock-HasTurn user exclusive us queue f h = inl h
can_lock-HasTurn user shared us queue f h = inl h

-- The time that a claim asks for: that of the command, if it names one or the user has no booking, and
-- else that of the booking.
pub data Wanted (user : ℕ) (timed : Bool) (duration : ℕ) (queue : List UserInfo) (total : ℕ)
    : Type 0 where
  named : timed ≡ true → total ≡ duration → Wanted user timed duration queue total
  unbooked :
      timed ≡ false
      → has_user queue user ≡ false
      → total ≡ duration
      → Wanted user timed duration queue total
  booked :
      (b : UserInfo)
      → timed ≡ false
      → find_user_info queue user ≡ some b
      → total ≡ b.duration
      → Wanted user timed duration queue total

booked_or-Wanted :
    (user : ℕ) (timed : Bool) (duration : ℕ) (queue : List UserInfo)
    → Wanted user timed duration queue (booked_or timed (find_user_info queue user) duration)
unfolding booked_or has_user
booked_or-Wanted user true duration queue = named refl refl
booked_or-Wanted user false duration queue = elim (Option-cases (find_user_info queue user)) [
  | inl none_ ↦ rw (none_, booked_or) (unbooked refl (rw (none_, has_user) refl) refl)
  | inr (b, some_) ↦ rw (some_, booked_or) (booked b refl some_ refl)
]

-- An entry after the user has claimed it for so long more, in the user's turn.
pub record Claimed (now user total : ℕ) (before after : Entry) : Type 0 where
  pub turn : HasTurn user before
  pub holder : UserInfo
  pub is_user : holder.user_id ≡ user
  pub until : holder.start_time + holder.duration ≡ lease_end now user before + total
  pub alone : after.current_users ≡ holder ∷ []
  pub mode : after.status ≡ exclusive
  pub queue : after.booking_list ≡ remove_user_info before.booking_list user
  pub left : has_user after.booking_list user ≡ false

lock_entry-Claimed :
    (r : Request) (user : ℕ) (timed : Bool) (duration : ℕ) (k : Key) (e : Entry)
    → HasTurn user e
    → DistinctUsers e.booking_list
    → Claimed r.now user
        (booked_or timed (find_user_info e.booking_list user) duration)
        e
        (lock_entry r user timed duration k e)
unfolding lock_entry lease_end create_user_info lock_holder
lock_entry-Claimed r user timed duration k e turn distinct =
    let gone = has_user-remove_self e.booking_list user distinct in
    elim (Option-cases (find_user_info e.current_users user)) [
      | inl new ↦
          rw (new, lock_holder, lease_end)
            (record {
              turn = turn;
              holder =
                  create_user_info r k user
                    (booked_or timed (find_user_info e.booking_list user) duration);
              is_user = refl;
              until = ground (arith, new);
              alone = ground (arith, new);
              mode = refl;
              queue = refl;
              left = gone;
            })
      | inr (u, old) ↦
          rw (old, lock_holder, lease_end)
            (record {
              turn = turn;
              holder =
                  lock_holder r k user
                    (booked_or timed (find_user_info e.booking_list user) duration) (some u);
              is_user = find_user_info-user e.current_users user u old;
              until = ground (arith, old);
              alone = ground (arith, old);
              mode = refl;
              queue = refl;
              left = gone;
            })
    ]

-- What a committed lock does to one entry; a command without a duration takes that of the booking.
abbrev pub Claims : ℕ → ℕ → LockText → ℕ → Entry → Entry → Type 0
Claims now user command duration e e' =
    (total : ℕ) × Wanted user command.has_duration duration e.booking_list total
    × Claimed now user total e e'

-- A lock of a queue bot that is committed has parsed. At each node that it names it was the user's
-- turn; the user is then the only holder, until the end of the user's lease there (or now) plus the
-- duration of the command or, if it has none, that of the user's booking there where there is one, and
-- no longer waits; those who wait keep their bookings. The other nodes are as they
-- were. This holds where the queues are well formed.
pub lock-Claimed :
    (cfg : Config) (r : Request) (user : ℕ) (command : LockText) (limit : Option ℕ) (s : Store)
    (q : Key)
    → AllQueued r.now s
    → (lock cfg r user command limit s).saved ≡ true
    → (keys : List Key) × (duration : ℕ) × (parse_command cfg user true command.text
        ≡ pass (keys, duration))
      × Changes
          (Claims r.now user command duration)
          keys
          q
          s
          (lock cfg r user command limit s).state
lock-Claimed cfg r user command limit s q a =
    lock_cases
      (λ o.
        o.saved ≡ true
        → (keys : List Key) × (duration : ℕ) × (parse_command cfg user true command.text
            ≡ pass (keys, duration))
          × Changes (Claims r.now user command duration) keys q s o.state)
      cfg r user s (λ x h. cc) command limit
      λ keys d es g _. (
        keys,
        d,
        g.parsed,
        modify_all-Changes (Claims r.now user command d) (lock_entry r user command.has_duration d)
            keys q s (parse_command-Distinct cfg user true command.text g.parsed)
            λ in_.
              let at = get_all-all (λ p. can_lock user p.1) keys s es g.found g.tested q in_ in
              let v = lookup_EachEntry _ q s at.0 a at.1 in
              (
                at.0,
                at.1,
                (
                  booked_or command.has_duration (find_user_info at.0.booking_list user) d,
                  booked_or-Wanted user command.has_duration d at.0.booking_list,
                  lock_entry-Claimed r user command.has_duration d q at.0
                      (can_lock-HasTurn user at.0.status at.0.current_users at.0.booking_list v.fits
                        at.2)
                      v.in_line,
                ),
              ),
      )
