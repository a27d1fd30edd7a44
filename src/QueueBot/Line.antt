-- ===== src/QueueBot/Line.antt =====
-- The line in front of a resource: who loses a place in it, and through which command.
use lockbot.Base.{
  ℕ, ◌≡◌, refl, true, false, ◌∙◌, Option, none, some, List, [], ◌∷◌, ◌++◌, arith, Bool-cases,
  Option-cases, inl, inr, elem, ap, Distinct,
}
use lockbot.Keys.{Key, key_eq}
use lockbot.Users.{UserInfo, create_user_info, has_user, remove_user_info}
use lockbot.Users.Laws.{DistinctUsers, remove_absent, has_user-remove_self}
use lockbot.State.{Entry, Store, lookup, modify, modify_all}
use lockbot.State.Laws.{lookup-modify, lookup-modify_all, lookup-modify_each, lookup_EachEntry}
use lockbot.Config.{Config}
use lockbot.Command.Laws.{parse_command-Distinct}
use lockbot.NodeBot.{
  UnlockText, bare, named, unlock, unlock_all, unlock_entry, release_entry, kick_entry, opkick_step,
  opkick_loop, opkick_targets,
}
use lockbot.NodeBot.Cases.{unlock_cases}
use lockbot.NodeBot.History.{do_opkick-state}
use lockbot.QueueBot.{lock_entry, book_entry, is_named}
use lockbot.QueueBot.Operator.{release_holders, do_opkick}
use lockbot.QueueBot.Cases.{lock_cases, book_cases, kicklock_cases, do_kicklock_cases}
use lockbot.QueueBot.History.{
  Event, locks, books, takes, unlocks, kickouts, kicklocks, releases, opkicks, sweeps, step,
  AllQueued, not_named,
}

abbrev pub queued : Option Entry → List UserInfo
queued none = []
queued (some e) = e.booking_list

unfoldable pub queue_of : Key → Store → List UserInfo
queue_of q s = queued (lookup q s)

remove_again :
    (us : List UserInfo) (user : ℕ)
    → DistinctUsers us
    → remove_user_info (remove_user_info us user) user ≡ remove_user_info us user
remove_again us user d =
    remove_absent (remove_user_info us user) user (has_user-remove_self us user d)

remove_appended :
    (us : List UserInfo) (v : UserInfo) (user : ℕ)
    → v.user_id ≡ user
    → has_user us user ≡ false
    → remove_user_info (us ++ v ∷ []) user ≡ remove_user_info us user
unfolding remove_user_info has_user
remove_appended [] v user h a = ground arith
remove_appended (u ∷ us) v user h a = ground (arith, remove_appended us v user h)

-- A view of a queue that a change keeps at the entries it meets is kept in the whole store.
module _ (view : List UserInfo → List UserInfo) (f : Key → Entry → Entry) (q : Key)
    (s : Store) where
  view-modify_all :
      (ks : List Key)
      → Distinct key_eq ks
      → ((e : Entry)
          → elem key_eq q ks ≡ true
          → lookup q s ≡ some e
          → view (f q e).booking_list ≡ view e.booking_list)
      → view (queue_of q (modify_all f ks s)) ≡ view (queue_of q s)
  unfolding queue_of
  view-modify_all ks d h = elim (Bool-cases (elem key_eq q ks)) [
    | inr out ↦ rw (lookup-modify_all f ks q s d, out)
    | inl in_ ↦ elim (Option-cases (lookup q s)) [
      | inl miss ↦ rw (lookup-modify_all f ks q s d, in_, miss)
      | inr (e, hit) ↦ rw (lookup-modify_all f ks q s d, in_, hit) (h e in_ hit)
    ]
  ]

-- A change of holders is not seen by those in the queue.
module _ (f : Key → Entry → Entry)
    (kept : (k : Key) (e : Entry) → (f k e).booking_list ≡ e.booking_list) (q : Key) where
  queue_of-modify : (k : Key) (s : Store) → queue_of q (modify f k s) ≡ queue_of q s
  unfolding queue_of
  queue_of-modify k s = rw (lookup-modify f k q s) (elim (Option-cases (lookup q s)) [
    | inl miss ↦ rw miss (ground arith)
    | inr (e, hit) ↦ rw hit (ground (arith, kept q e))
  ])

  queue_of-modify_all : (ks : List Key) (s : Store) → queue_of q (modify_all f ks s) ≡ queue_of q s
  unfolding modify_all
  queue_of-modify_all [] s = refl
  queue_of-modify_all (k ∷ ks) s = queue_of-modify_all ks (modify f k s) ∙ queue_of-modify k s

kick_entry-queue :
    (user : ℕ) (k : Key) (e : Entry) → (kick_entry user k e).booking_list ≡ e.booking_list
unfolding kick_entry
kick_entry-queue user k e = refl

release_holders-queue : (k : Key) (e : Entry) → (release_holders k e).booking_list ≡ e.booking_list
unfolding release_holders
release_holders-queue k e = refl

opkick_step-queue :
    (user : ℕ) (q k : Key) (acc : Store × List Key)
    → queue_of q (opkick_step user k acc).0 ≡ queue_of q acc.0
unfolding opkick_step
opkick_step-queue user q k (s, freed) = elim (Option-cases (lookup k s)) [
  | inl miss ↦ rw (miss, opkick_step)
  | inr (e, hit) ↦
      rw (hit, opkick_step)
        (elim (Bool-cases (has_user e.current_users user)) [
          | inr gone ↦ rw gone
          | inl here ↦ rw here (queue_of-modify (kick_entry user) (kick_entry-queue user) q k s)
        ])
]

opkick_loop-queue :
    (user : ℕ) (q : Key) (ks : List Key) (acc : Store × List Key)
    → queue_of q (opkick_loop user ks acc).0 ≡ queue_of q acc.0
unfolding opkick_loop
opkick_loop-queue user q [] acc = refl
opkick_loop-queue user q (k ∷ ks) acc =
    opkick_loop-queue user q ks (opkick_step user k acc) ∙ opkick_step-queue user q k acc

module _ (user : ℕ) (q : Key) where
  unlock-keeps_line :
      (cfg : Config) (text : UnlockText) (t : ℕ) (s : Store)
      → AllQueued t s
      → remove_user_info (queue_of q (unlock cfg user text s).state) user
        ≡ remove_user_info (queue_of q s) user
  unfolding unlock unlock_all queue_of unlock_entry release_entry
  unlock-keeps_line cfg bare t s a = elim (Option-cases (lookup q s)) [
    | inl miss ↦ rw (lookup-modify_each (release_entry user) q s, miss)
    | inr (e, hit) ↦
        let d = (lookup_EachEntry _ q s e a hit).in_line in
        rw (lookup-modify_each (release_entry user) q s, hit)
          (ground (arith, remove_again e.booking_list user d))
  ]
  unlock-keeps_line cfg (named text) t s a =
      unlock_cases
        (λ o. remove_user_info (queue_of q o.state) user ≡ remove_user_info (queue_of q s) user) cfg
        user text s (λ x. refl)
        λ keys d es p _ _.
          view-modify_all (λ us. remove_user_info us user) (unlock_entry user) q s keys
            (parse_command-Distinct cfg user false text p)
            λ e in_ hit. remove_again e.booking_list user (lookup_EachEntry _ q s e a hit).in_line

-- The event is a lock, a booking, an unlock or a kick that this user asks for or suffers, or an
-- operator's release of holders.
unfoldable pub ActsFor : ℕ → Event → Type 0
ActsFor user (locks r actor text limit) = actor ≡ user
ActsFor user (books r actor text limit) = actor ≡ user
ActsFor user (takes r actor text) = ⊥
ActsFor user (unlocks actor text) = actor ≡ user
ActsFor user (kickouts actor text) = ⊥
ActsFor user (kicklocks actor text) = Unit
ActsFor user (releases keys) = Unit
ActsFor user (opkicks actor key) = Unit
ActsFor user (sweeps now) = ⊥

-- Where the queues are well formed, a lock, a booking or an unlock by a user, and an operator's kick
-- or release of holders, leave the queue of every resource as it was but for that user's own place:
-- the others keep their order and their records.
pub step-keeps_line :
    (cfg : Config) (t : ℕ) (c : Event) (user : ℕ) (q : Key) (s : Store)
    → AllQueued t s
    → ActsFor user c
    → remove_user_info (queue_of q (step cfg c s)) user ≡ remove_user_info (queue_of q s) user
unfolding step ActsFor do_opkick lock_entry book_entry create_user_info is_named
step-keeps_line cfg t (locks r actor text limit) user q s a same = rw⁻¹ same (
    lock_cases
      (λ o. remove_user_info (queue_of q o.state) actor ≡ remove_user_info (queue_of q s) actor) cfg
      r actor s (λ x. refl) text limit
      λ keys d es g.
        view-modify_all (λ us. remove_user_info us actor) (lock_entry r actor text.has_duration d) q
          s keys (parse_command-Distinct cfg actor true text.text g.parsed)
          λ e in_ hit. remove_again e.booking_list actor (lookup_EachEntry _ q s e a hit).in_line)
step-keeps_line cfg t (books r actor text limit) user q s a same = rw⁻¹ same (
    book_cases
      (λ o. remove_user_info (queue_of q o.state) actor ≡ remove_user_info (queue_of q s) actor) cfg
      r actor s (λ x. refl) text limit
      λ keys d es p g i j.
        view-modify_all (λ us. remove_user_info us actor) (book_entry r actor d) q s keys
          (parse_command-Distinct cfg actor true text p)
          λ e in_ hit.
            remove_appended e.booking_list (create_user_info r q actor d) actor refl
              (ground (arith, not_named actor keys s es g i q e in_ hit)))
step-keeps_line cfg t (takes r actor text) user q s a never = absurd never
step-keeps_line cfg t (unlocks actor text) user q s a same =
    rw⁻¹ same (unlock-keeps_line actor q cfg text t s a)
step-keeps_line cfg t (kickouts actor text) user q s a never = absurd never
step-keeps_line cfg t (kicklocks actor text) user q s a any_ =
    kicklock_cases
      (λ o. remove_user_info (queue_of q o.state) user ≡ remove_user_info (queue_of q s) user) s
      (λ x. refl) cfg actor text
      λ keys d es _ _.
        ap (λ us. remove_user_info us user)
          (queue_of-modify_all release_holders release_holders-queue q keys s)
step-keeps_line cfg t (releases keys) user q s a any_ =
    do_kicklock_cases
      (λ o. remove_user_info (queue_of q o.state) user ≡ remove_user_info (queue_of q s) user) s
      (λ x. refl) keys
      λ es _.
        ap (λ us. remove_user_info us user)
          (queue_of-modify_all release_holders release_holders-queue q keys s)
step-keeps_line cfg t (opkicks actor key) user q s a any_ =
    ap (λ us. remove_user_info us user)
      (ap (queue_of q) (do_opkick-state actor key s)
        ∙ opkick_loop-queue actor q (opkick_targets actor key s) (s, []))
step-keeps_line cfg t (sweeps now) user q s a never = absurd never
