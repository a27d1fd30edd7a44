-- ===== src/NodeBot/Invariant.antt =====
-- The invariant of a node bot, entry by entry.
use lockbot.Base.{
  ℕ, true, ◌≡◌, refl, List, [], ◌∷◌, ◌++◌, arith, Bool-cases, Option-cases, inl, inr,
}
use lockbot.Keys.{Key}
use lockbot.Users.{UserInfo, Request, find_user_info, has_user, create_user_info, remove_user_info}
use lockbot.Users.Laws.{DistinctUsers, remove-DistinctUsers, append-DistinctUsers}
use lockbot.State.{shared, is_idle, Entry}
use lockbot.State.Modes.{Fits, Fits-Within, settle-Fits, remove-Within}
use lockbot.Config.{Config}
use lockbot.Sweep.{sweep_entry, finish_entry, scan_users}
use lockbot.Sweep.Users.{
  scan_users-DistinctUsers, remove_users-DistinctUsers, remove_users-Within, scan_users-Fits,
}
use lockbot.NodeBot.{
  lock_entry, slock_entry, extend_user, release_entry, unlock_entry, clear_entry, kick_entry,
}

-- The status fits the holders, nobody holds twice, and nobody waits.
pub record IsSound (e : Entry) : Type 0 where
  pub fits : Fits e.status e.current_users
  pub distinct : DistinctUsers e.current_users
  pub no_queue : e.booking_list ≡ []

module _ (r : Request) (user duration : ℕ) (k : Key) (e : Entry) where
  pub lock_entry-IsSound : IsSound e → IsSound (lock_entry r user duration k e)
  unfolding lock_entry has_user
  lock_entry-IsSound v = elim (Option-cases (find_user_info e.current_users user)) [
    | inl new ↦
        rw (new, lock_entry) (record { fits = tt; distinct = (refl, tt); no_queue = v.no_queue })
    | inr (u, old) ↦
        rw (old, lock_entry) (record { fits = tt; distinct = (refl, tt); no_queue = v.no_queue })
  ]

has_user-extend_user :
    (user duration : ℕ) (us : List UserInfo) (other : ℕ)
    → has_user (extend_user user duration us) other ≡ has_user us other
unfolding extend_user has_user
has_user-extend_user user duration [] other = refl
has_user-extend_user user duration (u ∷ us) other =
    ground (arith, has_user-extend_user user duration us other)

extend_user-DistinctUsers :
    (user duration : ℕ) (us : List UserInfo)
    → DistinctUsers us
    → DistinctUsers (extend_user user duration us)
unfolding extend_user
extend_user-DistinctUsers user duration [] d = tt
extend_user-DistinctUsers user duration (u ∷ us) d = ground (
  arith,
  extend_user-DistinctUsers user duration us d.1,
  has_user-extend_user user duration us u.user_id,
)

extend_user-Fits :
    (user duration : ℕ) (us : List UserInfo)
    → has_user us user ≡ true
    → Fits shared (extend_user user duration us)
unfolding extend_user has_user
extend_user-Fits user duration [] h = cc
extend_user-Fits user duration (u ∷ us) h = ground arith

append-Fits : (us : List UserInfo) (u : UserInfo) → Fits shared (us ++ u ∷ [])
append-Fits [] u = tt
append-Fits (v ∷ us) u = tt

pub slock_entry-IsSound :
    (r : Request) (user duration : ℕ) (k : Key) (e : Entry)
    → IsSound e
    → IsSound (slock_entry r user duration k e)
unfolding slock_entry
slock_entry-IsSound r user duration k e v = elim (Bool-cases (has_user e.current_users user)) [
  | inl old ↦
      rw (old, slock_entry)
        (record {
          fits = extend_user-Fits user duration e.current_users old;
          distinct = extend_user-DistinctUsers user duration e.current_users v.distinct;
          no_queue = v.no_queue;
        })
  | inr new ↦
      rw (new, slock_entry)
        (record {
          fits = append-Fits e.current_users (create_user_info r k user duration);
          distinct =
              append-DistinctUsers e.current_users (create_user_info r k user duration) v.distinct
                (unfold create_user_info in new);
          no_queue = v.no_queue;
        })
]

module _ (user : ℕ) (k : Key) (e : Entry) where
  pub unlock_entry-IsSound : IsSound e → IsSound (unlock_entry user k e)
  unfolding unlock_entry remove_user_info
  unlock_entry-IsSound v = record {
    fits =
        settle-Fits e.status _
          (remove-Within e.status e.current_users user (Fits-Within e.status _ v.fits));
    distinct = remove-DistinctUsers e.current_users user v.distinct;
    no_queue = rw v.no_queue refl;
  }

  pub kick_entry-IsSound : IsSound e → IsSound (kick_entry user k e)
  unfolding kick_entry
  kick_entry-IsSound v = record {
    fits =
        settle-Fits e.status _
          (remove-Within e.status e.current_users user (Fits-Within e.status _ v.fits));
    distinct = remove-DistinctUsers e.current_users user v.distinct;
    no_queue = v.no_queue;
  }

  pub release_entry-IsSound : IsSound e → IsSound (release_entry user k e)
  unfolding release_entry unlock_entry
  release_entry-IsSound v = elim (Bool-cases (is_idle e.status)) [
    | inl i ↦
        rw (i, release_entry)
          (record {
            fits = v.fits;
            distinct = v.distinct;
            no_queue = (unlock_entry-IsSound v).no_queue;
          })
    | inr h ↦ rw (h, release_entry) (unlock_entry-IsSound v)
  ]

pub clear_entry-IsSound : (k : Key) (e : Entry) → IsSound (clear_entry k e)
unfolding clear_entry
clear_entry-IsSound k e = record { fits = tt; distinct = tt; no_queue = refl }

pub sweep_entry-IsSound :
    (cfg : Config) (now : ℕ) (k : Key) (e : Entry) → IsSound e → IsSound (sweep_entry cfg now k e)
unfolding sweep_entry finish_entry
sweep_entry-IsSound cfg now k e v =
    let scan = scan_users cfg now k e.status e.current_users in
    let fits = scan_users-Fits cfg now k e.status e.status e.current_users v.fits in
    let distinct = scan_users-DistinctUsers cfg now k e.status e.current_users v.distinct in
    elim (Bool-cases (is_idle e.status)) [
      | inl i ↦ rw (i, sweep_entry) v
      | inr h ↦
          rw (h, sweep_entry)
            (elim (Bool-cases scan.failed) [
              | inl bad ↦
                  rw (bad, finish_entry)
                    (record { fits = fits; distinct = distinct; no_queue = v.no_queue })
              | inr good ↦
                  rw (good, finish_entry)
                    (record {
                      fits = settle-Fits e.status _ (
                          remove_users-Within e.status scan.removed scan.users
                            (Fits-Within e.status scan.users fits));
                      distinct = remove_users-DistinctUsers scan.removed scan.users distinct;
                      no_queue = v.no_queue;
                    })
            ])
    ]
