-- ===== src/QueueBot/Invariant.antt =====
-- The invariant of a queue bot, entry by entry.
use lockbot.Base.{
  ℕ, ◌≤◌, Bool, false, ◌≡◌, refl, some, List, [], ◌∷◌, arith, Bool-cases, Option-cases, inl, inr,
}
use lockbot.Keys.{Key}
use lockbot.Users.{UserInfo, Request, find_user_info, has_user, create_user_info}
use lockbot.Users.Laws.{
  DistinctUsers, Apart, Started, Started-mono, remove-DistinctUsers, append-DistinctUsers,
  has_user-remove_self, Apart-remove, Apart-append, Each-remove, find_user_info-user,
}
use lockbot.State.{is_idle, Entry}
use lockbot.State.Modes.{Fits, Fits-Within, settle-Fits, remove-Within}
use lockbot.NodeBot.{release_entry, unlock_entry, clear_entry, kick_entry}
use lockbot.QueueBot.{lock_entry, lock_holder, book_entry, is_named, booked_or}
use lockbot.QueueBot.Operator.{release_holders}

-- The status fits the holders; no user holds twice, waits twice, or both holds and waits; no lease
-- starts in the future.
pub record IsQueued (now : ℕ) (e : Entry) : Type 0 where
  pub fits : Fits e.status e.current_users
  pub distinct : DistinctUsers e.current_users
  pub in_line : DistinctUsers e.booking_list
  pub apart : Apart e.current_users e.booking_list
  pub started : Started now e.current_users

pub IsQueued-mono : (now later : ℕ) (e : Entry) → now ≤ later → IsQueued now e → IsQueued later e
IsQueued-mono now later e h v = record {
  fits = v.fits;
  distinct = v.distinct;
  in_line = v.in_line;
  apart = v.apart;
  started = Started-mono now later e.current_users h v.started;
}

find-Started :
    (now : ℕ) (us : List UserInfo) (user : ℕ) (u : UserInfo)
    → Started now us
    → find_user_info us user ≡ some u
    → u.start_time ≤ now
unfolding find_user_info
find-Started now [] user u a f = cc
find-Started now (v ∷ us) user u a f = ground (arith, find-Started now us user u a.1)

lock_holder-user :
    (r : Request) (k : Key) (user total : ℕ) (us : List UserInfo)
    → Started r.now us
    → ((lock_holder r k user total (find_user_info us user)).user_id ≡ user)
      × ((lock_holder r k user total (find_user_info us user)).start_time ≤ r.now)
unfolding lock_holder create_user_info
lock_holder-user r k user total us a = elim (Option-cases (find_user_info us user)) [
  | inl new ↦ rw (new, lock_holder) (refl, omega arith)
  | inr (u, old) ↦
      rw (old, lock_holder) (find_user_info-user us user u old, find-Started r.now us user u a old)
]

pub lock_entry-IsQueued :
    (r : Request) (user : ℕ) (timed : Bool) (duration : ℕ) (k : Key) (e : Entry)
    → IsQueued r.now e
    → IsQueued r.now (lock_entry r user timed duration k e)
unfolding lock_entry has_user
lock_entry-IsQueued r user timed duration k e v =
    let total = booked_or timed (find_user_info e.booking_list user) duration in
    let holder = lock_holder-user r k user total e.current_users v.started in
    record {
      fits = tt;
      distinct = (refl, tt);
      in_line = remove-DistinctUsers e.booking_list user v.in_line;
      apart = (rw (holder.0) (has_user-remove_self e.booking_list user v.in_line), tt);
      started = (holder.1, tt);
    }

pub book_entry-IsQueued :
    (r : Request) (user duration : ℕ) (k : Key) (e : Entry)
    → is_named user e ≡ false
    → IsQueued r.now e
    → IsQueued r.now (book_entry r user duration k e)
unfolding book_entry is_named create_user_info
book_entry-IsQueued r user duration k e h v = record {
  fits = v.fits;
  distinct = v.distinct;
  in_line =
      append-DistinctUsers e.booking_list (create_user_info r k user duration) v.in_line
        (ground arith);
  apart =
      Apart-append e.current_users e.booking_list (create_user_info r k user duration) v.apart
        (ground arith);
  started = v.started;
}

module _ (now user : ℕ) (k : Key) (e : Entry) where
  pub unlock_entry-IsQueued : IsQueued now e → IsQueued now (unlock_entry user k e)
  unfolding unlock_entry
  unlock_entry-IsQueued v = record {
    fits =
        settle-Fits e.status _
          (remove-Within e.status e.current_users user (Fits-Within e.status _ v.fits));
    distinct = remove-DistinctUsers e.current_users user v.distinct;
    in_line = remove-DistinctUsers e.booking_list user v.in_line;
    apart =
        Each-remove _ e.current_users user
          (Apart-remove e.current_users e.booking_list user v.apart);
    started = Each-remove _ e.current_users user v.started;
  }

  pub release_entry-IsQueued : IsQueued now e → IsQueued now (release_entry user k e)
  unfolding release_entry unlock_entry
  release_entry-IsQueued v = elim (Bool-cases (is_idle e.status)) [
    | inl i ↦
        rw (i, release_entry)
          (record {
            fits = v.fits;
            distinct = v.distinct;
            in_line = remove-DistinctUsers e.booking_list user v.in_line;
            apart = Apart-remove e.current_users e.booking_list user v.apart;
            started = v.started;
          })
    | inr h ↦ rw (h, release_entry) (unlock_entry-IsQueued v)
  ]

  pub kick_entry-IsQueued : IsQueued now e → IsQueued now (kick_entry user k e)
  unfolding kick_entry
  kick_entry-IsQueued v = record {
    fits =
        settle-Fits e.status _
          (remove-Within e.status e.current_users user (Fits-Within e.status _ v.fits));
    distinct = remove-DistinctUsers e.current_users user v.distinct;
    in_line = v.in_line;
    apart = Each-remove _ e.current_users user v.apart;
    started = Each-remove _ e.current_users user v.started;
  }

pub clear_entry-IsQueued : (now : ℕ) (k : Key) (e : Entry) → IsQueued now (clear_entry k e)
unfolding clear_entry
clear_entry-IsQueued now k e = record {
  fits = tt;
  distinct = tt;
  in_line = tt;
  apart = tt;
  started = tt;
}

pub release_holders-IsQueued :
    (now : ℕ) (k : Key) (e : Entry) → IsQueued now e → IsQueued now (release_holders k e)
unfolding release_holders
release_holders-IsQueued now k e v = record {
  fits = tt;
  distinct = tt;
  in_line = v.in_line;
  apart = tt;
  started = tt;
}
