-- ===== src/QueueBot/Displaced.antt =====
-- What `take` makes of the holders it displaces.
use lockbot.Base.{ℕ, false, ◌≡◌, refl, List, [], ◌∷◌, ◌++◌, arith, ◌+◌, ◌-◌, if◌then◌else◌}
use lockbot.Keys.{Key}
use lockbot.Users.{UserInfo, Request, has_user, create_user_info, remove_user_info}
use lockbot.Users.Laws.{
  DistinctUsers, Apart, Started, remove-DistinctUsers, append_DistinctUsers, has_user-append,
  has_user-remove_self, Apart-remove, remaining_duration-eq,
}
use lockbot.State.{exclusive, Entry}
use lockbot.Sweep.Users.{is_live}
use lockbot.QueueBot.{lock_holder}
use lockbot.QueueBot.Take.{
  displace, displace_one, waiting, unnotify, take_entry, take_finish, take_failed,
}
use lockbot.QueueBot.Invariant.{IsQueued}

-- The live leases, each turned into a booking for the rest of its time.
unfoldable pub displaced : ℕ → List UserInfo → List UserInfo
displaced now [] = []
displaced now (u ∷ us) =
    if is_live now u
    then waiting now u (u.start_time + u.duration - now) ∷ displaced now us
    else displaced now us

-- With no lease in the future the reversed loop ends, and has put those in front of the queue in
-- the order in which they held.
pub displace-front :
    (now user : ℕ) (us : List UserInfo)
    → Started now us
    → has_user us user ≡ false
    → ((displace now user us).front ≡ displaced now us) × ((displace now user us).failed ≡ false)
unfolding displace displace_one displaced waiting has_user
displace-front now user [] a h = (refl, refl)
displace-front now user (u ∷ us) a h =
    ground
      (arith, remaining_duration-eq now u.start_time u.duration a.0, displace-front now user us a.1)

pub has_user-displaced :
    (now : ℕ) (us : List UserInfo) (user : ℕ)
    → has_user us user ≡ false
    → has_user (displaced now us) user ≡ false
unfolding displaced waiting has_user
has_user-displaced now [] user h = refl
has_user-displaced now (u ∷ us) user h = ground (arith, has_user-displaced now us user)

displaced-DistinctUsers :
    (now : ℕ) (us : List UserInfo) → DistinctUsers us → DistinctUsers (displaced now us)
unfolding displaced waiting
displaced-DistinctUsers now [] d = tt
displaced-DistinctUsers now (u ∷ us) d =
    ground (arith, displaced-DistinctUsers now us d.1, has_user-displaced now us u.user_id d.0)

displaced-Apart : (now : ℕ) (us vs : List UserInfo) → Apart us vs → Apart (displaced now us) vs
unfolding displaced waiting
displaced-Apart now [] vs a = tt
displaced-Apart now (u ∷ us) vs a = ground (arith, displaced-Apart now us vs a.1)

pub has_user-unnotify :
    (us : List UserInfo) (user : ℕ) → has_user (unnotify us) user ≡ has_user us user
unfolding unnotify has_user
has_user-unnotify [] user = refl
has_user-unnotify (u ∷ us) user = ground (arith, has_user-unnotify us user)

unnotify-DistinctUsers : (us : List UserInfo) → DistinctUsers us → DistinctUsers (unnotify us)
unfolding unnotify
unnotify-DistinctUsers [] d = tt
unnotify-DistinctUsers (u ∷ us) d =
    ground (arith, unnotify-DistinctUsers us d.1, has_user-unnotify us u.user_id)

-- What `take` leaves of an entry that the user does not hold.
pub take_entry-displaced :
    (r : Request) (user duration : ℕ) (k : Key) (e : Entry)
    → Started r.now e.current_users
    → has_user e.current_users user ≡ false
    → (take_failed r user e ≡ false)
      × (take_entry r user duration k e ≡ record {
        status = exclusive;
        current_users = create_user_info r k user duration ∷ [];
        booking_list =
            unnotify (displaced r.now e.current_users ++ remove_user_info e.booking_list user);
      })
unfolding take_entry take_finish take_failed lock_holder has_user
take_entry-displaced r user duration k e a h =
    ground (arith, displace-front r.now user e.current_users a h)

pub take_entry-IsQueued :
    (r : Request) (user duration : ℕ) (k : Key) (e : Entry)
    → has_user e.current_users user ≡ false
    → IsQueued r.now e
    → IsQueued r.now (take_entry r user duration k e)
unfolding create_user_info
take_entry-IsQueued r user duration k e h v =
    let queue = remove_user_info e.booking_list user in
    let front = displaced r.now e.current_users in
    rw ((take_entry-displaced r user duration k e v.started h).1) (record {
      fits = tt;
      distinct = (has_nobody user, tt);
      in_line = unnotify-DistinctUsers (front ++ queue) (
          append_DistinctUsers front queue
            (displaced-DistinctUsers r.now e.current_users v.distinct)
            (remove-DistinctUsers e.booking_list user v.in_line)
            (displaced-Apart r.now e.current_users queue
              (Apart-remove e.current_users e.booking_list user v.apart)));
      apart = (
        ground (
          arith,
          has_user-unnotify (front ++ queue) user,
          has_user-append front queue user,
          has_user-displaced r.now e.current_users user h,
          has_user-remove_self e.booking_list user v.in_line,
        ),
        tt,
      );
      started = (omega arith, tt);
    })
  where
    has_nobody : (x : ℕ) → has_user [] x ≡ false
    has_nobody x = unfold has_user in refl
