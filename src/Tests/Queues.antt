-- ===== src/Tests/Queues.antt =====
-- The queue bot.
use lockbot.Base.{
  ℕ, ◌+◌, ◌<◌, true, false, ◌≡◌, ◌⊎◌, refl, none, some, List, [], ◌∷◌, arith, elem, ◌==◌, dedup,
  dedup_onto, add_to_set,
}
use lockbot.Keys.{Key, machine, key_eq}
use lockbot.Users.{
  UserInfo, has_user, find_user_info, remove_user_info, is_first_user, duration_to_seconds,
  truncate, remaining_duration,
}
use lockbot.State.{Entry, lookup, get_all, is_idle, settle, idle}
use lockbot.State.Laws.{Changes}
use lockbot.Config.{in_cluster, queue}
use lockbot.Reply.{pass}
use lockbot.Policy.{check_acquisition_limit_locked, resource_policy_locked, is_capped, is_empty}
use lockbot.Command.{parse_command, check_nodes, parsed_duration, is_limited}
use lockbot.Sweep.{
  sweep_entry, finish_entry, entry_scan, scan_users, scan_cons, warns, announces, user_alerts,
  remove_users, sweep_user,
}
use lockbot.NodeBot.{bare}
use lockbot.QueueBot.{
  LockText, lock, can_lock, claimed_duration, check_limits, check_durations, check_entry_duration,
  booked_or,
}
use lockbot.QueueBot.Take.{take, take_loop, take_failed, displace, displace_one}
use lockbot.QueueBot.Sweep.{
  check_and_notify, sweep_store, queue_cons, queue_entry, entry_turn, queue_turn, notify_first,
  offered, set_booked_start,
}
use lockbot.QueueBot.History.{
  AllQueued, Event, takes, unlocks, kicklocks, releases, opkicks, sweeps, Ordered, clock,
  last_clock, history, history-AllQueued, step,
}
use lockbot.QueueBot.Line.{step-keeps_line, queue_of, ActsFor}
use lockbot.QueueBot.Claims.{lock-Claimed, Claims}
use lockbot.QueueBot.Handover.{take-Taken, Taken}
use lockbot.QueueBot.Offers.{sweep-Swept, Swept, sweep-tells_first}
use lockbot.QueueBot.Lapses.{lapse-is_silent, lapsed}
use lockbot.Tests.Data.{config, request, lease, free, both, ten, eleven, some_queues, offered_}

some_queues-AllQueued : AllQueued 10000 some_queues
unfolding has_user find_user_info
some_queues-AllQueued = (
  record {
    fits = tt;
    distinct = (refl, tt);
    in_line = (refl, (refl, tt));
    apart = (refl, tt);
    started = (omega arith, tt);
  },
  (
    record { fits = tt; distinct = tt; in_line = (refl, (refl, tt)); apart = tt; started = tt },
    (record { fits = tt; distinct = tt; in_line = tt; apart = tt; started = tt }, tt),
  ),
)

abbrev untimed : LockText
untimed = record { text = some eleven; has_duration = false }

abbrev some_events : List Event
some_events =
    takes request 4 (some ten)
    ∷ sweeps 10001
    ∷ unlocks 4 bare
    ∷ kicklocks 2 (some both)
    ∷ releases (machine 10 ∷ [])
    ∷ opkicks 1 none
    ∷ sweeps 10400
    ∷ []

some_events-Ordered : Ordered 10000 some_events
unfolding Ordered clock
some_events-Ordered = (
  omega arith,
  (omega arith, (omega arith, (omega arith, (omega arith, (omega arith, (omega arith, tt)))))),
)

history-AllQueued_example :
    AllQueued (last_clock 10000 some_events) (history (config queue) some_events some_queues)
history-AllQueued_example =
    history-AllQueued (config queue) 10000 some_events some_queues some_events-Ordered
      some_queues-AllQueued

step-keeps_line_example :
    remove_user_info (queue_of (machine 10) (step (config queue) (unlocks 2 bare) some_queues)) 2
    ≡ remove_user_info (queue_of (machine 10) some_queues) 2
step-keeps_line_example =
    step-keeps_line (config queue) 10000 (unlocks 2 bare) 2 (machine 10) some_queues
      some_queues-AllQueued (unfold ActsFor in refl)

untimed-saved : (lock (config queue) request 3 untimed none some_queues).saved ≡ true
unfolding lock parse_command check_nodes in_cluster parsed_duration duration_to_seconds truncate
    dedup dedup_onto add_to_set elem check_acquisition_limit_locked get_all lookup key_eq
    resource_policy_locked is_capped can_lock is_idle is_empty is_first_user has_user find_user_info
    check_limits is_limited check_durations check_entry_duration remaining_duration claimed_duration
    booked_or
untimed-saved = refl

lock-Claimed_example :
    (keys : List Key) × (duration : ℕ) × (parse_command (config queue) 3 true (some eleven)
      ≡ pass (keys, duration))
    × Changes
        (Claims 10000 3 untimed duration)
        keys
        (machine 11)
        some_queues
        (lock (config queue) request 3 untimed none some_queues).state
lock-Claimed_example =
    lock-Claimed (config queue) request 3 untimed none some_queues (machine 11)
      some_queues-AllQueued untimed-saved

ten-taken : (take (config queue) request 2 (some ten) some_queues).saved ≡ true
unfolding take parse_command check_nodes in_cluster parsed_duration duration_to_seconds truncate
    dedup dedup_onto add_to_set elem get_all lookup key_eq resource_policy_locked is_capped has_user
    find_user_info is_limited remaining_duration take_loop take_failed displace displace_one
ten-taken = refl

take-Taken_example :
    (keys : List Key) × (duration : ℕ) × (parse_command (config queue) 2 true (some ten)
      ≡ pass (keys, duration))
    × Changes
        (Taken 10000 2 duration)
        keys
        (machine 10)
        some_queues
        (take (config queue) request 2 (some ten) some_queues).state
take-Taken_example =
    take-Taken (config queue) request 2 (some ten) some_queues (machine 10) some_queues-AllQueued
      ten-taken

sweep-Swept_example :
    ((check_and_notify (config queue) 10000 some_queues).failed ≡ false)
    × (e' : Entry) × (lookup (machine 11) (check_and_notify (config queue) 10000 some_queues).state
        ≡ some e')
    × Swept (config queue) 10000 (machine 11) offered_ e'
sweep-Swept_example =
    sweep-Swept (config queue) 10000 some_queues (machine 11) offered_ some_queues-AllQueued
      (unfold lookup key_eq in refl)

-- The sweep passes the offer of node 11 on to user 2.
abbrev next_up : UserInfo
next_up = record (lease 2 10000 900 true) { booked_start_time = some 9300 }

abbrev turned : Entry
turned = record { status = idle; current_users = []; booking_list = next_up ∷ [] }

eleven-turned :
    lookup (machine 11) (check_and_notify (config queue) 10000 some_queues).state ≡ some turned
unfolding lookup key_eq check_and_notify sweep_store queue_cons queue_entry entry_turn queue_turn
    notify_first offered sweep_entry finish_entry entry_scan scan_users scan_cons warns announces
    user_alerts remove_users remove_user_info is_idle settle sweep_user remaining_duration
    find_user_info set_booked_start
eleven-turned = refl

sweep-tells_first_example :
    (next_up.is_notified ≡ true)
    × (((offered_.booking_list ≡ next_up ∷ []) × (10000 < next_up.start_time + 300))
        ⊎ (((check_and_notify (config queue) 10000 some_queues).sent ≡ true)
            × (elem ◌==◌ 2 (check_and_notify (config queue) 10000 some_queues).mentioned ≡ true)))
sweep-tells_first_example =
    sweep-tells_first (config queue) 10000 some_queues (machine 11) offered_ turned next_up []
      some_queues-AllQueued (unfold lookup key_eq in refl) eleven-turned (unfold is_idle in refl)
      refl

abbrev lapsing : Key × Entry
lapsing = (machine 12, record free { booking_list = lease 3 9600 600 true ∷ [] })

lapse-is_silent_example :
    (lookup (machine 12) (check_and_notify (config queue) 10000 (lapsing ∷ [])).state ≡ some free)
    × ((check_and_notify (config queue) 10000 (lapsing ∷ [])).saved ≡ true)
    × ((check_and_notify (config queue) 10000 (lapsing ∷ [])).sent ≡ false)
    × ((check_and_notify (config queue) 10000 (lapsing ∷ [])).mentioned ≡ [])
lapse-is_silent_example =
    lapse-is_silent (config queue) 10000 (lapsing ∷ []) (machine 12) lapsing.1
      (lease 3 9600 600 true) ((refl, lapsed _ refl (omega arith)), tt)
      (unfold lookup key_eq in refl) refl refl (omega arith)
