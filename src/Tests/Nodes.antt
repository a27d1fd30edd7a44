-- ===== src/Tests/Nodes.antt =====
-- The node bot.
use lockbot.Base.{◌≤◌, ◌+◌, true, false, ◌≡◌, refl, none, some, List, [], ◌∷◌, arith, elem, ◌==◌}
use lockbot.Keys.{Key, machine}
use lockbot.Base.{dedup, dedup_onto, add_to_set, ℕ}
use lockbot.Users.{
  UserInfo, has_user, find_user_info, remove_user_info, duration_to_seconds, truncate,
  remaining_duration,
}
use lockbot.State.{lookup, get_all, modify, modify_all, is_idle, is_exclusive, settle, exclusive}
use lockbot.Keys.{key_eq}
use lockbot.Config.{in_cluster}
use lockbot.Policy.{check_acquisition_limit_locked, resource_policy_locked, is_capped}
use lockbot.State.Laws.{holding, held_by, Changes}
use lockbot.Config.{node}
use lockbot.Reply.{pass}
use lockbot.Command.{
  parse_command, check_nodes, parsed_duration, is_limited, check_limits, check_durations,
  check_entry_duration,
}
use lockbot.Sweep.{
  check_and_notify, sweep_user, sweep_store, sweep_entry, finish_entry, entry_scan, scan_users,
  scan_cons, swept_cons, warns, announces, user_alerts, remove_users,
}
use lockbot.Sweep.Laws.{AllStarted}
use lockbot.NodeBot.{lock, kickout, unlock_all, bare, can_lock, lock_entry}
use lockbot.NodeBot.History.{
  AllSound, locks, slocks, unlocks, kickouts, opkicks, sweeps, history, history-AllSound, step,
  Event,
}
use lockbot.NodeBot.Others.{step-others}
use lockbot.NodeBot.Locks.{lock-Locked, lock_refused, lock-le-max, Locked}
use lockbot.NodeBot.Release.{kickout-clears, Cleared, mentions, unlock_all-frees}
use lockbot.NodeBot.Expiry.{holding-sweep, SweptTo, sweep-mentions}
use lockbot.NodeBot.Wake.{sweep-wakes}
use lockbot.Tests.Data.{config, request, lease, both, ten, eleven, some_nodes, held, used}

some_nodes-AllSound : AllSound some_nodes
unfolding has_user find_user_info
some_nodes-AllSound = (
  record { fits = tt; distinct = (refl, tt); no_queue = refl },
  (
    record { fits = tt; distinct = (refl, (refl, tt)); no_queue = refl },
    (record { fits = tt; distinct = tt; no_queue = refl }, tt),
  ),
)

some_nodes-AllStarted : AllStarted 10000 some_nodes
some_nodes-AllStarted = ((omega arith, tt), ((omega arith, (omega arith, tt)), (tt, tt)))

abbrev some_events : List Event
some_events =
    locks request 1 (some ten) none
    ∷ slocks request 2 (some eleven) none
    ∷ opkicks 3 none
    ∷ sweeps 10050
    ∷ unlocks 2 bare
    ∷ kickouts 1 (some both)
    ∷ []

history-AllSound_example : AllSound (history (config node) some_events some_nodes)
history-AllSound_example = history-AllSound (config node) some_events some_nodes some_nodes-AllSound

step-others_example :
    holding 3 (machine 11) (step (config node) (slocks request 2 (some eleven) none) some_nodes)
    ≡ holding 3 (machine 11) some_nodes
step-others_example =
    step-others (config node) (slocks request 2 (some eleven) none) 3 (machine 11) some_nodes
      some_nodes-AllSound (λ e. omega (arith, e))

-- A lock by user 1 of node 10, for half an hour more, parses and is committed.
ten-parsed : parse_command (config node) 1 true (some ten) ≡ pass (machine 10 ∷ [], 1800)
unfolding parse_command check_nodes in_cluster parsed_duration duration_to_seconds truncate dedup
    dedup_onto add_to_set elem
ten-parsed = refl

ten-saved : (lock (config node) request 1 (some ten) none some_nodes).saved ≡ true
unfolding lock parse_command check_nodes in_cluster parsed_duration duration_to_seconds truncate
    dedup dedup_onto add_to_set elem check_acquisition_limit_locked get_all lookup key_eq
    resource_policy_locked is_capped can_lock is_idle is_exclusive has_user find_user_info
    check_limits is_limited check_durations check_entry_duration remaining_duration
ten-saved = refl

-- The lease of user 1 on node 10, and what the lock makes of it.
abbrev renewed : UserInfo
renewed = lease 1 9000 5400 false

ten-renewed :
    lookup (machine 10) (lock (config node) request 1 (some ten) none some_nodes).state
    ≡ some (record { status = exclusive; current_users = renewed ∷ []; booking_list = [] })
unfolding lock parse_command check_nodes in_cluster parsed_duration duration_to_seconds truncate
    dedup dedup_onto add_to_set elem check_acquisition_limit_locked get_all lookup key_eq
    resource_policy_locked is_capped can_lock is_idle is_exclusive has_user find_user_info
    check_limits is_limited check_durations check_entry_duration remaining_duration lock_entry
    modify modify_all
ten-renewed = refl

lock-Locked_example :
    (keys : List Key) × (duration : ℕ) × (parse_command (config node) 1 true (some ten)
      ≡ pass (keys, duration))
    × Changes
        (Locked 10000 1 duration)
        keys
        (machine 10)
        some_nodes
        (lock (config node) request 1 (some ten) none some_nodes).state
lock-Locked_example =
    lock-Locked (config node) request 1 (some ten) none some_nodes (machine 10) ten-saved

both-parsed :
    parse_command (config node) 2 true (some both) ≡ pass (machine 10 ∷ machine 11 ∷ [], 1800)
unfolding parse_command check_nodes in_cluster parsed_duration duration_to_seconds truncate dedup
    dedup_onto add_to_set elem
both-parsed = refl

lock_refused_example :
    ((lock (config node) request 2 (some both) none some_nodes).saved ≡ false)
    × ((lock (config node) request 2 (some both) none some_nodes).state ≡ some_nodes)
lock_refused_example =
    lock_refused (config node) request 2 1 (some both) none some_nodes
      (machine 10 ∷ machine 11 ∷ []) 1800 (machine 10) held some_nodes-AllSound both-parsed
      (unfold elem key_eq in refl) (unfold lookup key_eq in refl)
      (unfold has_user find_user_info in refl) (λ e. omega (arith, e))

lock-le-max_example : 9000 + 5400 ≤ 10000 + 7200
lock-le-max_example =
    lock-le-max (config node) request 1 (some ten) none some_nodes (machine 10 ∷ []) 1800
      (machine 10) (record { status = exclusive; current_users = renewed ∷ []; booking_list = [] })
      renewed (unfold is_limited elem in refl) ten-saved ten-parsed (unfold elem key_eq in refl)
      ten-renewed refl

both-kicked : (kickout (config node) 4 (some both) some_nodes).saved ≡ true
unfolding kickout parse_command check_nodes in_cluster dedup dedup_onto add_to_set elem get_all
    lookup key_eq
both-kicked = refl

kickout-clears_example :
    (keys : List Key) × (duration : ℕ) × (parse_command (config node) 4 false (some both)
      ≡ pass (keys, duration))
    × Changes
        (Cleared (mentions (kickout (config node) 4 (some both) some_nodes).result))
        keys
        (machine 11)
        some_nodes
        (kickout (config node) 4 (some both) some_nodes).state
kickout-clears_example =
    kickout-clears (config node) 4 (some both) some_nodes (machine 11) both-kicked

unlock_all-frees_example : holding 1 (machine 11) (unlock_all 1 some_nodes).state ≡ none
unlock_all-frees_example = unlock_all-frees 1 (machine 11) some_nodes some_nodes-AllSound

holding-sweep_example :
    SweptTo 10000
      (holding 1 (machine 11) some_nodes)
      (holding 1 (machine 11) (check_and_notify (config node) 10000 some_nodes).state)
holding-sweep_example =
    holding-sweep (config node) 10000 some_nodes 1 (machine 11) some_nodes-AllSound
      some_nodes-AllStarted

sweep-mentions_example :
    elem ◌==◌ 1 (check_and_notify (config node) 10000 some_nodes).mentioned ≡ true
sweep-mentions_example =
    sweep-mentions (config node) 10000 some_nodes (machine 11) used 1 (lease 1 9500 400 false)
      some_nodes-AllStarted (unfold lookup key_eq in refl) (unfold is_idle in refl)
      (unfold find_user_info in refl) refl refl

still_held :
    holding 3 (machine 11) (check_and_notify (config node) 10000 some_nodes).state
    ≡ some (lease 3 9900 3600 false)
unfolding holding held_by lookup key_eq check_and_notify sweep_store sweep_entry finish_entry
    entry_scan scan_users scan_cons swept_cons warns announces user_alerts remove_users
    remove_user_info is_idle settle sweep_user remaining_duration find_user_info
still_held = refl

sweep-wakes_example :
    (n : ℕ) × ((check_and_notify (config node) 10000 some_nodes).next 10001 ≡ some n)
    × (10001 + n ≤ 9900 + 3600)
sweep-wakes_example =
    sweep-wakes (config node) 10000 10001 some_nodes 3 (machine 11) (lease 3 9900 3600 false)
      some_nodes-AllSound some_nodes-AllStarted (omega arith) still_held (omega arith)
