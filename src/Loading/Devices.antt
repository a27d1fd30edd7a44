-- ===== src/Loading/Devices.antt =====
-- The loading of a bot whose nodes have cards, in python/lockbot/core/io.py and
-- python/lockbot/core/queue_device_bot.py.
use lockbot.Base.{
  ℕ, ◌+◌, Bool, false, Option, none, some, List, [], ◌∷◌, ◌==◌, if◌then◌else◌, dedup_onto,
}
use lockbot.Users.{UserInfo, apply_max_duration_limit}
use lockbot.State.{Status, Entry, Card, Fleet}
use lockbot.Config.{Config, in_cluster}
use lockbot.Loading.{
  RawUser, Directory, or_empty, migrate_status_fields, migrate_user_info_fields, idle_entry,
  migrate_old_state_file, read_state, dump_users, Loaded, save_clamped,
}

-- A card of a file. Its model is not read: the configuration's counts. The bookings of a card are not
-- migrated: they have the current fields.
pub record RawCard : Type 0 where
  pub dev_id : ℕ
  pub status : Option Status
  pub in_use : Bool
  pub is_shared : Bool
  pub current_users : Option (List RawUser)
  pub booking_list : Option (List UserInfo)

-- The cards with the indices from `n` on.
unfoldable pub default_cards : ℕ → List ℕ → List Card
default_cards n [] = []
default_cards n (model ∷ models) =
    (record { dev_id = n; dev_model = model; entry = idle_entry }) ∷ default_cards (n + 1) models

unfoldable pub default_fleet : List (ℕ × List ℕ) → Fleet
default_fleet [] = []
default_fleet ((key, devices) ∷ cluster) = (key, default_cards 0 devices) ∷ default_fleet cluster

-- `old_by_id`: the last card of an index counts.
unfoldable pub last_card : ℕ → List RawCard → Option RawCard
last_card i [] = none
last_card i (c ∷ cs) = elim (last_card i cs) [
  | some r ↦ some r
  | none ↦ if c.dev_id == i then some c else none
]

-- `device_status["current_users"]` raises a KeyError when it is missing.
unfoldable pub load_card_entry : ℕ → Config → RawCard → Option (Entry × List ℕ)
load_card_entry now cfg r = elim r.current_users [
  | none ↦ none
  | some us ↦
      let users = migrate_user_info_fields us in
      elim (apply_max_duration_limit now users cfg.max_lock_duration cfg.duration_whitelist) [
        | none ↦ none
        | some (kept, clamped) ↦ some (
          record {
            status = migrate_status_fields r.status r.in_use r.is_shared;
            current_users = kept;
            booking_list = or_empty r.booking_list;
          },
          clamped,
        )
      ]
]

-- The loop over `default_node`, with `clamped_user_ids`.
unfoldable pub load_cards :
    ℕ → Config → List RawCard → List Card → List ℕ → Option (List Card × List ℕ)
load_cards now cfg old [] ids = some ([], ids)
load_cards now cfg old (c ∷ cs) ids = elim (last_card c.dev_id old) [
  | none ↦ elim (load_cards now cfg old cs ids) [
    | none ↦ none
    | some (rest, ids') ↦ some (c ∷ rest, ids')
  ]
  | some r ↦ elim (load_card_entry now cfg r) [
    | none ↦ none
    | some (e, clamped) ↦ elim (load_cards now cfg old cs (dedup_onto ◌==◌ ids clamped)) [
      | none ↦ none
      | some (rest, ids') ↦ some ((record c { entry = e }) ∷ rest, ids')
    ]
  ]
]

-- `default_state[node_key]`, updated in place; a key that is not there is left out by the caller.
unfoldable pub load_machine :
    ℕ → Config → ℕ → List RawCard → Fleet → List ℕ → Option (Fleet × List ℕ)
load_machine now cfg key old [] ids = some ([], ids)
load_machine now cfg key old ((k, cs) ∷ f) ids =
    if k == key
    then elim (load_cards now cfg old cs ids) [
      | none ↦ none
      | some (cs', ids') ↦ some ((k, cs') ∷ f, ids')
    ]
    else elim (load_machine now cfg key old f ids) [
      | none ↦ none
      | some (f', ids') ↦ some ((k, cs) ∷ f', ids')
    ]

unfoldable pub load_fleet :
    ℕ → Config → List (ℕ × List RawCard) → Fleet → List ℕ → Option (Fleet × List ℕ)
load_fleet now cfg [] state ids = some (state, ids)
load_fleet now cfg ((key, old) ∷ rest) state ids =
    if in_cluster key cfg.cluster
    then elim (load_machine now cfg key old state ids) [
      | none ↦ none
      | some (state', ids') ↦ load_fleet now cfg rest state' ids'
    ]
    else load_fleet now cfg rest state ids

unfoldable pub dump_card : Card → RawCard
dump_card c = record {
  dev_id = c.dev_id;
  status = some c.entry.status;
  in_use = false;
  is_shared = false;
  current_users = some (dump_users c.entry.current_users);
  booking_list = some c.entry.booking_list;
}

unfoldable pub dump_cards : List Card → List RawCard
dump_cards [] = []
dump_cards (c ∷ cs) = dump_card c ∷ dump_cards cs

unfoldable pub dump_fleet : Fleet → List (ℕ × List RawCard)
dump_fleet [] = []
dump_fleet ((k, cs) ∷ f) = (k, dump_cards cs) ∷ dump_fleet f

-- Also `create_or_load_queue_device_state`: the queue that it adds where it is missing is the empty one
-- that an entry has from the start.
unfoldable pub create_or_load_device_state :
    ℕ → Config → Directory (List RawCard) → Option (Loaded (List RawCard) Fleet)
create_or_load_device_state now cfg dir =
    let d = migrate_old_state_file dir in
    elim (load_fleet now cfg (read_state d.state_file) (default_fleet cfg.cluster) []) [
      | none ↦ none
      | some (state, ids) ↦ some (save_clamped dump_fleet state ids d)
    ]
