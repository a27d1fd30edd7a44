-- ===== src/Loading.antt =====
-- python/lockbot/core/io.py: the state that a bot starts with, from its state file and the cluster that
-- it is configured for. What a file holds enters as data, after the JSON parser.
use lockbot.Base.{
  ℕ, ◌+◌, Bool, true, false, ◌||◌, Option, none, some, List, [], ◌∷◌, ◌++◌, ◌==◌, if◌then◌else◌,
  dedup_onto,
}
use lockbot.Users.{UserInfo, apply_max_duration_limit}
use lockbot.Keys.{Key, machine, node_of}
use lockbot.State.{Status, idle, exclusive, shared, Entry, Card, Store, Fleet, modify}
use lockbot.Config.{Config, devices_of, in_cluster}
pub mod Devices
pub mod Clamped
pub mod Loads
pub mod Trips
pub mod Files

-- Where a record of a file has its start: under `start_time`, or in an old file under `timestamp`.
pub data Start : Type 0 where
  dated stamped : ℕ → Start

-- A user record of a file.
pub record RawUser : Type 0 where
  pub user_id : ℕ
  pub start : Start
  pub duration : ℕ
  pub is_notified : Bool
  pub holding_id : ℕ
  pub source : ℕ
  pub booked_start_time : Option ℕ

-- An entry of a file: old files have two flags (false when they are missing) in place of `status`.
pub record RawEntry : Type 0 where
  pub status : Option Status
  pub in_use : Bool
  pub is_shared : Bool
  pub current_users : Option (List RawUser)
  pub booking_list : Option (List RawUser)

-- The contents of a file under its current and its two older keys, each empty when it is missing.
pub data FileContent {ℓ} (A : Type ℓ) : Type ℓ where
  unreadable : FileContent A
  parsed : List (ℕ × A) → List (ℕ × A) → List (ℕ × A) → FileContent A

-- The directory of a bot: bot_state.json, and cluster_status.json of the old layout.
pub record Directory {ℓ} (A : Type ℓ) : Type ℓ where
  pub state_file : Option (FileContent A)
  pub old_file : Option (FileContent A)

unfoldable pub migrate_status_fields : Option Status → Bool → Bool → Status
migrate_status_fields none in_use is_shared =
    if in_use then (if is_shared then shared else exclusive) else idle
migrate_status_fields (some st) in_use is_shared = st

-- `_migrate_user_info_fields` on one start.
unfoldable pub migrate_start : Start → ℕ
migrate_start (dated t) = t
migrate_start (stamped t) = t

unfoldable pub migrate_user_info : RawUser → UserInfo
migrate_user_info r = record {
  user_id = r.user_id;
  start_time = migrate_start r.start;
  duration = r.duration;
  is_notified = r.is_notified;
  holding_id = r.holding_id;
  source = r.source;
  booked_start_time = r.booked_start_time;
}

unfoldable pub migrate_user_info_fields : List RawUser → List UserInfo
migrate_user_info_fields [] = []
migrate_user_info_fields (r ∷ rs) = migrate_user_info r ∷ migrate_user_info_fields rs

-- `.get(field, [])`.
unfoldable pub or_empty : {A : Type 0} → Option (List A) → List A
or_empty none = []
or_empty (some us) = us

-- The loading of one entry: its value, and the users whose leases were cut. A lease that starts in the
-- future, of a user who is not exempt, raises an AssertionError.
unfoldable pub load_entry : ℕ → Config → RawEntry → Option (Entry × List ℕ)
load_entry now cfg r =
    let users = migrate_user_info_fields (or_empty r.current_users) in
    elim (apply_max_duration_limit now users cfg.max_lock_duration cfg.duration_whitelist) [
      | none ↦ none
      | some (kept, clamped) ↦ some (
        record {
          status = migrate_status_fields r.status r.in_use r.is_shared;
          current_users = kept;
          booking_list = migrate_user_info_fields (or_empty r.booking_list);
        },
        clamped,
      )
    ]

unfoldable pub idle_entry : Entry
idle_entry = record { status = idle; current_users = []; booking_list = [] }

unfoldable pub default_node_state : List (ℕ × List ℕ) → Store
default_node_state [] = []
default_node_state ((key, devices) ∷ cluster) =
    (machine key, idle_entry) ∷ default_node_state cluster

-- The loop over `loaded_state.items()`, with `clamped_user_ids`; `none` is an exception.
unfoldable pub load_nodes :
    ℕ → Config → List (ℕ × RawEntry) → Store → List ℕ → Option (Store × List ℕ)
load_nodes now cfg [] state ids = some (state, ids)
load_nodes now cfg ((key, r) ∷ rs) state ids =
    if in_cluster key cfg.cluster
    then elim (load_entry now cfg r) [
      | none ↦ none
      | some (e, clamped) ↦
          load_nodes now cfg rs (modify (λ k old. e) (machine key) state)
            (dedup_onto ◌==◌ ids clamped)
    ]
    else load_nodes now cfg rs state ids

module _ {ℓ} {A : Type ℓ} where
  unfoldable pub migrate_old_state_file : Directory A → Directory A
  migrate_old_state_file d = elim d.state_file [
    | some f ↦ d
    | none ↦ record { state_file = d.old_file; old_file = none }
  ]

  -- `a or b`, for dictionaries.
  unfoldable pub or_dict : List (ℕ × A) → List (ℕ × A) → List (ℕ × A)
  or_dict [] b = b
  or_dict (a ∷ as_) b = a ∷ as_

  unfoldable pub load_state_from_file : FileContent A → List (ℕ × A)
  load_state_from_file unreadable = []
  load_state_from_file (parsed bot_state cluster_state cluster_status) =
      or_dict bot_state (or_dict cluster_state cluster_status)

  unfoldable pub read_state : Option (FileContent A) → List (ℕ × A)
  read_state none = []
  read_state (some f) = load_state_from_file f

-- What is written for a user and an entry.
unfoldable pub dump_user : UserInfo → RawUser
dump_user u = record {
  user_id = u.user_id;
  start = dated u.start_time;
  duration = u.duration;
  is_notified = u.is_notified;
  holding_id = u.holding_id;
  source = u.source;
  booked_start_time = u.booked_start_time;
}

unfoldable pub dump_users : List UserInfo → List RawUser
dump_users [] = []
dump_users (u ∷ us) = dump_user u ∷ dump_users us

unfoldable pub dump_entry : Entry → RawEntry
dump_entry e = record {
  status = some e.status;
  in_use = false;
  is_shared = false;
  current_users = some (dump_users e.current_users);
  booking_list = some (dump_users e.booking_list);
}

unfoldable pub dump_nodes : Store → List (ℕ × RawEntry)
dump_nodes [] = []
dump_nodes ((k, e) ∷ s) = (node_of k, dump_entry e) ∷ dump_nodes s

-- `save_bot_state_to_file`: the file's new contents.
unfoldable pub save_state {ℓ} : {A : Type ℓ} → List (ℕ × A) → Directory A → Directory A
save_state entries d = record d { state_file = some (parsed entries [] []) }

-- What a loader returns, and the directory that it leaves.
pub record Loaded {ℓ} (A S : Type ℓ) : Type ℓ where
  pub state : S
  pub clamped : List ℕ
  pub directory : Directory A

unfoldable pub save_clamped {ℓ} :
    {A S : Type ℓ} → (S → List (ℕ × A)) → S → List ℕ → Directory A → Loaded A S
save_clamped dump state [] d = record { state = state; clamped = []; directory = d }
save_clamped dump state (i ∷ is) d = record {
  state = state;
  clamped = i ∷ is;
  directory = save_state (dump state) d;
}

unfoldable pub create_or_load_node_state :
    ℕ → Config → Directory RawEntry → Option (Loaded RawEntry Store)
create_or_load_node_state now cfg dir =
    let d = migrate_old_state_file dir in
    elim (load_nodes now cfg (read_state d.state_file) (default_node_state cfg.cluster) []) [
      | none ↦ none
      | some (state, ids) ↦ some (save_clamped dump_nodes state ids d)
    ]
