-- ===== src/Config.antt =====
-- python/lockbot/core/config.py: the values of one bot's configuration that the commands read.
use lockbot.Base.{ℕ, Bool, false, List, [], ◌∷◌, ◌==◌, ◌||◌, if◌then◌else◌, ℤ, Option, none, some}

pub data BotType : Type 0 where
  node device queue queue_device : BotType

-- `cluster` is CLUSTER_CONFIGS: the node keys in order, each with its device models (none for
-- NODE and QUEUE). The constructor of the source admits a MAX_RESOURCES_PER_USER of -1 or >= 1.
pub record Config : Type 0 where
  pub bot_type : BotType
  pub cluster : List (ℕ × List ℕ)
  pub forbid_relock : Bool
  pub max_resources_per_user : ℤ
  pub default_duration : ℕ
  pub time_alert : ℕ
  pub max_lock_duration : ℤ
  pub early_notify : Bool
  pub duration_whitelist : List ℕ

-- `cluster_configs[key]`; `none` is a key that is not there.
unfoldable pub devices_of : ℕ → List (ℕ × List ℕ) → Option (List ℕ)
devices_of k [] = none
devices_of k ((j, ds) ∷ c) = if j == k then some ds else devices_of k c

-- `key in cluster_configs`.
unfoldable pub in_cluster : ℕ → List (ℕ × List ℕ) → Bool
in_cluster k [] = false
in_cluster k ((j, ds) ∷ c) = j == k || in_cluster k c
