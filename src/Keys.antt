-- ===== src/Keys.antt =====
-- The keys of resources: a node key of CLUSTER_CONFIGS, or the card keys that
-- python/lockbot/core/queue_device_bot.py and python/lockbot/core/resource_policy.py write as text.
use lockbot.Base.{ℕ, Bool, true, false, ◌&&◌, ◌==◌, ◌≡◌, refl, ◌↔◌, arith}

-- A node key, or `f"{node}:dev{dev_id}"`.
pub data Key : Type 0 where
  machine : ℕ → Key
  card : ℕ → ℕ → Key

unfoldable pub key_eq : Key → Key → Bool
key_eq (machine a) (machine b) = a == b
key_eq (machine a) (card b j) = false
key_eq (card a i) (machine b) = false
key_eq (card a i) (card b j) = a == b && i == j

-- `key.rsplit(":dev", 1)[0]`.
unfoldable pub node_of : Key → ℕ
node_of (machine a) = a
node_of (card a i) = a

pub key_eq_iff : (a b : Key) → (key_eq a b ≡ true) ↔ (a ≡ b)
unfolding key_eq
key_eq_iff (machine a) (machine b) = ground arith
key_eq_iff (machine a) (card b j) = ground arith
key_eq_iff (card a i) (machine b) = ground arith
key_eq_iff (card a i) (card b j) = ground arith

pub key_eq_refl : (a : Key) → key_eq a a ≡ true
key_eq_refl a = (key_eq_iff a a).1 refl
