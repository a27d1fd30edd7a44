-- ===== src/Policy.antt =====
-- The acquisition policies: python/lockbot/core/resource_policy.py, and the two checks
-- `_check_acquisition_limit_locked` and `_resource_policy_locked` of
-- python/lockbot/core/base_bot.py.
use lockbot.Base.{
  ℕ, ◌+◌, Bool, true, false, ◌&&◌, ◌||◌, not, Option, none, some, List, [], ◌∷◌, ◌++◌, ltb, ◌==◌,
  if◌then◌else◌, length, dedup_onto, difference, add_to_set, ℤ, pos, negsuc,
}
use lockbot.Users.{UserInfo}
use lockbot.Keys.{Key, key_eq, node_of}
use lockbot.State.{Entry, Card, Store, Fleet, BotState, nodes, fleet, lookup, resource_entries}
use lockbot.Config.{Config, BotType, node, device, queue, queue_device}
use lockbot.Reply.{
  Check, pass, raised, show_error, resource_count_limit, relock_forbidden, claim_duration_limit,
  key_error, acquisition_limit_exceeded, or_raise, ◌>>=◌, ◌>>◌, require,
}

-- `any(u["user_id"] == user_id for u in users)`.
unfoldable pub any_user : ℕ → List UserInfo → Bool
any_user user [] = false
any_user user (u ∷ us) = u.user_id == user || any_user user us

-- The `live` and `booked` lists: leases not run out, bookings whose claim window is open.
unfoldable pub live_users : ℕ → List UserInfo → List UserInfo
live_users now [] = []
live_users now (u ∷ us) =
    if ltb now (u.start_time + u.duration) then u ∷ live_users now us else live_users now us

unfoldable pub booked_users : ℕ → List UserInfo → List UserInfo
booked_users now [] = []
booked_users now (u ∷ us) =
    if not u.is_notified || ltb now (u.start_time + 300)
    then u ∷ booked_users now us
    else booked_users now us

unfoldable pub claims : ℕ → ℕ → Entry → Bool
claims user now e =
    any_user user (live_users now e.current_users ++ booked_users now e.booking_list)

-- The keys of `claimed`. A dictionary's keys are distinct, so each is added once.
unfoldable pub claimed_keys : ℕ → ℕ → Store → List Key
claimed_keys user now [] = []
claimed_keys user now ((k, e) ∷ s) =
    if claims user now e then k ∷ claimed_keys user now s else claimed_keys user now s

pub data ResourceUnit : Type 0 where
  card_unit node_unit : ResourceUnit

unfoldable pub resource_unit : BotType → ResourceUnit
resource_unit node = node_unit
resource_unit device = card_unit
resource_unit queue = node_unit
resource_unit queue_device = card_unit

pub record Policy : Type 0 where
  pub forbid_relock : Bool
  pub max_resources_per_user : ℤ
  pub unit : ResourceUnit
  pub claimed_resource_count : ℕ
  pub claimed_resources : List Key

unfoldable pub policy_for_state : BotState → Config → ℕ → ℕ → Policy
policy_for_state state cfg user now =
    let claimed = claimed_keys user now (resource_entries state) in
    record {
      forbid_relock = cfg.forbid_relock;
      max_resources_per_user = cfg.max_resources_per_user;
      unit = resource_unit cfg.bot_type;
      claimed_resource_count = length claimed;
      claimed_resources = claimed;
    }

-- `cap != -1`, and `n > cap`.
unfoldable pub is_capped : ℤ → Bool
is_capped (pos c) = true
is_capped (negsuc n) = not (n == 0)

unfoldable pub exceeds : ℕ → ℤ → Bool
exceeds n (pos c) = ltb c n
exceeds n (negsuc m) = true

unfoldable pub is_empty {ℓ} : {A : Type ℓ} → List A → Bool
is_empty [] = true
is_empty (x ∷ xs) = false

-- The test that refuses a request for more resources than the cap.
unfoldable pub over_cap : List Key → List Key → ℤ → Bool
over_cap targets held cap =
    let additions = difference key_eq targets held in
    is_capped cap && (not (is_empty additions) && exceeds (length held + length additions) cap)

-- `next((u for u in entry["booking_list"] if ...), None)`.
unfoldable pub booked_duration : ℕ → List UserInfo → Option ℕ
booked_duration user [] = none
booked_duration user (u ∷ us) =
    if u.user_id == user then some u.duration else booked_duration user us

-- The claim is longer than the booking.
unfoldable pub claims_too_long : Option ℕ → Option ℕ → Bool
claims_too_long none booked = false
claims_too_long (some d) none = false
claims_too_long (some d) (some b) = ltb b d

-- The body of the loop under `forbid_relock`.
unfoldable pub check_relock : ℕ → Option ℕ → Entry → Check (Unit {0})
check_relock user claim e = do
  require (not (any_user user e.current_users)) (show_error user relock_forbidden)
  require (not (claims_too_long claim (booked_duration user e.booking_list)))
      (show_error user claim_duration_limit)

unfoldable pub check_relocks : ℕ → Option ℕ → Store → List Key → Check (Unit {0})
check_relocks user claim entries [] = pass tt
check_relocks user claim entries (k ∷ ks) = do
  e ← or_raise (lookup k entries) key_error
  check_relock user claim e
  check_relocks user claim entries ks

-- `set(targets)`; the source leaves the order of the set open, here the first places count.
unfoldable pub key_set : List Key → List Key
key_set targets = dedup_onto key_eq [] targets

unfoldable pub resource_policy_locked :
    Config → ℕ → BotState → ℕ → List Key → Option ℕ → Check (Unit {0})
resource_policy_locked cfg now state user targets claim =
    if not cfg.forbid_relock && not (is_capped cfg.max_resources_per_user) then pass tt else (do
      let policy = policy_for_state state cfg user now
      let wanted = key_set targets
      require (not (over_cap wanted policy.claimed_resources policy.max_resources_per_user))
          (show_error user resource_count_limit)
      let relocks = check_relocks user claim (resource_entries state) wanted
      if policy.forbid_relock then relocks else pass tt)

-- Some entry of the node names the user, as a holder or in its queue.
unfoldable pub node_names : ℕ → List Entry → Bool
node_names user [] = false
node_names user (e ∷ es) = any_user user (e.current_users ++ e.booking_list) || node_names user es

unfoldable pub cards_named : List Card → List Entry
cards_named [] = []
cards_named (c ∷ cs) = c.entry ∷ cards_named cs

-- `held`: the nodes of `state.bot_state` that name the user.
unfoldable pub held_in_nodes : ℕ → Store → List ℕ
held_in_nodes user [] = []
held_in_nodes user ((k, e) ∷ s) =
    let rest = held_in_nodes user s in
    if node_names user (e ∷ []) then add_to_set ◌==◌ (node_of k) rest else rest

unfoldable pub held_in_fleet : ℕ → Fleet → List ℕ
held_in_fleet user [] = []
held_in_fleet user ((n, cs) ∷ f) =
    let rest = held_in_fleet user f in
    if node_names user (cards_named cs) then add_to_set ◌==◌ n rest else rest

unfoldable pub held_nodes : ℕ → BotState → List ℕ
held_nodes user (nodes s) = held_in_nodes user s
held_nodes user (fleet f) = held_in_fleet user f

unfoldable pub check_acquisition_limit_locked : BotState → ℕ → List ℕ → Option ℕ → Check (Unit {0})
check_acquisition_limit_locked state user node_keys none = pass tt
check_acquisition_limit_locked state user node_keys (some limit) =
    let held = held_nodes user state in
    let additions = difference ◌==◌ (dedup_onto ◌==◌ [] node_keys) held in
    require (not (not (is_empty additions) && ltb limit (length held + length additions)))
      (raised acquisition_limit_exceeded)
