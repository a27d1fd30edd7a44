-- ===== src/Tests/Data.antt =====
-- Configurations, commands and states to run on: users 1 to 4, nodes 10, 11 and 12.
use lockbot.Base.{ℕ, Bool, true, false, none, some, [], ◌∷◌, pos, negsuc}
use lockbot.Keys.{machine}
use lockbot.Users.{UserInfo, Request, minutes}
use lockbot.State.{idle, exclusive, shared, Entry, Store, Card, Fleet}
use lockbot.Config.{Config, BotType}
use lockbot.Command.{Match}
use lockbot.DeviceBot.Parse
use lockbot.DeviceBot.Parse.{range}

abbrev pub config : BotType → Config
config kind = record {
  bot_type = kind;
  cluster = (10, 0 ∷ 0 ∷ []) ∷ (11, 0 ∷ 0 ∷ []) ∷ (12, 0 ∷ 0 ∷ []) ∷ [];
  forbid_relock = false;
  max_resources_per_user = negsuc 0;
  default_duration = 7200;
  time_alert = 300;
  max_lock_duration = pos 7200;
  early_notify = true;
  duration_whitelist = 4 ∷ [];
}

abbrev pub request : Request
request = record { now = 10000; source = 0; uuid = λ k. 7 }

-- `user` from `start` on for `duration`.
abbrev pub lease : ℕ → ℕ → ℕ → Bool → UserInfo
lease user start duration told = record {
  user_id = user;
  start_time = start;
  duration = duration;
  is_notified = told;
  holding_id = 5;
  source = 0;
  booked_start_time = none;
}

abbrev pub free : Entry
free = record { status = idle; current_users = []; booking_list = [] }

-- `10 11 30m`, `10 30m` and `11`.
abbrev pub both : Match
both = record { words = 10 ∷ 11 ∷ []; amount = some ((record { digits = 30; scale = 0 }), minutes) }

abbrev pub ten : Match
ten = record { words = 10 ∷ []; amount = some ((record { digits = 30; scale = 0 }), minutes) }

abbrev pub eleven : Match
eleven = record { words = 11 ∷ []; amount = none }

-- User 1 holds node 10 for an hour, users 1 and 3 share node 11, and nobody holds node 12.
abbrev pub held : Entry
held = record {
  status = exclusive;
  current_users = lease 1 9000 3600 false ∷ [];
  booking_list = [];
}

abbrev pub used : Entry
used = record {
  status = shared;
  current_users = lease 1 9500 400 false ∷ lease 3 9900 3600 false ∷ [];
  booking_list = [];
}

abbrev pub some_nodes : Store
some_nodes = (machine 10, held) ∷ (machine 11, used) ∷ (machine 12, free) ∷ []

-- User 1 holds node 10 and users 2 and 3 wait for it; node 11 is free, and user 3 has had an offer
-- of it for too long, with user 2 behind.
abbrev pub wanted : Entry
wanted = record {
  status = exclusive;
  current_users = lease 1 9000 3600 false ∷ [];
  booking_list = lease 2 9100 600 false ∷ lease 3 9200 600 false ∷ [];
}

abbrev pub offered_ : Entry
offered_ = record {
  status = idle;
  current_users = [];
  booking_list = lease 3 9600 600 true ∷ lease 2 9300 900 false ∷ [];
}

abbrev pub some_queues : Store
some_queues = (machine 10, wanted) ∷ (machine 11, offered_) ∷ (machine 12, free) ∷ []

-- User 1 holds the first card of node 10, both of node 11 and both of node 12.
abbrev pub held_card : ℕ → Card
held_card i = record { dev_id = i; dev_model = 0; entry = held }

abbrev pub free_card : ℕ → Card
free_card i = record { dev_id = i; dev_model = 0; entry = free }

abbrev pub some_cards : Fleet
some_cards =
    (10, held_card 0 ∷ free_card 1 ∷ [])
    ∷ (11, held_card 0 ∷ held_card 1 ∷ [])
    ∷ (12, held_card 0 ∷ held_card 1 ∷ [])
    ∷ []

-- `10 dev0-1 30m`.
abbrev pub ten_cards : Parse.Match
ten_cards = record {
  words = 10 ∷ [];
  devs = some (range 0 1);
  amount = some ((record { digits = 30; scale = 0 }), minutes);
}
