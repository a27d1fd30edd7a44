-- ===== src/Tests/Starts.antt =====
-- The starts of bots from files.
use lockbot.Base.{◌≡◌, refl, inr, true, false, elem, none, some, List, [], ◌∷◌, arith}
use lockbot.Keys.{machine}
use lockbot.State.{Store}
use lockbot.Config.{node}
use lockbot.Loading.{
  RawEntry, RawUser, stamped, parsed, Directory, create_or_load_node_state, save_state, dump_nodes,
}
use lockbot.Loading.Devices.{RawCard, create_or_load_device_state}
use lockbot.Loading.Trips.{create_or_load-save_state}
use lockbot.Loading.Files.{NodeStart, DeviceStart, create_or_load-Started}
use lockbot.Tests.Data.{config, held, free}

-- The layout of long ago: flags, a `timestamp`, and a lease that is too long now.
abbrev an_old_user : RawUser
an_old_user = record {
  user_id = 2;
  start = stamped 9000;
  duration = 90000;
  is_notified = false;
  holding_id = 0;
  source = 0;
  booked_start_time = none;
}

abbrev an_old_entry : RawEntry
an_old_entry = record {
  status = none;
  in_use = true;
  is_shared = false;
  current_users = some (an_old_user ∷ []);
  booking_list = none;
}

abbrev an_old_directory : Directory RawEntry
an_old_directory = record {
  state_file = none;
  old_file = some (parsed [] [] ((11, an_old_entry) ∷ (99, an_old_entry) ∷ []));
}

abbrev an_old_card : RawCard
an_old_card = record {
  dev_id = 1;
  status = none;
  in_use = true;
  is_shared = false;
  current_users = some (an_old_user ∷ []);
  booking_list = none;
}

abbrev an_old_fleet : Directory (List RawCard)
an_old_fleet = record {
  state_file = some (parsed ((11, an_old_card ∷ []) ∷ []) [] []);
  old_file = none;
}

abbrev no_files : Directory RawEntry
no_files = record { state_file = none; old_file = none }

abbrev a_store : Store
a_store = (machine 10, held) ∷ (machine 11, free) ∷ (machine 12, free) ∷ []

create_or_load-Started_example :
    NodeStart 10000 (config node) (create_or_load_node_state 10000 (config node) an_old_directory)
    × DeviceStart 10000 (config node) (create_or_load_device_state 10000 (config node) an_old_fleet)
create_or_load-Started_example =
    create_or_load-Started 10000 (config node) an_old_directory an_old_fleet
      (tt, (tt, tt, ((omega arith, tt), ((omega arith, tt), tt))))
      (((((omega arith, tt), tt), tt), tt, tt), tt)

create_or_load-save_state_example :
    create_or_load_node_state 10000 (config node) (save_state (dump_nodes a_store) no_files)
    ≡ some (record {
      state = a_store;
      clamped = [];
      directory = save_state (dump_nodes a_store) no_files;
    })
create_or_load-save_state_example =
    create_or_load-save_state 10000 (config node) a_store no_files (refl, (refl, (refl, tt)))
      (unfold elem in refl, (unfold elem in refl, (unfold elem in refl, tt)))
      (((omega arith, inr (inr (omega arith))), tt), (tt, (tt, tt)))
