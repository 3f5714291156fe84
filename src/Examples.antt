-- ===== src/Examples.antt =====
-- Concrete data for the theorems: a backend, devices, a controller and databases.
mod Runs
mod Session
mod Databases
mod Network
mod Names
mod Drawing
mod Panels
mod Terminal
mod Population
use fuelflux.Base.{
  ℕ, ◌*◌, Bool, true, false, not, if◌then◌else◌, List, [], ◌∷◌, none, some, ℤ, pos, Text, codes,
}
use fuelflux.Types.{
  UserId, Volume, UserInfo, TankInfo, customer, in_tank, waiting, volume_entry, refueling,
  SystemState,
}
use fuelflux.Numbers.{litre}
use fuelflux.Sqlite.{Connection}
use fuelflux.Storage.{BacklogRow, MessageStorage, StoredMessage, refuel}
use fuelflux.UserCache.{UserCache, UserCacheEntry, Tables}
use fuelflux.Backend.{IBackend, BackendTankInfo}
use fuelflux.Services.{Services, ReportBody}
use fuelflux.Devices.Display.{Display}
use fuelflux.Devices.Keyboard.{Keyboard}
use fuelflux.Devices.CardReader.{CardReader}
use fuelflux.Devices.Pump.{Pump}
use fuelflux.Devices.FlowMeter.{FlowMeter}
use fuelflux.Controller.{Controller, no_user}

abbrev pub ivan : UserId
ivan = codes "04AB"

abbrev pub litres : ℕ → Volume
litres n = pos (n * litre)

abbrev pub two_tanks : List BackendTankInfo
two_tanks =
    record {
      id_tank = pos 7;
      visual_number_tank = pos 1;
      name_tank = codes "A";
      volume = litres 30;
    }
    ∷ record { id_tank = pos 8; visual_number_tank = pos 2; name_tank = codes "B"; volume = pos 0 }
    ∷ []

-- A backend whose state says whether a session is open, and whether it can be reached.
abbrev pub remote : Bool → IBackend Bool
remote reached = record {
  authorize = λ b uid. (reached, reached);
  deauthorize = λ b. (false, true);
  refuel = λ b n v. (b, b);
  intake = λ b n v d. (b, b);
  refuel_payload = λ b t. (b, b);
  intake_payload = λ b t. (b, b);
  is_authorized = λ b. b;
  get_role_id = λ b. pos 1;
  get_allowance = λ b. litres 50;
  get_price = λ b. litres 2;
  get_fuel_tanks = λ b. two_tanks;
  is_network_error = λ b. not reached;
  get_token = λ b. if b then codes "t" else [];
  get_last_error = λ b. [];
  get_controller_uid = λ b. codes "C1";
  fetch_user_cards = λ b first n. (b, []);
  fetch_fuel_tanks = λ b first n. (b, []);
}

abbrev pub services : Bool → Services Bool
services reached = record {
  backend = remote reached;
  dump = λ body. codes "{}";
  time_string = λ t. codes "12:00";
}

-- Every statement is done.
abbrev pub database : Connection
database = record { is_open = true; works = λ n. true; executed = 0 }

abbrev pub waiting_row : ℕ → BacklogRow
waiting_row n = record { rowid = n; uid = ivan; method = codes "Refuel"; payload = codes "{}" }

abbrev pub backlogged : List BacklogRow → MessageStorage
backlogged rows = record { db = database; backlog = rows; dead_messages = [] }

abbrev pub ivan_entry : UserCacheEntry
ivan_entry = record { uid = ivan; allowance = litres 20; role_id = pos 1 }

abbrev pub cache : UserCache
cache = record {
  db = database;
  tables_a = record { users = ivan_entry ∷ []; tanks = [] };
  tables_b = record { users = []; tanks = [] };
  meta_is_a = true;
  active_is_a = true;
  in_progress = false;
}

abbrev pub running_pump : Pump
running_pump = record {
  relay_ok = true;
  connected = true;
  running = true;
  callback = true;
  relay_on = true;
}

abbrev pub idle_pump : Pump
idle_pump = record running_pump { running = false; relay_on = false }

abbrev pub meter : FlowMeter
meter = record {
  present = true;
  connected = true;
  measuring = false;
  pulses = 0;
  current = pos 0;
  total = pos 0;
  callback = true;
  simulation = false;
}

-- A controller that waits for a card.
abbrev pub idle : Controller Bool
idle = record {
  state = waiting;
  previous_state = waiting;
  last_activity_time = 0;
  display = none;
  keyboard =
      some (record { present = true; connected = true; callback = true; input_enabled = true });
  card_reader =
      some (record { present = true; connected = true; callback = true; reading_enabled = true });
  pump = some idle_pump;
  flow_meter = some meter;
  backend = some false;
  message_storage = some (backlogged []);
  user_cache = some cache;
  cache_manager = true;
  current_user = no_user;
  available_tanks = [];
  cached_fuel_tanks = [];
  selected_tank = pos 0;
  entered_volume = pos 0;
  current_input = [];
  selected_intake_direction = in_tank;
  current_refuel_volume = pos 0;
  target_refuel_volume = pos 0;
  is_running = true;
  last_error_message = [];
  session_authorized_from_cache = false;
  event_queue = [];
  no_flow_cancel_timeout = 30;
  pump_running = false;
  no_flow_cancel_posted = false;
  last_flow_update_time = 0;
  last_flow_callback_time = 0;
  clock = 0;
  wall_clock = 0;
}

abbrev pub authorized_user : UserInfo
authorized_user = record { uid = ivan; role = customer; allowance = litres 50; price = litres 2 }

-- The controller in a session with a tank of 30 litres, at the given state.
abbrev pub session_at : SystemState → Controller Bool
session_at s = record idle {
  state = s;
  backend = some true;
  current_user = authorized_user;
  available_tanks = record { number = pos 1 } ∷ record { number = pos 2 } ∷ [];
  cached_fuel_tanks = two_tanks;
  selected_tank = pos 1;
}

-- The controller while fuel flows, with a target of 10 litres.
abbrev pub flowing : Controller Bool
flowing = record (session_at refueling) {
  pump = some running_pump;
  flow_meter = some (record meter { measuring = true });
  pump_running = true;
  entered_volume = litres 10;
  target_refuel_volume = litres 10;
}

-- A session that was opened from the cache.
abbrev pub offline : Controller Bool
offline = record (session_at refueling) {
  session_authorized_from_cache = true;
  current_refuel_volume = litres 10;
  entered_volume = litres 10;
}
