-- ===== src/Controller.antt =====
-- The state of include/controller.h with that of its state machine, its event queue and its input.
pub mod Keep
pub mod Flow
pub mod Session
pub mod Authorization
pub mod Reports
pub mod Screen
pub mod Peripherals
pub mod Keys
use fuelflux.Base.{
  ℕ, ◌+◌, zero, Bool, true, false, ltb, ◌==◌, if◌then◌else◌, List, [], ◌∷◌, ◌++◌, Option, none,
  some, Text, pos, length, is_empty, drop_last,
}
use fuelflux.Types.{
  Volume, TankNumber, UserRole, unknown, IntakeDirection, in_tank, SystemState, Event,
  input_updated, UserInfo, TankInfo,
}
use fuelflux.Numbers.{to_int, to_string}
use fuelflux.Devices.Display.{Display}
use fuelflux.Devices.Keyboard.{Keyboard}
use fuelflux.Devices.CardReader.{CardReader}
use fuelflux.Devices.Pump.{Pump}
use fuelflux.Devices.FlowMeter.{FlowMeter}
use fuelflux.Storage.{MessageStorage}
use fuelflux.UserCache.{UserCache}
use fuelflux.Backend.{BackendTankInfo}

-- A pointer that may be null is an `Option`. `cache_manager` says whether the cache manager was
-- made; it holds the same user cache as the controller. `clock` is steady_clock::now() and
-- `wall_clock` system_clock::now(), in milliseconds; the environment moves them.
pub record Controller (B : Type 0) : Type 0 where
  pub state : SystemState
  pub previous_state : SystemState
  pub last_activity_time : ℕ
  pub display : Option Display
  pub keyboard : Option Keyboard
  pub card_reader : Option CardReader
  pub pump : Option Pump
  pub flow_meter : Option FlowMeter
  pub backend : Option B
  pub message_storage : Option MessageStorage
  pub user_cache : Option UserCache
  pub cache_manager : Bool
  pub current_user : UserInfo
  pub available_tanks : List TankInfo
  pub cached_fuel_tanks : List BackendTankInfo
  pub selected_tank : TankNumber
  pub entered_volume : Volume
  pub current_input : Text
  pub selected_intake_direction : IntakeDirection
  pub current_refuel_volume : Volume
  pub target_refuel_volume : Volume
  pub is_running : Bool
  pub last_error_message : Text
  pub session_authorized_from_cache : Bool
  pub event_queue : List Event
  pub no_flow_cancel_timeout : ℕ
  pub pump_running : Bool
  pub no_flow_cancel_posted : Bool
  pub last_flow_update_time : ℕ
  pub last_flow_callback_time : ℕ
  pub clock : ℕ
  pub wall_clock : ℕ

abbrev pub input_max_length : ℕ
input_max_length = 1024

abbrev pub no_user : UserInfo
no_user = record { uid = []; role = unknown; allowance = pos 0; price = pos 0 }

-- The loop of discardPendingInputUpdatedEvents.
pub drop_input_updated : List Event → List Event
drop_input_updated [] = []
drop_input_updated (input_updated ∷ es) = drop_input_updated es
drop_input_updated (e ∷ es) = e ∷ es

module _ {B : Type 0} where
  unfoldable pub post_event : Controller B → Event → Controller B
  post_event c e = record c { event_queue = c.event_queue ++ e ∷ [] }

  unfoldable pub discard_pending_input_updated : Controller B → Controller B
  unfolding drop_input_updated
  discard_pending_input_updated c = record c { event_queue = drop_input_updated c.event_queue }

  unfoldable pub clear_input : Controller B → Controller B
  unfolding post_event
  clear_input c = post_event (record c { current_input = [] }) input_updated

  unfoldable pub clear_input_silent : Controller B → Controller B
  clear_input_silent c = record c { current_input = [] }

  unfoldable pub add_digit_to_input : Controller B → ℕ → Controller B
  unfolding post_event
  add_digit_to_input c digit =
      if ltb (length c.current_input) input_max_length
      then post_event (record c { current_input = c.current_input ++ digit ∷ [] }) input_updated
      else c

  unfoldable pub remove_last_digit : Controller B → Controller B
  unfolding post_event
  remove_last_digit c =
      if is_empty c.current_input
      then c
      else post_event (record c { current_input = drop_last c.current_input }) input_updated

  unfoldable pub set_max_value : Controller B → Controller B
  unfolding post_event
  set_max_value c =
      post_event (record c { current_input = to_string (to_int c.current_user.allowance) })
        input_updated

  pub reset_session_data : Controller B → Controller B
  reset_session_data c = record c {
    current_user = no_user;
    available_tanks = [];
    cached_fuel_tanks = [];
    selected_tank = pos 0;
    entered_volume = pos 0;
    selected_intake_direction = in_tank;
    current_refuel_volume = pos 0;
    target_refuel_volume = pos 0;
    session_authorized_from_cache = false;
  }

  pub start_new_session : Controller B → Controller B
  unfolding reset_session_data clear_input post_event
  start_new_session c = post_event (clear_input (reset_session_data c)) input_updated
