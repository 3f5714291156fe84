-- ===== src/Machine/Process.antt =====
-- StateMachine::processEvent, reset and the poll of the timeout thread. The controller is always
-- there: the machine is a member of it and is given `this`.
use fuelflux.Base.{ℕ, ◌-◌, ◌/◌, Bool, true, false, not, ◌&&◌, leb, ◌==◌, if◌then◌else◌, none, some}
use fuelflux.Types.{
  SystemState, waiting, pin_entry, authorization, not_authorized, cannot_authorize, tank_selection,
  volume_entry, refueling, refuel_data_transmission, refueling_complete, intake_direction_selection,
  intake_volume_entry, intake_data_transmission, intake_complete, error, Event, input_updated,
  cancel_pressed, cancel_no_fuel, timeout,
}
use fuelflux.Services.{Services}
use fuelflux.Controller.{Controller, post_event, discard_pending_input_updated}
use fuelflux.Controller.Screen.{update_display}
use fuelflux.Controller.Peripherals.{enable_card_reading}
use fuelflux.Machine.Table.{Action, Row, transition}
use fuelflux.Machine.Actions.{run_action}

-- The number of the enumerator.
abbrev pub state_number : SystemState → ℕ
state_number waiting = 0
state_number pin_entry = 1
state_number authorization = 2
state_number not_authorized = 3
state_number cannot_authorize = 4
state_number tank_selection = 5
state_number volume_entry = 6
state_number refueling = 7
state_number refuel_data_transmission = 8
state_number refueling_complete = 9
state_number intake_direction_selection = 10
state_number intake_volume_entry = 11
state_number intake_data_transmission = 12
state_number intake_complete = 13
state_number error = 14

abbrev pub same_state : SystemState → SystemState → Bool
same_state s t = state_number s == state_number t

-- CancelNoFuel is handled as CancelPressed.
abbrev pub effective_event : Event → Event
effective_event cancel_no_fuel = cancel_pressed
effective_event e = e

abbrev pub is_input_updated : Event → Bool
is_input_updated input_updated = true
is_input_updated _ = false

abbrev pub reads_cards : SystemState → Bool
reads_cards waiting = true
reads_cards refueling_complete = true
reads_cards intake_complete = true
reads_cards _ = false

-- shouldUpdateDisplayBeforeAction
abbrev pub shows_before_action : SystemState → Bool
shows_before_action authorization = true
shows_before_action refuel_data_transmission = true
shows_before_action intake_data_transmission = true
shows_before_action _ = false

-- isTimeoutEnabled
unfoldable pub is_timeout_enabled : SystemState → Bool
is_timeout_enabled waiting = false
is_timeout_enabled refueling = false
is_timeout_enabled authorization = false
is_timeout_enabled refuel_data_transmission = false
is_timeout_enabled intake_data_transmission = false
is_timeout_enabled _ = true

-- timing::kInactivityTimeout, in seconds.
abbrev pub inactivity_timeout : ℕ
inactivity_timeout = 30

module _ {B : Type 0} (ops : Services B) where
  abbrev pub display_if : Bool → Controller B → Controller B
  display_if b c = if b then update_display ops c else c

  -- The machine has moved to `to`.
  abbrev pub entered : SystemState → Controller B → Controller B
  entered to c = record c { previous_state = c.state; state = to; last_activity_time = c.clock }

  -- What follows the lookup: the new state, the card reader, the display and the action.
  unfoldable pub take_transition : Event → SystemState → Action → Controller B → Controller B
  take_transition event to action c =
      let changed = not (same_state c.state to) in
      let before = shows_before_action to in
      let c1 = enable_card_reading (entered to c) (reads_cards to) in
      let c2 = display_if before c1 in
      let c3 = if changed then run_action ops action c2 else c2 in
      display_if (if before then false else if changed then true else is_input_updated event) c3

  abbrev pub follow : Event → Controller B → Row → Controller B × Bool
  follow event c none = (c, false)
  follow event c (some (to, action)) = (take_transition event to action c, true)

  abbrev pub coalesced : Event → Controller B → Controller B
  coalesced event c = if is_input_updated event then discard_pending_input_updated c else c

  unfoldable pub process_event : Controller B → Event → Controller B × Bool
  unfolding take_transition
  process_event c event =
      let e = effective_event event in follow e (coalesced e c) (transition c.state e)

  -- reset, and initialize as well.
  unfoldable pub reset : Controller B → Controller B
  reset c = update_display ops (
      enable_card_reading
        (record c { state = waiting; previous_state = waiting; last_activity_time = c.clock }) true)

module _ {B : Type 0} where
  -- A poll of the timeout thread.
  unfoldable pub poll_timeout : Controller B → Controller B
  unfolding is_timeout_enabled post_event
  poll_timeout c =
      if is_timeout_enabled c.state
        && leb inactivity_timeout ((c.clock - c.last_activity_time) / 1000)
      then post_event c timeout
      else c
