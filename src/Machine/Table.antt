-- ===== src/Machine/Table.antt =====
-- StateMachine::setupTransitions (src/state_machine.cpp): the transition table, a function for the
-- rows of each state. `none` is a pair that the table has no entry for.
use fuelflux.Base.{Option, none, some}
use fuelflux.Types.{
  SystemState, waiting, pin_entry, authorization, not_authorized, cannot_authorize, tank_selection,
  volume_entry, refueling, refuel_data_transmission, refueling_complete, intake_direction_selection,
  intake_volume_entry, intake_data_transmission, intake_complete, error, Event, card_presented,
  pin_entered, input_updated, authorization_success, authorization_denied, authorization_failed,
  tank_selected, volume_entered, amount_entered, refueling_started, refueling_stopped,
  data_transmission_complete, intake_selected, intake_direction_selected, intake_volume_entered,
  intake_completed, cancel_pressed, timeout, fault, error_recovery,
}

-- The handler of a row. `cancel_then_transmit` calls onCancelRefueling and then
-- doRefuelingDataTransmission.
pub data Action : Type 0 where
  no_op : Action
  do_authorization : Action
  on_authorization_success : Action
  do_refueling_data_transmission : Action
  cancel_then_transmit : Action
  on_tank_selected : Action
  on_volume_entered : Action
  on_intake_selected : Action
  on_intake_direction_selected : Action
  on_intake_volume_entered : Action
  on_cancel_pressed : Action
  on_error_cancel_pressed : Action
  on_timeout : Action

abbrev pub Row : Type 0
Row = Option (SystemState × Action)

from_waiting : Event → Row
from_waiting card_presented = some (authorization, do_authorization)
from_waiting pin_entered = some (authorization, do_authorization)
from_waiting input_updated = some (pin_entry, no_op)
from_waiting authorization_success = some (waiting, no_op)
from_waiting authorization_denied = some (waiting, no_op)
from_waiting authorization_failed = some (waiting, no_op)
from_waiting tank_selected = some (waiting, no_op)
from_waiting volume_entered = some (waiting, no_op)
from_waiting amount_entered = some (waiting, no_op)
from_waiting refueling_started = some (waiting, no_op)
from_waiting refueling_stopped = some (waiting, no_op)
from_waiting data_transmission_complete = some (waiting, no_op)
from_waiting intake_selected = some (waiting, no_op)
from_waiting intake_direction_selected = some (waiting, no_op)
from_waiting intake_volume_entered = some (waiting, no_op)
from_waiting intake_completed = some (waiting, no_op)
from_waiting cancel_pressed = some (waiting, no_op)
from_waiting timeout = some (waiting, no_op)
from_waiting fault = some (error, no_op)
from_waiting error_recovery = some (waiting, no_op)
from_waiting _ = none

from_pin_entry : Event → Row
from_pin_entry card_presented = some (pin_entry, no_op)
from_pin_entry pin_entered = some (authorization, do_authorization)
from_pin_entry input_updated = some (pin_entry, no_op)
from_pin_entry authorization_success = some (pin_entry, no_op)
from_pin_entry authorization_denied = some (pin_entry, no_op)
from_pin_entry authorization_failed = some (pin_entry, no_op)
from_pin_entry tank_selected = some (pin_entry, no_op)
from_pin_entry volume_entered = some (pin_entry, no_op)
from_pin_entry amount_entered = some (pin_entry, no_op)
from_pin_entry refueling_started = some (pin_entry, no_op)
from_pin_entry refueling_stopped = some (pin_entry, no_op)
from_pin_entry data_transmission_complete = some (pin_entry, no_op)
from_pin_entry intake_selected = some (pin_entry, no_op)
from_pin_entry intake_direction_selected = some (pin_entry, no_op)
from_pin_entry intake_volume_entered = some (pin_entry, no_op)
from_pin_entry intake_completed = some (pin_entry, no_op)
from_pin_entry cancel_pressed = some (waiting, on_cancel_pressed)
from_pin_entry timeout = some (waiting, on_timeout)
from_pin_entry fault = some (error, no_op)
from_pin_entry error_recovery = some (pin_entry, no_op)
from_pin_entry _ = none

from_authorization : Event → Row
from_authorization card_presented = some (authorization, no_op)
from_authorization pin_entered = some (authorization, no_op)
from_authorization input_updated = some (authorization, no_op)
from_authorization authorization_success = some (tank_selection, on_authorization_success)
from_authorization authorization_denied = some (not_authorized, no_op)
from_authorization authorization_failed = some (cannot_authorize, no_op)
from_authorization tank_selected = some (authorization, no_op)
from_authorization volume_entered = some (authorization, no_op)
from_authorization amount_entered = some (authorization, no_op)
from_authorization refueling_started = some (authorization, no_op)
from_authorization refueling_stopped = some (authorization, no_op)
from_authorization data_transmission_complete = some (authorization, no_op)
from_authorization intake_selected = some (authorization, no_op)
from_authorization intake_direction_selected = some (authorization, no_op)
from_authorization intake_volume_entered = some (authorization, no_op)
from_authorization intake_completed = some (authorization, no_op)
from_authorization cancel_pressed = some (authorization, no_op)
from_authorization timeout = some (authorization, no_op)
from_authorization fault = some (error, no_op)
from_authorization error_recovery = some (authorization, no_op)
from_authorization _ = none

from_not_authorized : Event → Row
from_not_authorized card_presented = some (authorization, do_authorization)
from_not_authorized pin_entered = some (authorization, do_authorization)
from_not_authorized input_updated = some (pin_entry, no_op)
from_not_authorized authorization_success = some (not_authorized, no_op)
from_not_authorized authorization_denied = some (not_authorized, no_op)
from_not_authorized authorization_failed = some (not_authorized, no_op)
from_not_authorized tank_selected = some (not_authorized, no_op)
from_not_authorized volume_entered = some (not_authorized, no_op)
from_not_authorized amount_entered = some (not_authorized, no_op)
from_not_authorized refueling_started = some (not_authorized, no_op)
from_not_authorized refueling_stopped = some (not_authorized, no_op)
from_not_authorized data_transmission_complete = some (not_authorized, no_op)
from_not_authorized intake_selected = some (not_authorized, no_op)
from_not_authorized intake_direction_selected = some (not_authorized, no_op)
from_not_authorized intake_volume_entered = some (not_authorized, no_op)
from_not_authorized intake_completed = some (not_authorized, no_op)
from_not_authorized cancel_pressed = some (waiting, on_cancel_pressed)
from_not_authorized timeout = some (waiting, on_timeout)
from_not_authorized fault = some (error, no_op)
from_not_authorized error_recovery = some (not_authorized, no_op)
from_not_authorized _ = none

from_cannot_authorize : Event → Row
from_cannot_authorize card_presented = some (authorization, do_authorization)
from_cannot_authorize pin_entered = some (authorization, do_authorization)
from_cannot_authorize input_updated = some (pin_entry, no_op)
from_cannot_authorize authorization_success = some (cannot_authorize, no_op)
from_cannot_authorize authorization_denied = some (cannot_authorize, no_op)
from_cannot_authorize authorization_failed = some (cannot_authorize, no_op)
from_cannot_authorize tank_selected = some (cannot_authorize, no_op)
from_cannot_authorize volume_entered = some (cannot_authorize, no_op)
from_cannot_authorize amount_entered = some (cannot_authorize, no_op)
from_cannot_authorize refueling_started = some (cannot_authorize, no_op)
from_cannot_authorize refueling_stopped = some (cannot_authorize, no_op)
from_cannot_authorize data_transmission_complete = some (cannot_authorize, no_op)
from_cannot_authorize intake_selected = some (cannot_authorize, no_op)
from_cannot_authorize intake_direction_selected = some (cannot_authorize, no_op)
from_cannot_authorize intake_volume_entered = some (cannot_authorize, no_op)
from_cannot_authorize intake_completed = some (cannot_authorize, no_op)
from_cannot_authorize cancel_pressed = some (waiting, on_cancel_pressed)
from_cannot_authorize timeout = some (waiting, on_timeout)
from_cannot_authorize fault = some (error, no_op)
from_cannot_authorize error_recovery = some (cannot_authorize, no_op)
from_cannot_authorize _ = none

from_tank_selection : Event → Row
from_tank_selection card_presented = some (tank_selection, no_op)
from_tank_selection pin_entered = some (tank_selection, no_op)
from_tank_selection input_updated = some (tank_selection, no_op)
from_tank_selection authorization_success = some (tank_selection, no_op)
from_tank_selection authorization_denied = some (not_authorized, no_op)
from_tank_selection authorization_failed = some (tank_selection, no_op)
from_tank_selection tank_selected = some (volume_entry, on_tank_selected)
from_tank_selection volume_entered = some (tank_selection, no_op)
from_tank_selection amount_entered = some (tank_selection, no_op)
from_tank_selection refueling_started = some (tank_selection, no_op)
from_tank_selection refueling_stopped = some (tank_selection, no_op)
from_tank_selection data_transmission_complete = some (tank_selection, no_op)
from_tank_selection intake_selected = some (intake_direction_selection, on_intake_selected)
from_tank_selection intake_direction_selected = some (tank_selection, no_op)
from_tank_selection intake_volume_entered = some (tank_selection, no_op)
from_tank_selection intake_completed = some (tank_selection, no_op)
from_tank_selection cancel_pressed = some (waiting, on_cancel_pressed)
from_tank_selection timeout = some (waiting, on_timeout)
from_tank_selection fault = some (error, no_op)
from_tank_selection error_recovery = some (tank_selection, no_op)
from_tank_selection _ = none

from_volume_entry : Event → Row
from_volume_entry card_presented = some (volume_entry, no_op)
from_volume_entry pin_entered = some (volume_entry, no_op)
from_volume_entry input_updated = some (volume_entry, no_op)
from_volume_entry authorization_success = some (volume_entry, no_op)
from_volume_entry authorization_denied = some (volume_entry, no_op)
from_volume_entry authorization_failed = some (volume_entry, no_op)
from_volume_entry tank_selected = some (volume_entry, no_op)
from_volume_entry volume_entered = some (refueling, on_volume_entered)
from_volume_entry amount_entered = some (volume_entry, no_op)
from_volume_entry refueling_started = some (volume_entry, no_op)
from_volume_entry refueling_stopped = some (volume_entry, no_op)
from_volume_entry data_transmission_complete = some (volume_entry, no_op)
from_volume_entry intake_selected = some (volume_entry, no_op)
from_volume_entry intake_direction_selected = some (volume_entry, no_op)
from_volume_entry intake_volume_entered = some (volume_entry, no_op)
from_volume_entry intake_completed = some (volume_entry, no_op)
from_volume_entry cancel_pressed = some (waiting, on_cancel_pressed)
from_volume_entry timeout = some (waiting, on_timeout)
from_volume_entry fault = some (error, no_op)
from_volume_entry error_recovery = some (volume_entry, no_op)
from_volume_entry _ = none

from_refueling : Event → Row
from_refueling card_presented = some (refueling, no_op)
from_refueling pin_entered = some (refueling, no_op)
from_refueling input_updated = some (refueling, no_op)
from_refueling authorization_success = some (refueling, no_op)
from_refueling authorization_denied = some (refueling, no_op)
from_refueling authorization_failed = some (refueling, no_op)
from_refueling tank_selected = some (refueling, no_op)
from_refueling volume_entered = some (refueling, no_op)
from_refueling amount_entered = some (refueling, no_op)
from_refueling refueling_started = some (refueling, no_op)
from_refueling refueling_stopped = some (refuel_data_transmission, do_refueling_data_transmission)
from_refueling data_transmission_complete = some (refueling, no_op)
from_refueling intake_selected = some (refueling, no_op)
from_refueling intake_direction_selected = some (refueling, no_op)
from_refueling intake_volume_entered = some (refueling, no_op)
from_refueling intake_completed = some (refueling, no_op)
from_refueling cancel_pressed = some (refuel_data_transmission, cancel_then_transmit)
from_refueling timeout = some (refueling, no_op)
from_refueling fault = some (error, no_op)
from_refueling error_recovery = some (refueling, no_op)
from_refueling _ = none

from_refuel_data_transmission : Event → Row
from_refuel_data_transmission card_presented = some (refuel_data_transmission, no_op)
from_refuel_data_transmission pin_entered = some (refuel_data_transmission, no_op)
from_refuel_data_transmission input_updated = some (refuel_data_transmission, no_op)
from_refuel_data_transmission authorization_success = some (refuel_data_transmission, no_op)
from_refuel_data_transmission authorization_denied = some (refuel_data_transmission, no_op)
from_refuel_data_transmission authorization_failed = some (refuel_data_transmission, no_op)
from_refuel_data_transmission tank_selected = some (refuel_data_transmission, no_op)
from_refuel_data_transmission volume_entered = some (refuel_data_transmission, no_op)
from_refuel_data_transmission amount_entered = some (refuel_data_transmission, no_op)
from_refuel_data_transmission refueling_started = some (refuel_data_transmission, no_op)
from_refuel_data_transmission refueling_stopped = some (refuel_data_transmission, no_op)
from_refuel_data_transmission data_transmission_complete = some (refueling_complete, no_op)
from_refuel_data_transmission intake_selected = some (refuel_data_transmission, no_op)
from_refuel_data_transmission intake_direction_selected = some (refuel_data_transmission, no_op)
from_refuel_data_transmission intake_volume_entered = some (refuel_data_transmission, no_op)
from_refuel_data_transmission intake_completed = some (refuel_data_transmission, no_op)
from_refuel_data_transmission cancel_pressed = some (refuel_data_transmission, no_op)
from_refuel_data_transmission timeout = some (refuel_data_transmission, no_op)
from_refuel_data_transmission fault = some (error, no_op)
from_refuel_data_transmission error_recovery = some (refuel_data_transmission, no_op)
from_refuel_data_transmission _ = none

from_refueling_complete : Event → Row
from_refueling_complete card_presented = some (authorization, do_authorization)
from_refueling_complete pin_entered = some (authorization, do_authorization)
from_refueling_complete input_updated = some (pin_entry, no_op)
from_refueling_complete authorization_success = some (refueling_complete, no_op)
from_refueling_complete authorization_denied = some (refueling_complete, no_op)
from_refueling_complete authorization_failed = some (refueling_complete, no_op)
from_refueling_complete tank_selected = some (refueling_complete, no_op)
from_refueling_complete volume_entered = some (refueling_complete, no_op)
from_refueling_complete amount_entered = some (refueling_complete, no_op)
from_refueling_complete refueling_started = some (refueling_complete, no_op)
from_refueling_complete refueling_stopped = some (refueling_complete, no_op)
from_refueling_complete data_transmission_complete = some (refueling_complete, no_op)
from_refueling_complete intake_selected = some (refueling_complete, no_op)
from_refueling_complete intake_direction_selected = some (refueling_complete, no_op)
from_refueling_complete intake_volume_entered = some (refueling_complete, no_op)
from_refueling_complete intake_completed = some (refueling_complete, no_op)
from_refueling_complete cancel_pressed = some (waiting, on_cancel_pressed)
from_refueling_complete timeout = some (waiting, on_timeout)
from_refueling_complete fault = some (error, no_op)
from_refueling_complete error_recovery = some (refueling_complete, no_op)
from_refueling_complete _ = none

from_intake_direction_selection : Event → Row
from_intake_direction_selection card_presented = some (intake_direction_selection, no_op)
from_intake_direction_selection pin_entered = some (intake_direction_selection, no_op)
from_intake_direction_selection input_updated = some (intake_direction_selection, no_op)
from_intake_direction_selection authorization_success = some (intake_direction_selection, no_op)
from_intake_direction_selection authorization_denied = some (intake_direction_selection, no_op)
from_intake_direction_selection authorization_failed = some (intake_direction_selection, no_op)
from_intake_direction_selection tank_selected = some (intake_direction_selection, no_op)
from_intake_direction_selection volume_entered = some (intake_direction_selection, no_op)
from_intake_direction_selection amount_entered = some (intake_direction_selection, no_op)
from_intake_direction_selection refueling_started = some (intake_direction_selection, no_op)
from_intake_direction_selection refueling_stopped = some (intake_direction_selection, no_op)
from_intake_direction_selection data_transmission_complete =
    some (intake_direction_selection, no_op)
from_intake_direction_selection intake_selected = some (intake_direction_selection, no_op)
from_intake_direction_selection intake_direction_selected =
    some (intake_volume_entry, on_intake_direction_selected)
from_intake_direction_selection intake_volume_entered = some (intake_direction_selection, no_op)
from_intake_direction_selection intake_completed = some (intake_direction_selection, no_op)
from_intake_direction_selection cancel_pressed = some (waiting, on_cancel_pressed)
from_intake_direction_selection timeout = some (waiting, on_timeout)
from_intake_direction_selection fault = some (error, no_op)
from_intake_direction_selection error_recovery = some (intake_direction_selection, no_op)
from_intake_direction_selection _ = none

from_intake_volume_entry : Event → Row
from_intake_volume_entry card_presented = some (intake_volume_entry, no_op)
from_intake_volume_entry pin_entered = some (intake_volume_entry, no_op)
from_intake_volume_entry input_updated = some (intake_volume_entry, no_op)
from_intake_volume_entry authorization_success = some (intake_volume_entry, no_op)
from_intake_volume_entry authorization_denied = some (intake_volume_entry, no_op)
from_intake_volume_entry authorization_failed = some (intake_volume_entry, no_op)
from_intake_volume_entry tank_selected = some (intake_volume_entry, no_op)
from_intake_volume_entry volume_entered = some (intake_volume_entry, no_op)
from_intake_volume_entry amount_entered = some (intake_volume_entry, no_op)
from_intake_volume_entry refueling_started = some (intake_volume_entry, no_op)
from_intake_volume_entry refueling_stopped = some (intake_volume_entry, no_op)
from_intake_volume_entry data_transmission_complete = some (intake_volume_entry, no_op)
from_intake_volume_entry intake_selected = some (intake_volume_entry, no_op)
from_intake_volume_entry intake_direction_selected = some (intake_volume_entry, no_op)
from_intake_volume_entry intake_volume_entered =
    some (intake_data_transmission, on_intake_volume_entered)
from_intake_volume_entry intake_completed = some (intake_volume_entry, no_op)
from_intake_volume_entry cancel_pressed = some (waiting, on_cancel_pressed)
from_intake_volume_entry timeout = some (waiting, on_timeout)
from_intake_volume_entry fault = some (error, no_op)
from_intake_volume_entry error_recovery = some (intake_volume_entry, no_op)
from_intake_volume_entry _ = none

from_intake_data_transmission : Event → Row
from_intake_data_transmission card_presented = some (intake_data_transmission, no_op)
from_intake_data_transmission pin_entered = some (intake_data_transmission, no_op)
from_intake_data_transmission input_updated = some (intake_data_transmission, no_op)
from_intake_data_transmission authorization_success = some (intake_data_transmission, no_op)
from_intake_data_transmission authorization_denied = some (intake_data_transmission, no_op)
from_intake_data_transmission authorization_failed = some (intake_data_transmission, no_op)
from_intake_data_transmission tank_selected = some (intake_data_transmission, no_op)
from_intake_data_transmission volume_entered = some (intake_data_transmission, no_op)
from_intake_data_transmission amount_entered = some (intake_data_transmission, no_op)
from_intake_data_transmission refueling_started = some (intake_data_transmission, no_op)
from_intake_data_transmission refueling_stopped = some (intake_data_transmission, no_op)
from_intake_data_transmission data_transmission_complete = some (intake_complete, no_op)
from_intake_data_transmission intake_selected = some (intake_data_transmission, no_op)
from_intake_data_transmission intake_direction_selected = some (intake_data_transmission, no_op)
from_intake_data_transmission intake_volume_entered = some (intake_data_transmission, no_op)
from_intake_data_transmission intake_completed = some (intake_data_transmission, no_op)
from_intake_data_transmission cancel_pressed = some (intake_data_transmission, no_op)
from_intake_data_transmission timeout = some (intake_data_transmission, no_op)
from_intake_data_transmission fault = some (error, no_op)
from_intake_data_transmission error_recovery = some (intake_data_transmission, no_op)
from_intake_data_transmission _ = none

from_intake_complete : Event → Row
from_intake_complete card_presented = some (authorization, do_authorization)
from_intake_complete pin_entered = some (authorization, do_authorization)
from_intake_complete input_updated = some (pin_entry, no_op)
from_intake_complete authorization_success = some (intake_complete, no_op)
from_intake_complete authorization_denied = some (intake_complete, no_op)
from_intake_complete authorization_failed = some (intake_complete, no_op)
from_intake_complete tank_selected = some (intake_complete, no_op)
from_intake_complete volume_entered = some (intake_complete, no_op)
from_intake_complete amount_entered = some (intake_complete, no_op)
from_intake_complete refueling_started = some (intake_complete, no_op)
from_intake_complete refueling_stopped = some (intake_complete, no_op)
from_intake_complete data_transmission_complete = some (intake_complete, no_op)
from_intake_complete intake_selected = some (intake_complete, no_op)
from_intake_complete intake_direction_selected = some (intake_complete, no_op)
from_intake_complete intake_volume_entered = some (intake_complete, no_op)
from_intake_complete intake_completed = some (intake_complete, no_op)
from_intake_complete cancel_pressed = some (waiting, on_cancel_pressed)
from_intake_complete timeout = some (waiting, on_timeout)
from_intake_complete fault = some (error, no_op)
from_intake_complete error_recovery = some (intake_complete, no_op)
from_intake_complete _ = none

from_error : Event → Row
from_error card_presented = some (error, no_op)
from_error input_updated = some (error, no_op)
from_error pin_entered = some (error, no_op)
from_error authorization_success = some (error, no_op)
from_error authorization_failed = some (error, no_op)
from_error tank_selected = some (error, no_op)
from_error volume_entered = some (error, no_op)
from_error amount_entered = some (error, no_op)
from_error refueling_started = some (error, no_op)
from_error refueling_stopped = some (error, no_op)
from_error data_transmission_complete = some (error, no_op)
from_error intake_selected = some (error, no_op)
from_error intake_direction_selected = some (error, no_op)
from_error intake_volume_entered = some (error, no_op)
from_error intake_completed = some (error, no_op)
from_error cancel_pressed = some (waiting, on_error_cancel_pressed)
from_error timeout = some (error, no_op)
from_error fault = some (error, no_op)
from_error error_recovery = some (waiting, no_op)
from_error _ = none

-- transitions_.find(key)
unfoldable pub transition : SystemState → Event → Row
unfolding from_waiting from_pin_entry from_authorization from_not_authorized from_cannot_authorize
    from_tank_selection from_volume_entry from_refueling from_refuel_data_transmission
    from_refueling_complete from_intake_direction_selection from_intake_volume_entry
    from_intake_data_transmission from_intake_complete from_error
transition waiting e = from_waiting e
transition pin_entry e = from_pin_entry e
transition authorization e = from_authorization e
transition not_authorized e = from_not_authorized e
transition cannot_authorize e = from_cannot_authorize e
transition tank_selection e = from_tank_selection e
transition volume_entry e = from_volume_entry e
transition refueling e = from_refueling e
transition refuel_data_transmission e = from_refuel_data_transmission e
transition refueling_complete e = from_refueling_complete e
transition intake_direction_selection e = from_intake_direction_selection e
transition intake_volume_entry e = from_intake_volume_entry e
transition intake_data_transmission e = from_intake_data_transmission e
transition intake_complete e = from_intake_complete e
transition error e = from_error e
