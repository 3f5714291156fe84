-- ===== src/Machine/Actions.antt =====
-- The transition actions of src/state_machine.cpp.
use fuelflux.Base.{Bool, true, false, List, [], ◌∷◌}
use fuelflux.Types.{
  TankInfo, authorization_denied, data_transmission_complete, cancel_pressed, fault,
}
use fuelflux.Services.{Services}
use fuelflux.Controller.{Controller, post_event, clear_input, clear_input_silent}
use fuelflux.Controller.Flow.{start_refueling, stop_refueling}
use fuelflux.Controller.Session.{end_current_session, select_tank}
use fuelflux.Controller.Authorization.{request_authorization}
use fuelflux.Controller.Reports.{complete_refueling, complete_intake_operation}
use fuelflux.Controller.Peripherals.{reinitialize_device}
use fuelflux.Machine.Table.{
  Action, no_op, do_authorization, on_authorization_success, do_refueling_data_transmission,
  cancel_then_transmit, on_tank_selected, on_volume_entered, on_intake_selected,
  on_intake_direction_selected, on_intake_volume_entered, on_cancel_pressed,
  on_error_cancel_pressed, on_timeout,
}

module _ {B : Type 0} (ops : Services B) where
  unfoldable pub authorize_input : Controller B → Controller B
  unfolding clear_input_silent
  authorize_input c = clear_input_silent (request_authorization ops c c.current_input)

  -- onAuthorizationSuccess, by the tanks that are available.
  unfoldable pub offer_tanks : List TankInfo → Controller B → Controller B
  unfolding post_event
  offer_tanks [] c = post_event (end_current_session ops c) authorization_denied
  offer_tanks (t ∷ []) c = select_tank c t.number
  offer_tanks (t ∷ u ∷ ts) c = c

  unfoldable pub transmit_refueling : Controller B → Controller B
  unfolding post_event
  transmit_refueling c = post_event (complete_refueling ops c) data_transmission_complete

  unfoldable pub transmit_intake : Controller B → Controller B
  unfolding post_event
  transmit_intake c =
      post_event (complete_intake_operation ops (clear_input c)) data_transmission_complete

  abbrev pub after_reinitialization : Controller B × Bool → Controller B
  after_reinitialization (c, true) = post_event c cancel_pressed
  after_reinitialization (c, false) = post_event c fault

  unfoldable pub recover_device : Controller B → Controller B
  recover_device c = after_reinitialization (reinitialize_device c)

  unfoldable pub run_action : Action → Controller B → Controller B
  unfolding authorize_input offer_tanks transmit_refueling transmit_intake recover_device
  run_action no_op c = c
  run_action do_authorization c = authorize_input c
  run_action on_authorization_success c = offer_tanks c.available_tanks c
  run_action do_refueling_data_transmission c = transmit_refueling c
  run_action cancel_then_transmit c = transmit_refueling (stop_refueling c)
  run_action on_tank_selected c = clear_input c
  run_action on_volume_entered c = clear_input (start_refueling c)
  run_action on_intake_selected c = clear_input c
  run_action on_intake_direction_selected c = clear_input c
  run_action on_intake_volume_entered c = transmit_intake c
  run_action on_cancel_pressed c = end_current_session ops c
  run_action on_error_cancel_pressed c = recover_device c
  run_action on_timeout c = end_current_session ops c
