-- ===== src/Machine/Step.antt =====
-- What processEvent makes of the state of the machine: the table alone decides it.
use fuelflux.Base.{
  ◌≡◌, refl, ◌∙◌, Bool, true, false, not, is_some, arith, List, [], ◌∷◌, none, some,
}
use fuelflux.Types.{waiting, SystemState, Event, TankInfo}
use fuelflux.Services.{Services}
use fuelflux.Controller.{
  Controller, post_event, clear_input, clear_input_silent, discard_pending_input_updated,
}
use fuelflux.Controller.Flow.{stop_refueling}
use fuelflux.Controller.Flow.Frame.{start_refueling-Frame, stop_refueling-Frame}
use fuelflux.Controller.Session.{select_tank}
use fuelflux.Controller.Session.End.{end_current_session-IsClosed}
use fuelflux.Controller.Authorization.Keep.{request_authorization-state}
use fuelflux.Controller.Reports.Keep.{complete_refueling-state, complete_intake_operation-state}
use fuelflux.Controller.Screen.{update_display}
use fuelflux.Controller.Authorization.{show_message}
use fuelflux.Controller.Peripherals.{enable_card_reading, reinitialize_device}
use fuelflux.Controller.Peripherals.Keep.{reinitialize_device-state}
use fuelflux.Controller.Keep.{if_keeps}
use fuelflux.Machine.Table.{
  Action, no_op, do_authorization, on_authorization_success, do_refueling_data_transmission,
  cancel_then_transmit, on_tank_selected, on_volume_entered, on_intake_selected,
  on_intake_direction_selected, on_intake_volume_entered, on_cancel_pressed,
  on_error_cancel_pressed, on_timeout, transition, Row,
}
use fuelflux.Machine.Actions.{
  run_action, authorize_input, offer_tanks, transmit_refueling, transmit_intake, recover_device,
  after_reinitialization,
}
use fuelflux.Machine.Process.{
  reset, process_event, take_transition, effective_event, display_if, entered, follow, coalesced,
  reads_cards, shows_before_action, same_state, is_input_updated,
}
use fuelflux.Machine.Graph.{next_state, target}

module _ {B : Type 0} (ops : Services B) where
  offer_tanks-state :
      (ts : List TankInfo) (c : Controller B) → (offer_tanks ops ts c).state ≡ c.state
  unfolding offer_tanks select_tank post_event
  offer_tanks-state [] c = (end_current_session-IsClosed ops c).2
  offer_tanks-state (t ∷ []) c = ground arith
  offer_tanks-state (t ∷ u ∷ ts) c = refl

  recover_device-state : (c : Controller B) → (recover_device ops c).state ≡ c.state
  unfolding recover_device post_event
  recover_device-state c = after (reinitialize_device c) ∙ reinitialize_device-state c
    where
      after : (r : Controller B × Bool) → (after_reinitialization ops r).state ≡ r.0.state
      after (d, true) = refl
      after (d, false) = refl

  -- No action of a transition moves the machine.
  pub run_action-state : (a : Action) (c : Controller B) → (run_action ops a c).state ≡ c.state
  unfolding run_action
  run_action-state no_op c = refl
  run_action-state do_authorization c =
      unfold authorize_input clear_input_silent in request_authorization-state ops c c.current_input
  run_action-state on_authorization_success c = offer_tanks-state c.available_tanks c
  run_action-state do_refueling_data_transmission c =
      unfold transmit_refueling post_event in complete_refueling-state ops c
  run_action-state cancel_then_transmit c =
      unfold transmit_refueling post_event in
      complete_refueling-state ops (stop_refueling c) ∙ (stop_refueling-Frame c).state
  run_action-state on_tank_selected c = unfold clear_input post_event in refl
  run_action-state on_volume_entered c =
      unfold clear_input post_event in (start_refueling-Frame c).state
  run_action-state on_intake_selected c = unfold clear_input post_event in refl
  run_action-state on_intake_direction_selected c = unfold clear_input post_event in refl
  run_action-state on_intake_volume_entered c =
      unfold transmit_intake clear_input post_event in
      complete_intake_operation-state ops (clear_input c)
  run_action-state on_cancel_pressed c = (end_current_session-IsClosed ops c).2
  run_action-state on_error_cancel_pressed c = recover_device-state c
  run_action-state on_timeout c = (end_current_session-IsClosed ops c).2

  pub update_display-state : (c : Controller B) → (update_display ops c).state ≡ c.state
  unfolding update_display show_message
  update_display-state c = ground arith

  enable_card_reading-state :
      (c : Controller B) (on : Bool) → (enable_card_reading c on).state ≡ c.state
  unfolding enable_card_reading
  enable_card_reading-state c on = ground arith

  display_if-state : (b : Bool) (c : Controller B) → (display_if ops b c).state ≡ c.state
  display_if-state b c = if_keeps c.state b _ _ (update_display-state c) refl

  take_transition-state :
      (e : Event) (to : SystemState) (a : Action) (c : Controller B)
      → (take_transition ops e to a c).state ≡ to
  unfolding take_transition
  take_transition-state e to a c =
      let c1 = enable_card_reading (entered ops to c) (reads_cards to) in
      let c2 = display_if ops (shows_before_action to) c1 in
      let at : c2.state ≡ to =
        display_if-state (shows_before_action to) c1
        ∙ enable_card_reading-state (entered ops to c) (reads_cards to) in
      display_if-state _ _
      ∙ if_keeps to (not (same_state c.state to)) _ _ (run_action-state a c2 ∙ at) at

  -- An event moves the machine to the state that the table names for it, whatever the action, its
  -- callbacks and the display do; without an entry the machine stays, and processEvent says so.
  pub process_event-state :
      (c : Controller B) (e : Event)
      → ((process_event ops c e).0.state ≡ next_state c.state (effective_event e))
        × ((process_event ops c e).1 ≡ is_some (transition c.state (effective_event e)))
  unfolding process_event discard_pending_input_updated
  process_event-state c e = found (transition c.state (effective_event e))
    where
      d : Controller B
      d = coalesced ops (effective_event e) c

      found :
          (r : Row)
          → ((follow ops (effective_event e) d r).0.state ≡ target c.state r)
            × ((follow ops (effective_event e) d r).1 ≡ is_some r)
      found none = (if_keeps c.state (is_input_updated (effective_event e)) _ _ refl refl, refl)
      found (some (to, a)) = (take_transition-state (effective_event e) to a d, refl)

  pub reset-state : (c : Controller B) → (reset ops c).state ≡ waiting
  unfolding reset
  reset-state c =
      let c' = record c {
        state = waiting;
        previous_state = waiting;
        last_activity_time = c.clock;
      } in
      update_display-state (enable_card_reading c' true) ∙ enable_card_reading-state c' true
