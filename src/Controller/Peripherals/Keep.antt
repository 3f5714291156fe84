-- ===== src/Controller/Peripherals/Keep.antt =====
-- The recovery of the peripherals leaves the state of the machine alone.
use fuelflux.Base.{◌≡◌, ◌∙◌, refl, [], arith, Bool, true, false, inl, inr, Bool-cases, Option-cases}
use fuelflux.Devices.FlowMeter
use fuelflux.Controller.{Controller, reset_session_data}
use fuelflux.Controller.Flow.Frame.{run_flow_callback-Frame_any}
use fuelflux.Controller.Peripherals.{
  shutdown_flow_meter, shutdown_peripherals, initialize_display, initialize_keyboard,
  initialize_card_reader, initialize_pump, initialize_flow_meter, initialize_each,
  initialize_peripherals, setup_peripheral_callbacks, reinitialize_device, recovered,
}

module _ {B : Type 0} where
  shutdown_flow_meter-state : (c : Controller B) → (shutdown_flow_meter c).state ≡ c.state
  unfolding shutdown_flow_meter
  shutdown_flow_meter-state c = elim (Option-cases c.flow_meter) [
    | inl missing ↦ rw missing refl
    | inr (m, held) ↦ rw held (run_flow_callback-Frame_any _ (FlowMeter.shutdown m).1).state
  ]

  shutdown_peripherals-state : (c : Controller B) → (shutdown_peripherals c).state ≡ c.state
  unfolding shutdown_peripherals
  shutdown_peripherals-state c = shutdown_flow_meter-state _

  initialize_display-state : (c : Controller B) → (initialize_display c).0.state ≡ c.state
  unfolding initialize_display
  initialize_display-state c = ground arith

  initialize_keyboard-state : (c : Controller B) → (initialize_keyboard c).0.state ≡ c.state
  unfolding initialize_keyboard
  initialize_keyboard-state c = ground arith

  initialize_card_reader-state : (c : Controller B) → (initialize_card_reader c).0.state ≡ c.state
  unfolding initialize_card_reader
  initialize_card_reader-state c = ground arith

  initialize_pump-state : (c : Controller B) → (initialize_pump c).0.state ≡ c.state
  unfolding initialize_pump
  initialize_pump-state c = ground arith

  initialize_flow_meter-state : (c : Controller B) → (initialize_flow_meter c).0.state ≡ c.state
  unfolding initialize_flow_meter
  initialize_flow_meter-state c = ground arith

  initialize_each-state : (c : Controller B) → (initialize_each c).0.state ≡ c.state
  unfolding initialize_each
  initialize_each-state c =
      initialize_flow_meter-state _
      ∙ (initialize_pump-state _
          ∙ (initialize_card_reader-state _
              ∙ (initialize_keyboard-state _ ∙ initialize_display-state c)))

  initialize_peripherals-state : (c : Controller B) → (initialize_peripherals c).0.state ≡ c.state
  unfolding initialize_peripherals
  initialize_peripherals-state c = elim (Bool-cases (initialize_each c).1) [
    | inl ok ↦ rw ok (initialize_each-state c)
    | inr bad ↦ rw bad (shutdown_peripherals-state _ ∙ initialize_each-state c)
  ]

  recovered-state : (r : Controller B × Bool) → (recovered r).0.state ≡ r.0.state
  unfolding setup_peripheral_callbacks reset_session_data
  recovered-state (c, true) = refl
  recovered-state (c, false) = refl

  pub reinitialize_device-state : (c : Controller B) → (reinitialize_device c).0.state ≡ c.state
  unfolding reinitialize_device
  reinitialize_device-state c =
      let d = shutdown_peripherals (record c { last_error_message = []; event_queue = [] }) in
      recovered-state (initialize_peripherals d)
      ∙ (initialize_peripherals-state d
          ∙ shutdown_peripherals-state (record c { last_error_message = []; event_queue = [] }))
