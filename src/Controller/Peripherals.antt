-- ===== src/Controller/Peripherals.antt =====
-- The life of the peripherals: initialization, callbacks, shutdown, and the recovery from an error.
pub mod Keep
use fuelflux.Base.{
  Bool, true, false, ◌&&◌, if◌then◌else◌, [], Option, none, some, Text, codes, is_empty,
}
use fuelflux.Devices.Display
use fuelflux.Devices.Keyboard
use fuelflux.Devices.CardReader
use fuelflux.Devices.Pump
use fuelflux.Devices.FlowMeter
use fuelflux.Controller.{Controller, reset_session_data}
use fuelflux.Controller.Flow.{run_flow_callback, stop_pump}

-- The first error is kept.
abbrev pub first_error : Text → Text → Text
first_error old new = if is_empty old then new else old

-- What is done to a device that is there.
abbrev pub map_device : {T : Type 0} → (T → T) → Option T → Option T
map_device f none = none
map_device f (some d) = some (f d)

module _ {B : Type 0} where
  unfoldable pub enable_card_reading : Controller B → Bool → Controller B
  enable_card_reading c enabled = elim c.card_reader [
    | none ↦ c
    | some r ↦ record c { card_reader = some (CardReader.enable_reading r enabled) }
  ]

  -- The flow meter is a HardwareFlowMeter.
  pub set_flow_meter_simulation_enabled : Controller B → Bool → Controller B × Bool
  set_flow_meter_simulation_enabled c enabled = elim c.flow_meter [
    | none ↦ (c, false)
    | some m ↦
        let r = FlowMeter.set_simulation_enabled m enabled in
        (record c { flow_meter = some r.0 }, r.1)
  ]

  pub set_display : Controller B → Option Display.Display → Controller B
  set_display c d = record c { display = d }

  pub set_keyboard : Controller B → Option Keyboard.Keyboard → Controller B
  set_keyboard c k = record c { keyboard = k }

  pub set_card_reader : Controller B → Option CardReader.CardReader → Controller B
  set_card_reader c r = record c { card_reader = r }

  pub set_pump : Controller B → Option Pump.Pump → Controller B
  set_pump c p = record c { pump = p }

  pub set_flow_meter : Controller B → Option FlowMeter.FlowMeter → Controller B
  set_flow_meter c m = record c { flow_meter = m }

  -- The message of a peripheral that failed; a failure of the display replaces what stood there.
  abbrev failed : Controller B → Text → Controller B × Bool
  failed c message =
      (record c { last_error_message = first_error c.last_error_message message }, false)

  pub initialize_display : Controller B → Controller B × Bool
  initialize_display c = elim c.display [
    | none ↦ (c, true)
    | some d ↦
        let c' = record c { display = some (Display.initialize d).0 } in
        if (Display.initialize d).1
        then (c', true)
        else (record c' { last_error_message = codes "Ошибка дисплея" }, false)
  ]

  pub initialize_keyboard : Controller B → Controller B × Bool
  initialize_keyboard c = elim c.keyboard [
    | none ↦ (c, true)
    | some k ↦
        let c' = record c { keyboard = some (Keyboard.initialize k).0 } in
        if (Keyboard.initialize k).1 then (c', true) else failed c' (codes "Ошибка клавиатуры")
  ]

  pub initialize_card_reader : Controller B → Controller B × Bool
  initialize_card_reader c = elim c.card_reader [
    | none ↦ (c, true)
    | some r ↦
        let c' = record c { card_reader = some (CardReader.initialize r).0 } in
        if (CardReader.initialize r).1
        then (c', true)
        else failed c' (codes "Ошибка считывателя карт")
  ]

  pub initialize_pump : Controller B → Controller B × Bool
  initialize_pump c = elim c.pump [
    | none ↦ (c, true)
    | some p ↦
        let c' = record c { pump = some (Pump.initialize p).0 } in
        if (Pump.initialize p).1 then (c', true) else failed c' (codes "Ошибка насоса")
  ]

  pub initialize_flow_meter : Controller B → Controller B × Bool
  initialize_flow_meter c = elim c.flow_meter [
    | none ↦ (c, true)
    | some m ↦
        let c' = record c { flow_meter = some (FlowMeter.initialize m).0 } in
        if (FlowMeter.initialize m).1 then (c', true) else failed c' (codes "Ошибка расходомера")
  ]

  -- flowMeter_->shutdown(), with the callback that it may make.
  pub shutdown_flow_meter : Controller B → Controller B
  shutdown_flow_meter c = elim c.flow_meter [
    | none ↦ c
    | some m ↦
        run_flow_callback stop_pump (record c { flow_meter = some (FlowMeter.shutdown m).0 })
          (FlowMeter.shutdown m).1
  ]

  pub shutdown_peripherals : Controller B → Controller B
  unfolding shutdown_flow_meter
  shutdown_peripherals c = shutdown_flow_meter (record c {
    display = map_device Display.shutdown c.display;
    keyboard = map_device Keyboard.shutdown c.keyboard;
    card_reader = map_device CardReader.shutdown c.card_reader;
    pump = map_device Pump.shutdown c.pump;
  })

  -- The five steps, each after the last whether that was done or not.
  pub initialize_each : Controller B → Controller B × Bool
  unfolding initialize_display initialize_keyboard initialize_card_reader initialize_pump
      initialize_flow_meter
  initialize_each c =
      let (c1, ok1) = initialize_display c in
      let (c2, ok2) = initialize_keyboard c1 in
      let (c3, ok3) = initialize_card_reader c2 in
      let (c4, ok4) = initialize_pump c3 in
      let (c5, ok5) = initialize_flow_meter c4 in (c5, ok1 && ok2 && ok3 && ok4 && ok5)

  -- If one failed, all are shut down again.
  pub initialize_peripherals : Controller B → Controller B × Bool
  unfolding initialize_each shutdown_peripherals
  initialize_peripherals c =
      let (c', ok) = initialize_each c in
      if ok
      then (c', true)
      else failed (shutdown_peripherals c') (codes "Критическая ошибка инициализации")

  pub setup_peripheral_callbacks : Controller B → Controller B
  setup_peripheral_callbacks c = record c {
    keyboard = map_device (λ k. record k { callback = true; input_enabled = true }) c.keyboard;
    card_reader =
        map_device (λ r. CardReader.enable_reading (record r { callback = true }) false)
          c.card_reader;
    pump = map_device (λ p. record p { callback = true }) c.pump;
    flow_meter = map_device (λ m. record m { callback = true }) c.flow_meter;
  }

  abbrev pub recovered : Controller B × Bool → Controller B × Bool
  recovered (c, true) =
      (record (reset_session_data (setup_peripheral_callbacks c)) { current_input = [] }, true)
  recovered (c, false) = (record (reset_session_data c) { current_input = [] }, false)

  -- Controller::reinitializeDevice: events that wait are dropped.
  pub reinitialize_device : Controller B → Controller B × Bool
  unfolding initialize_peripherals setup_peripheral_callbacks reset_session_data
  reinitialize_device c = recovered (
      initialize_peripherals
        (shutdown_peripherals (record c { last_error_message = []; event_queue = [] })))
