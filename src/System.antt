-- ===== src/System.antt =====
-- The controller in its environment: the body of Controller::run, and the calls that the threads of
-- the devices and the monitors make between its rounds.
pub mod Stages
pub mod Lifecycle
use fuelflux.Base.{
  ℕ, ◌+◌, ◌-◌, ◌*◌, Bool, true, false, not, ◌&&◌, leb, if◌then◌else◌, List, [], ◌∷◌, ◌++◌, Option,
  none, some,
}
use fuelflux.Types.{UserId, SystemState, refueling, KeyCode, Event, display_reset, cancel_no_fuel}
use fuelflux.Devices.CardReader.{CardReader}
use fuelflux.Devices.Keyboard.{Keyboard}
use fuelflux.Devices.FlowMeter
use fuelflux.Services.{Services}
use fuelflux.Controller.{Controller, post_event}
use fuelflux.Controller.Flow.{stop_pump, run_flow_callback}
use fuelflux.Controller.Keys.{handle_key_press, handle_card_presented}
use fuelflux.Controller.Screen.{reinitialize_display}
use fuelflux.Machine.Process.{process_event, poll_timeout}

-- What can happen next: a key, a card before the reader, pulses of the flow meter, time that goes
-- by, a poll of the timeout thread or of the no-flow monitor, a round of the main loop.
pub data Input : Type 0 where
  key : KeyCode → Input
  card : UserId → Input
  pulses : ℕ → Input
  elapse : ℕ → Input
  poll_inactivity : Input
  poll_flow : Input
  round : Input

abbrev pub is_refueling : SystemState → Bool
is_refueling refueling = true
is_refueling _ = false

abbrev pub hears_keys : Option Keyboard → Bool
hears_keys none = false
hears_keys (some k) = k.input_enabled && k.callback

abbrev pub hears_cards : Option CardReader → Bool
hears_cards none = false
hears_cards (some r) = r.reading_enabled && r.callback

-- The event that a round takes.
abbrev pub first_of : List Event → List Event
first_of [] = []
first_of (e ∷ es) = e ∷ []

module _ {B : Type 0} where
  abbrev pub card_seen : Controller B → UserId → Controller B
  card_seen c uid = if hears_cards c.card_reader then handle_card_presented c uid else c

  abbrev pub pulses_counted : Controller B → ℕ → Controller B
  pulses_counted c n = elim c.flow_meter [
    | none ↦ c
    | some m ↦
        run_flow_callback stop_pump (record c { flow_meter = some (FlowMeter.count_pulses m n).0 })
          (FlowMeter.count_pulses m n).1
  ]

  -- The time without flow, in milliseconds, is compared with the limit in seconds.
  abbrev pub no_flow : Controller B → Bool
  no_flow c =
      c.pump_running
      && not c.no_flow_cancel_posted
      && leb (c.no_flow_cancel_timeout * 1000) (c.clock - c.last_flow_update_time)

  -- A round of noFlowMonitorThreadFunction.
  pub poll_no_flow : Controller B → Controller B
  unfolding post_event
  poll_no_flow c =
      if no_flow c
      then (let c' = record c { no_flow_cancel_posted = true } in
          if is_refueling c.state then post_event c' cancel_no_fuel else c')
      else c

module _ {B : Type 0} (ops : Services B) where
  abbrev pub key_pressed : Controller B → KeyCode → Controller B
  key_pressed c k = if hears_keys c.keyboard then handle_key_press ops c k else c

  -- A display reset does not pass through the machine.
  unfoldable pub handle_event : Event → Controller B → Controller B
  handle_event display_reset c = reinitialize_display ops c
  handle_event e c = (process_event ops c e).0

  abbrev pub take_event : List Event → Controller B → Controller B
  take_event [] c = c
  take_event (e ∷ es) c = handle_event e (record c { event_queue = es })

  -- The body of the main loop.
  unfoldable pub run_once : Controller B → Controller B
  run_once c = if c.is_running then take_event c.event_queue c else c

  unfoldable pub step : Controller B → Input → Controller B
  unfolding poll_no_flow run_once
  step c (key k) = key_pressed c k
  step c (card uid) = card_seen c uid
  step c (pulses n) = pulses_counted c n
  step c (elapse n) = record c { clock = c.clock + n; wall_clock = c.wall_clock + n }
  step c poll_inactivity = poll_timeout c
  step c poll_flow = poll_no_flow c
  step c round = run_once c

  unfoldable pub steps : Controller B → List Input → Controller B
  steps c [] = c
  steps c (i ∷ is) = steps (step c i) is

  abbrev pub taken : Controller B → Input → List Event
  taken c round = if c.is_running then first_of c.event_queue else []
  taken c i = []

  -- The events that the main loop has handled in these steps, in order.
  pub handled : Controller B → List Input → List Event
  handled c [] = []
  handled c (i ∷ is) = taken c i ++ handled (step c i) is
