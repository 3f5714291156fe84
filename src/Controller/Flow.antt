-- ===== src/Controller/Flow.antt =====
-- Controller::handlePumpStateChanged and handleFlowUpdate, and the calls of the pump and the flow
-- meter that run them as callbacks. Stopping the pump stops the meter, whose callback may stop the
-- pump again: the calls nest as deep as the fuel, and Flow/Depth shows that two levels are all.
pub mod Frame
pub mod Depth
pub mod Target
pub mod Metered
use fuelflux.Base.{
  ℕ, zero, suc, ◌-◌, Bool, true, false, ◌&&◌, leb, if◌then◌else◌, Option, none, some, pos, ltb_ℤ,
  leb_ℤ,
}
use fuelflux.Types.{Volume, input_updated, refueling_stopped, refueling_started}
use fuelflux.Devices.Pump
use fuelflux.Devices.Pump.{Pump}
use fuelflux.Devices.FlowMeter
use fuelflux.Devices.FlowMeter.{FlowMeter}
use fuelflux.Controller.{Controller, post_event}

-- timing::kFlowDisplayRefreshInterval
abbrev pub flow_display_refresh_interval : ℕ
flow_display_refresh_interval = 500

module _ {B : Type 0} where
  -- The target of the refueling is reached.
  abbrev pub target_reached : Controller B → Volume → Bool
  target_reached c v = ltb_ℤ (pos 0) c.target_refuel_volume && leb_ℤ c.target_refuel_volume v

  -- The display is refreshed once in an interval.
  pub refresh_display : Controller B → Controller B
  unfolding post_event
  refresh_display c =
      if leb flow_display_refresh_interval (c.clock - c.last_flow_callback_time)
      then post_event (record c { last_flow_callback_time = c.clock }) input_updated
      else c

  -- handleFlowUpdate, for a given way to stop the pump.
  pub flow_update : (Controller B → Controller B) → Controller B → Volume → Controller B
  flow_update stop c v =
      let c' = record c { current_refuel_volume = v; last_flow_update_time = c.clock } in
      refresh_display (if target_reached c' v then stop c' else c')

  abbrev pub run_flow_callback :
      (Controller B → Controller B) → Controller B → Option Volume → Controller B
  run_flow_callback stop c none = c
  run_flow_callback stop c (some v) = flow_update stop c v

  -- if (flowMeter_) flowMeter_->stopMeasurement()
  abbrev pub stop_this_meter :
      (Controller B → Controller B) → Controller B → Option FlowMeter → Controller B
  stop_this_meter stop c none = c
  stop_this_meter stop c (some m) =
      run_flow_callback stop (record c { flow_meter = some (FlowMeter.stop_measurement m).0 })
        (FlowMeter.stop_measurement m).1

  pub stop_meter_by : (Controller B → Controller B) → Controller B → Controller B
  stop_meter_by stop c = stop_this_meter stop c c.flow_meter

  -- handlePumpStateChanged(false)
  pub pump_stopped : (Controller B → Controller B) → Controller B → Controller B
  pump_stopped stop c =
      post_event
        (stop_meter_by stop (record c { pump_running = false; no_flow_cancel_posted = false }))
        refueling_stopped

  abbrev pub run_stop_callback :
      (Controller B → Controller B) → Controller B → Option Bool → Controller B
  run_stop_callback stop c none = c
  run_stop_callback stop c (some _) = pump_stopped stop c

  -- if (pump_) pump_->stop()
  abbrev pub stop_this_pump :
      (Controller B → Controller B) → Controller B → Option Pump → Controller B
  stop_this_pump stop c none = c
  stop_this_pump stop c (some p) =
      run_stop_callback stop (record c { pump = some (Pump.stop p).0 }) (Pump.stop p).1

  pub stop_pump_by : (Controller B → Controller B) → Controller B → Controller B
  stop_pump_by stop c = stop_this_pump stop c c.pump

  pub stop_pump_within : ℕ → Controller B → Controller B
  stop_pump_within zero c = c
  stop_pump_within (suc depth) c = stop_pump_by (stop_pump_within depth) c

  pub stop_pump : Controller B → Controller B
  stop_pump c = stop_pump_within 2 c

  pub stop_meter : Controller B → Controller B
  stop_meter c = stop_meter_by stop_pump c

  pub handle_flow_update : Controller B → Volume → Controller B
  handle_flow_update c v = flow_update stop_pump c v

  abbrev pub start_this_meter : Controller B → Option FlowMeter → Controller B
  start_this_meter c none = c
  start_this_meter c (some m) = record c {
    flow_meter = some (FlowMeter.start_measurement (FlowMeter.reset_counter m));
  }

  -- handlePumpStateChanged(true)
  unfoldable pub pump_started : Controller B → Controller B
  pump_started c =
      let c' = record c {
        pump_running = true;
        no_flow_cancel_posted = false;
        last_flow_update_time = c.clock;
      } in
      start_this_meter c' c.flow_meter

  pub handle_pump_state_changed : Controller B → Bool → Controller B
  handle_pump_state_changed c true = pump_started c
  handle_pump_state_changed c false = pump_stopped stop_pump c

  abbrev pub run_start_callback : Controller B → Option Bool → Controller B
  run_start_callback c none = c
  run_start_callback c (some _) = pump_started c

  -- if (pump_) pump_->start()
  abbrev pub start_this_pump : Controller B → Option Pump → Controller B
  start_this_pump c none = c
  start_this_pump c (some p) =
      run_start_callback (record c { pump = some (Pump.start p).0 }) (Pump.start p).1

  unfoldable pub start_pump : Controller B → Controller B
  start_pump c = start_this_pump c c.pump

  unfoldable pub start_refueling : Controller B → Controller B
  start_refueling c =
      post_event (start_pump (record c { current_refuel_volume = pos 0 })) refueling_started

  pub stop_refueling : Controller B → Controller B
  stop_refueling c = post_event (stop_pump c) refueling_stopped
