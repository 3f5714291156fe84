-- ===== src/Controller/Flow/Frame.antt =====
-- What the pump and the flow meter leave alone, callbacks included.
use fuelflux.Base.{
  ℕ, zero, suc, ◌≡◌, arith, Bool, true, false, Option, none, some, Bool-cases, inl, inr, pos,
}
use fuelflux.Types.{Volume, Event, refueling_stopped, refueling_started}
use fuelflux.Devices.Pump
use fuelflux.Devices.FlowMeter
use fuelflux.Controller.{Controller, post_event}
use fuelflux.Controller.Flow.{
  target_reached, refresh_display, flow_update, stop_meter_by, pump_stopped, stop_pump_by,
  stop_pump_within, stop_pump, stop_meter, handle_flow_update, start_pump, pump_started,
  start_refueling, stop_refueling, run_flow_callback, run_stop_callback, stop_this_meter,
  stop_this_pump, start_this_meter, start_this_pump, run_start_callback,
}

-- The state of the machine, the input, the session and the services are the same.
pub record Frame {B : Type 0} (c d : Controller B) : Type 0 where
  pub state : d.state ≡ c.state
  pub previous_state : d.previous_state ≡ c.previous_state
  pub last_activity_time : d.last_activity_time ≡ c.last_activity_time
  pub display : d.display ≡ c.display
  pub card_reader : d.card_reader ≡ c.card_reader
  pub backend : d.backend ≡ c.backend
  pub message_storage : d.message_storage ≡ c.message_storage
  pub user_cache : d.user_cache ≡ c.user_cache
  pub cache_manager : d.cache_manager ≡ c.cache_manager
  pub current_user : d.current_user ≡ c.current_user
  pub available_tanks : d.available_tanks ≡ c.available_tanks
  pub cached_fuel_tanks : d.cached_fuel_tanks ≡ c.cached_fuel_tanks
  pub selected_tank : d.selected_tank ≡ c.selected_tank
  pub entered_volume : d.entered_volume ≡ c.entered_volume
  pub current_input : d.current_input ≡ c.current_input
  pub target_refuel_volume : d.target_refuel_volume ≡ c.target_refuel_volume
  pub from_cache : d.session_authorized_from_cache ≡ c.session_authorized_from_cache
  pub clock : d.clock ≡ c.clock
  pub wall_clock : d.wall_clock ≡ c.wall_clock

module _ {B : Type 0} where
  pub Frame-refl : (c : Controller B) → Frame c c
  Frame-refl c = ground arith

  pub Frame-trans : (c d e : Controller B) → Frame c d → Frame d e → Frame c e
  Frame-trans c d e f g = ground arith

  pub post_event-Frame : (c : Controller B) (e : Event) → Frame c (post_event c e)
  unfolding post_event
  post_event-Frame c e = ground arith

  refresh_display-Frame : (c : Controller B) → Frame c (refresh_display c)
  unfolding refresh_display
  refresh_display-Frame c = ground arith

  module _ (stop : Controller B → Controller B)
      (stops : (c : Controller B) → Frame c (stop c)) where
    flow_update-Frame : (c : Controller B) (v : Volume) → Frame c (flow_update stop c v)
    unfolding flow_update
    flow_update-Frame c v =
        let c' = record c { current_refuel_volume = v; last_flow_update_time = c.clock } in
        elim (Bool-cases (target_reached c' v)) [
          | inl hit ↦ rw hit (
              Frame-trans c (stop c') (refresh_display (stop c'))
                (Frame-trans c c' (stop c') (ground arith) (stops c'))
                (refresh_display-Frame (stop c')))
          | inr miss ↦
              rw miss
                (Frame-trans c c' (refresh_display c') (ground arith) (refresh_display-Frame c'))
        ]

    run_flow_callback-Frame :
        (c : Controller B) (o : Option Volume) → Frame c (run_flow_callback stop c o)
    run_flow_callback-Frame c none = Frame-refl c
    run_flow_callback-Frame c (some v) = flow_update-Frame c v

    stop_this_meter-Frame :
        (c : Controller B) (o : Option FlowMeter.FlowMeter) → Frame c (stop_this_meter stop c o)
    stop_this_meter-Frame c none = Frame-refl c
    stop_this_meter-Frame c (some m) =
        let c' = record c { flow_meter = some (FlowMeter.stop_measurement m).0 } in
        Frame-trans c c' _ (ground arith)
          (run_flow_callback-Frame c' (FlowMeter.stop_measurement m).1)

    stop_meter_by-Frame : (c : Controller B) → Frame c (stop_meter_by stop c)
    unfolding stop_meter_by
    stop_meter_by-Frame c = stop_this_meter-Frame c c.flow_meter

    pump_stopped-Frame : (c : Controller B) → Frame c (pump_stopped stop c)
    unfolding pump_stopped
    pump_stopped-Frame c =
        let c' = record c { pump_running = false; no_flow_cancel_posted = false } in
        Frame-trans c (stop_meter_by stop c') _
          (Frame-trans c c' _ (ground arith) (stop_meter_by-Frame c'))
          (post_event-Frame (stop_meter_by stop c') refueling_stopped)

    run_stop_callback-Frame :
        (c : Controller B) (o : Option Bool) → Frame c (run_stop_callback stop c o)
    run_stop_callback-Frame c none = Frame-refl c
    run_stop_callback-Frame c (some running) = pump_stopped-Frame c

    stop_this_pump-Frame :
        (c : Controller B) (o : Option Pump.Pump) → Frame c (stop_this_pump stop c o)
    stop_this_pump-Frame c none = Frame-refl c
    stop_this_pump-Frame c (some p) =
        let c' = record c { pump = some (Pump.stop p).0 } in
        Frame-trans c c' _ (ground arith) (run_stop_callback-Frame c' (Pump.stop p).1)

  stop_pump_within-Frame : (n : ℕ) (c : Controller B) → Frame c (stop_pump_within n c)
  unfolding stop_pump_within stop_pump_by
  stop_pump_within-Frame zero c = Frame-refl c
  stop_pump_within-Frame (suc n) c =
      stop_this_pump-Frame (stop_pump_within n) (stop_pump_within-Frame n) c c.pump

  pub stop_pump-Frame : (c : Controller B) → Frame c (stop_pump c)
  unfolding stop_pump
  stop_pump-Frame c = stop_pump_within-Frame 2 c

  pub stop_meter-Frame : (c : Controller B) → Frame c (stop_meter c)
  unfolding stop_meter
  stop_meter-Frame c = stop_meter_by-Frame stop_pump stop_pump-Frame c

  pub handle_flow_update-Frame : (c : Controller B) (v : Volume) → Frame c (handle_flow_update c v)
  unfolding handle_flow_update
  handle_flow_update-Frame c v = flow_update-Frame stop_pump stop_pump-Frame c v

  pub run_flow_callback-Frame_any :
      (c : Controller B) (o : Option Volume) → Frame c (run_flow_callback stop_pump c o)
  run_flow_callback-Frame_any c o = run_flow_callback-Frame stop_pump stop_pump-Frame c o

  pub stop_refueling-Frame : (c : Controller B) → Frame c (stop_refueling c)
  unfolding stop_refueling
  stop_refueling-Frame c =
      Frame-trans c (stop_pump c) _ (stop_pump-Frame c)
        (post_event-Frame (stop_pump c) refueling_stopped)

  start_this_meter-Frame :
      (c : Controller B) (o : Option FlowMeter.FlowMeter) → Frame c (start_this_meter c o)
  start_this_meter-Frame c none = Frame-refl c
  start_this_meter-Frame c (some m) = ground arith

  run_start_callback-Frame : (c : Controller B) (o : Option Bool) → Frame c (run_start_callback c o)
  unfolding pump_started
  run_start_callback-Frame c none = Frame-refl c
  run_start_callback-Frame c (some running) =
      let c' = record c {
        pump_running = true;
        no_flow_cancel_posted = false;
        last_flow_update_time = c.clock;
      } in
      Frame-trans c c' _ (ground arith) (start_this_meter-Frame c' c.flow_meter)

  start_this_pump-Frame : (c : Controller B) (o : Option Pump.Pump) → Frame c (start_this_pump c o)
  start_this_pump-Frame c none = Frame-refl c
  start_this_pump-Frame c (some p) =
      let c' = record c { pump = some (Pump.start p).0 } in
      Frame-trans c c' _ (ground arith) (run_start_callback-Frame c' (Pump.start p).1)

  pub start_refueling-Frame : (c : Controller B) → Frame c (start_refueling c)
  unfolding start_refueling start_pump
  start_refueling-Frame c =
      let c' = record c { current_refuel_volume = pos 0 } in
      Frame-trans c (start_this_pump c' c'.pump) _
        (Frame-trans c c' _ (ground arith) (start_this_pump-Frame c' c'.pump))
        (post_event-Frame (start_this_pump c' c'.pump) refueling_started)
