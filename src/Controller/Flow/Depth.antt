-- ===== src/Controller/Flow/Depth.antt =====
-- Two levels of nested callbacks are all that a stop of the pump can make, and what it does to the
-- pump.
use fuelflux.Base.{
  ℕ, zero, suc, ◌≡◌, refl, sym, ◌∙◌, arith, none, some, true, false, Bool, not, Option,
  if◌then◌else◌,
}
use fuelflux.Types.{Volume}
use fuelflux.Devices.Pump
use fuelflux.Devices.Pump.{Pump}
use fuelflux.Devices.FlowMeter
use fuelflux.Devices.FlowMeter.{FlowMeter}
use fuelflux.Controller.{Controller, post_event}
use fuelflux.Controller.Flow.{
  stop_pump_within, stop_pump, stop_pump_by, pump_stopped, stop_meter_by, stop_meter, flow_update,
  refresh_display, stop_this_meter, stop_this_pump, run_flow_callback, run_stop_callback,
  target_reached,
}

-- No pump, or one that does not run.
abbrev pub is_off : Option Pump → Bool
is_off none = true
is_off (some p) = not p.running

-- What pump_->stop() makes of the pump.
abbrev pub stopped_pump : Option Pump → Option Pump
stopped_pump none = none
stopped_pump (some p) = some (Pump.stop p).0

stop_off : (p : Pump) → p.running ≡ false → Pump.stop p ≡ (p, none)
unfolding Pump.stop
stop_off p h = ground arith

stop_called : (p : Pump) {b : Bool} → (Pump.stop p).1 ≡ some b → (Pump.stop p).0.running ≡ false
unfolding Pump.stop Pump.apply_relay_state
stop_called p h = ground arith

module _ {B : Type 0} where
  -- Stopping a pump that is off does nothing, at any depth.
  stop_pump_within-off :
      (n : ℕ) (c : Controller B) → is_off c.pump ≡ true → stop_pump_within n c ≡ c
  unfolding stop_pump_within stop_pump_by
  stop_pump_within-off zero c h = refl
  stop_pump_within-off (suc n) c h = stay c.pump refl h
    where
      stay :
          (o : Option Pump)
          → c.pump ≡ o
          → is_off o ≡ true
          → stop_this_pump (stop_pump_within n) c o ≡ c
      stay none e off = refl
      stay (some p) e off = rw (stop_off p (ground arith)) (ground arith)

  pub refresh_display-pump : (c : Controller B) → (refresh_display c).pump ≡ c.pump
  unfolding refresh_display post_event
  refresh_display-pump c = ground arith

  -- Two ways to stop the pump that agree where it is off.
  module _ (s t : Controller B → Controller B)
      (agree : (c : Controller B) → is_off c.pump ≡ true → s c ≡ t c)
      (idle : (c : Controller B) → is_off c.pump ≡ true → t c ≡ c) where
    flow_update-agree :
        (c : Controller B) (v : Volume)
        → is_off c.pump ≡ true
        → flow_update s c v ≡ flow_update t c v
    unfolding flow_update
    flow_update-agree c v h =
        rw (agree (record c { current_refuel_volume = v; last_flow_update_time = c.clock }) h)

    flow_update-pump :
        (c : Controller B) (v : Volume) → is_off c.pump ≡ true → (flow_update t c v).pump ≡ c.pump
    unfolding flow_update
    flow_update-pump c v h =
        let c' = record c { current_refuel_volume = v; last_flow_update_time = c.clock } in
        refresh_display-pump (if target_reached c' v then t c' else c') ∙ ground (arith, idle c' h)

    stop_this_meter-agree :
        (c : Controller B) (o : Option FlowMeter)
        → is_off c.pump ≡ true
        → (stop_this_meter s c o ≡ stop_this_meter t c o) × ((stop_this_meter t c o).pump ≡ c.pump)
    stop_this_meter-agree c none h = (refl, refl)
    stop_this_meter-agree c (some m) h =
        callback (record c { flow_meter = some (FlowMeter.stop_measurement m).0 })
          (FlowMeter.stop_measurement m).1 h
      where
        callback :
            (d : Controller B) (o : Option Volume)
            → is_off d.pump ≡ true
            → (run_flow_callback s d o ≡ run_flow_callback t d o)
              × ((run_flow_callback t d o).pump ≡ d.pump)
        callback d none h = (refl, refl)
        callback d (some v) h = (flow_update-agree d v h, flow_update-pump d v h)

    pump_stopped-agree :
        (c : Controller B)
        → is_off c.pump ≡ true
        → (pump_stopped s c ≡ pump_stopped t c) × ((pump_stopped t c).pump ≡ c.pump)
    unfolding pump_stopped stop_meter_by post_event
    pump_stopped-agree c h =
        let c' = record c { pump_running = false; no_flow_cancel_posted = false } in
        let (same, pump) = stop_this_meter-agree c' c.flow_meter h in (rw same, pump)

    stop_this_pump-agree :
        (c : Controller B) (o : Option Pump)
        → c.pump ≡ o
        → (stop_this_pump s c o ≡ stop_this_pump t c o)
          × ((stop_this_pump t c o).pump ≡ stopped_pump o)
    stop_this_pump-agree c none e = (refl, e)
    stop_this_pump-agree c (some p) e =
        callback (Pump.stop p).0 (Pump.stop p).1 (λ b. stop_called p)
      where
        callback :
            (q : Pump) (o : Option Bool)
            → ((b : Bool) → o ≡ some b → q.running ≡ false)
            → (run_stop_callback s (record c { pump = some q }) o
                ≡ run_stop_callback t (record c { pump = some q }) o)
              × ((run_stop_callback t (record c { pump = some q }) o).pump ≡ some q)
        callback q none h = (refl, refl)
        callback q (some b) h =
            pump_stopped-agree (record c { pump = some q }) (ground (arith, h b refl))

  -- Stopping the pump with any number of levels of nested callbacks from two on gives the same
  -- controller: two levels are all that there can be.
  pub stop_pump_within-enough :
      (n : ℕ) (c : Controller B) → stop_pump_within (suc (suc n)) c ≡ stop_pump c
  unfolding stop_pump stop_pump_within stop_pump_by
  stop_pump_within-enough n c =
      (stop_this_pump-agree (stop_pump_within (suc n)) (stop_pump_within 1)
        (λ d h. stop_pump_within-off (suc n) d h ∙ sym (stop_pump_within-off 1 d h))
        (stop_pump_within-off 1) c c.pump refl).0

  pub stop_pump-pump : (c : Controller B) → (stop_pump c).pump ≡ stopped_pump c.pump
  unfolding stop_pump stop_pump_within stop_pump_by
  stop_pump-pump c =
      (stop_this_pump-agree (stop_pump_within 1) (stop_pump_within 1) (λ d h. refl)
        (stop_pump_within-off 1) c c.pump refl).1

  pub stop_meter-pump : (c : Controller B) → is_off c.pump ≡ true → (stop_meter c).pump ≡ c.pump
  unfolding stop_meter stop_meter_by stop_pump
  stop_meter-pump c h =
      (stop_this_meter-agree (stop_pump_within 2) (stop_pump_within 2) (λ d off. refl)
        (stop_pump_within-off 2) c c.flow_meter h).1
