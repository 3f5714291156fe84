-- ===== src/Controller/Flow/Metered.antt =====
-- The refueled volume after the pump and the flow meter have stopped.
use fuelflux.Base.{◌≡◌, refl, ◌∙◌, arith, false, ◌&&◌, if◌then◌else◌, Option, none, some, pos}
use fuelflux.Types.{Volume}
use fuelflux.Numbers.{div_double}
use fuelflux.Devices.Pump
use fuelflux.Devices.FlowMeter
use fuelflux.Devices.FlowMeter.{FlowMeter, ticks_per_liter}
use fuelflux.Controller.{Controller, post_event}
use fuelflux.Controller.Flow.{
  refresh_display, flow_update, stop_this_meter, stop_meter_by, pump_stopped, stop_this_pump,
  stop_pump_by, stop_pump_within, stop_pump, stop_meter,
}

-- What a meter that measures reports when it stops, if it has a callback, and the volume as it was
-- otherwise.
abbrev pub metered : Volume → Option FlowMeter → Volume
metered v none = v
metered v (some m) = if m.measuring && m.callback then div_double m.pulses ticks_per_liter else v

module _ {B : Type 0} where
  abbrev volume_left : Controller B → Volume
  volume_left c = metered c.current_refuel_volume c.flow_meter

  -- The same volume is left in the end, and there is still no target.
  record Stays (c d : Controller B) : Type 0 where
    volume : volume_left d ≡ volume_left c
    target : d.target_refuel_volume ≡ c.target_refuel_volume

  module _ (stop : Controller B → Controller B) where
    stop_this_meter-Stays :
        (c : Controller B) (o : Option FlowMeter)
        → c.target_refuel_volume ≡ pos 0
        → c.flow_meter ≡ o
        → ((stop_this_meter stop c o).current_refuel_volume ≡ volume_left c)
          × Stays c (stop_this_meter stop c o)
    unfolding flow_update refresh_display post_event FlowMeter.stop_measurement
    stop_this_meter-Stays c none h e = ground (arith, e)
    stop_this_meter-Stays c (some m) h e = ground (arith, e, h)

    stop_meter_by-Stays :
        (c : Controller B)
        → c.target_refuel_volume ≡ pos 0
        → ((stop_meter_by stop c).current_refuel_volume ≡ volume_left c)
          × Stays c (stop_meter_by stop c)
    unfolding stop_meter_by
    stop_meter_by-Stays c h = stop_this_meter-Stays c c.flow_meter h refl

    pump_stopped-Stays :
        (c : Controller B) → c.target_refuel_volume ≡ pos 0 → Stays c (pump_stopped stop c)
    unfolding pump_stopped post_event
    pump_stopped-Stays c h =
        let c' = record c { pump_running = false; no_flow_cancel_posted = false } in
        ground (arith, stop_meter_by-Stays c' h)

    stop_this_pump-Stays :
        (c : Controller B) (o : Option Pump.Pump)
        → c.target_refuel_volume ≡ pos 0
        → Stays c (stop_this_pump stop c o)
    stop_this_pump-Stays c none h = ground arith
    stop_this_pump-Stays c (some p) h =
        let c' = record c { pump = some (Pump.stop p).0 } in ground (arith, pump_stopped-Stays c' h)

  stop_pump-Stays : (c : Controller B) → c.target_refuel_volume ≡ pos 0 → Stays c (stop_pump c)
  unfolding stop_pump stop_pump_within stop_pump_by
  stop_pump-Stays c h = stop_this_pump-Stays (stop_pump_within 1) c c.pump h

  -- Without a target, stopping the pump and then the meter leaves the volume that the meter had
  -- measured, if it measured and has a callback, and the volume as it was otherwise.
  pub stopped-metered :
      (c : Controller B)
      → c.target_refuel_volume ≡ pos 0
      → (stop_meter (stop_pump c)).current_refuel_volume
        ≡ metered c.current_refuel_volume c.flow_meter
  unfolding stop_meter
  stopped-metered c h =
      let s = stop_pump-Stays c h in
      (stop_meter_by-Stays stop_pump (stop_pump c) (s.target ∙ h)).0 ∙ s.volume
