-- ===== src/Controller/Flow/Target.antt =====
-- The pump stops when the metered volume reaches the target, and not before.
use fuelflux.Base.{◌≡◌, ◌∙◌, arith, true, false, some, pos, ◌<ℤ◌, ◌≤ℤ◌, if◌then◌else◌}
use fuelflux.Types.{Volume}
use fuelflux.Devices.Pump
use fuelflux.Devices.Pump.{Pump}
use fuelflux.Devices.Pump.Safety.{IsValid, stop_off}
use fuelflux.Controller.{Controller}
use fuelflux.Controller.Flow.{flow_update, handle_flow_update, stop_pump, target_reached}
use fuelflux.Controller.Flow.Depth.{stopped_pump, stop_pump-pump, refresh_display-pump}

module _ {B : Type 0} (c : Controller B) (v : Volume) where
  -- What a flow update makes of the pump.
  handle_flow_update-pump :
      (handle_flow_update c v).pump ≡ (if target_reached c v then stopped_pump c.pump else c.pump)
  unfolding handle_flow_update flow_update
  handle_flow_update-pump =
      let c' = record c { current_refuel_volume = v; last_flow_update_time = c.clock } in
      refresh_display-pump (if target_reached c' v then stop_pump c' else c')
      ∙ ground (arith, stop_pump-pump c')

  -- When the metered volume reaches a positive target, a valid, connected pump whose relay obeys
  -- is off after the flow update, and so is its relay.
  pub target_stops_pump :
      (p : Pump)
      → c.pump ≡ some p
      → IsValid p
      → p.connected ≡ true
      → p.relay_ok ≡ true
      → pos 0 <ℤ c.target_refuel_volume
      → c.target_refuel_volume ≤ℤ v
      → (q : Pump) × ((handle_flow_update c v).pump ≡ some q)
        × (q.running ≡ false)
        × (q.relay_on ≡ false)
  target_stops_pump p e valid connected ok positive reached =
      let (still, relay) = stop_off p valid connected ok in
      ((Pump.stop p).0, ground (arith, handle_flow_update-pump), still, relay)

  -- Below the target the pump is left as it is.
  pub below_target_pump_runs : v <ℤ c.target_refuel_volume → (handle_flow_update c v).pump ≡ c.pump
  below_target_pump_runs below = ground (arith, handle_flow_update-pump)
