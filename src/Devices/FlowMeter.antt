-- ===== src/Devices/FlowMeter.antt =====
-- src/peripherals/flow_meter.cpp
use fuelflux.Base.{ℕ, ◌+◌, ◌==◌, Bool, true, false, not, if◌then◌else◌, Option, none, some, pos}
use fuelflux.Types.{Volume}
use fuelflux.Numbers.{add_double, div_double}

pub record FlowMeter : Type 0 where
  pub present : Bool
  pub connected : Bool
  pub measuring : Bool
  pub pulses : ℕ
  pub current : Volume
  pub total : Volume
  pub callback : Bool
  pub simulation : Bool

-- hardware::config::flow_meter::TICKS_PER_LITER
abbrev pub ticks_per_liter : ℕ
ticks_per_liter = 72

unfoldable pub initialize : FlowMeter → FlowMeter × Bool
initialize m = if m.present then (record m { connected = true }, true) else (m, false)

pub get_current_volume : FlowMeter → Volume
get_current_volume m = if m.measuring then div_double m.pulses ticks_per_liter else m.current

pub start_measurement : FlowMeter → FlowMeter
start_measurement m =
    if not m.connected
    then m
    else if m.measuring
    then m
    else record m { current = pos 0; pulses = 0; measuring = true }

unfoldable pub stop_measurement : FlowMeter → FlowMeter × Option Volume
stop_measurement m =
    let final = div_double m.pulses ticks_per_liter in
    if m.measuring
    then (
      record m { current = final; total = add_double m.total final; measuring = false },
      if m.callback then some final else none,
    )
    else (m, none)

pub reset_counter : FlowMeter → FlowMeter
reset_counter m = record m { current = pos 0; total = pos 0; pulses = 0 }

unfoldable pub shutdown : FlowMeter → FlowMeter × Option Volume
unfolding stop_measurement
shutdown m =
    if not m.connected
    then (m, none)
    else (record ((stop_measurement m).0) { connected = false }, (stop_measurement m).1)

-- A batch of pulses that the monitor thread has drained, and the callback that it makes.
pub count_pulses : FlowMeter → ℕ → FlowMeter × Option Volume
unfolding get_current_volume
count_pulses m n =
    let m' = record m { pulses = m.pulses + n } in
    if m.measuring
    then (m', if m.callback then some (get_current_volume m') else none)
    else (m, none)

-- A round of the simulation's thread, given the pulses that its elapsed time is worth.
abbrev pub simulation_tick : FlowMeter → ℕ → FlowMeter × Option Volume
simulation_tick m n = if n == 0 then (m, none) else count_pulses m n

abbrev pub set_simulation_enabled : FlowMeter → Bool → FlowMeter × Bool
set_simulation_enabled m enabled =
    if m.measuring then (m, false) else (record m { simulation = enabled }, true)
