-- ===== src/Devices/Pump.antt =====
-- src/peripherals/pump.cpp. The line is open exactly while the pump is connected; `relay_on` is the
-- last state that the relay was given.
pub mod Safety
use fuelflux.Base.{Bool, true, false, ◌&&◌, not, if◌then◌else◌, Option, none, some}

pub record Pump : Type 0 where
  pub relay_ok : Bool
  pub connected : Bool
  pub running : Bool
  pub callback : Bool
  pub relay_on : Bool

-- applyRelayState: the relay, and whether it was set.
unfoldable pub apply_relay_state : Pump → Bool → Pump × Bool
apply_relay_state p on =
    if p.connected && p.relay_ok then (record p { relay_on = on }, true) else (p, false)

-- Opening the line sets it to the state that keeps the pump off.
pub initialize : Pump → Pump × Bool
initialize p =
    if p.relay_ok
    then (record p { connected = true; running = false; relay_on = false }, true)
    else (record p { connected = false; running = false }, false)

pub shutdown : Pump → Pump
unfolding apply_relay_state
shutdown p =
    if p.connected
    then record ((apply_relay_state p false).0) { running = false; connected = false }
    else p

abbrev called_back : Pump → Bool → Option Bool
called_back p running = if p.callback then some running else none

started : Pump × Bool → Pump × Option Bool
started (p, true) = (record p { running = true }, called_back p true)
started (p, false) = (p, none)

unfoldable pub start : Pump → Pump × Option Bool
unfolding apply_relay_state started
start p =
    if not p.connected
    then (p, none)
    else if p.running
    then (p, none)
    else started (apply_relay_state p true)

stopped : Pump × Bool → Pump × Option Bool
stopped (p, true) = (record p { running = false }, called_back p false)
stopped (p, false) = (p, none)

unfoldable pub stop : Pump → Pump × Option Bool
unfolding apply_relay_state stopped
stop p = if not p.running then (p, none) else stopped (apply_relay_state p false)
