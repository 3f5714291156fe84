-- ===== src/Devices/Keyboard.antt =====
-- src/peripherals/keyboard.cpp: Scan finds a key that is held, and Polling is the thread.
pub mod Scan
pub mod Polling
pub mod Once
use fuelflux.Base.{Bool, true, false, if◌then◌else◌}

pub record Keyboard : Type 0 where
  pub present : Bool
  pub connected : Bool
  pub callback : Bool
  pub input_enabled : Bool

unfoldable pub initialize : Keyboard → Keyboard × Bool
initialize k =
    if k.present
    then (record k { connected = true }, true)
    else (record k { connected = false }, false)

unfoldable pub shutdown : Keyboard → Keyboard
shutdown k = record k { connected = false }
