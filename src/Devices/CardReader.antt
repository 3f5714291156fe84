-- ===== src/Devices/CardReader.antt =====
-- src/peripherals/card_reader.cpp, without its polling thread.
use fuelflux.Base.{Bool, true, false, if◌then◌else◌}

pub record CardReader : Type 0 where
  pub present : Bool
  pub connected : Bool
  pub callback : Bool
  pub reading_enabled : Bool

unfoldable pub initialize : CardReader → CardReader × Bool
initialize r =
    if r.connected
    then (r, true)
    else if r.present
    then (record r { connected = true }, true)
    else (r, false)

unfoldable pub shutdown : CardReader → CardReader
shutdown r = record r { reading_enabled = false; connected = false }

pub enable_reading : CardReader → Bool → CardReader
enable_reading r enabled = record r { reading_enabled = enabled }
