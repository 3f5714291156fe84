-- ===== src/Emulator/CardReader.antt =====
-- ConsoleCardReader of src/console_emulator.cpp.
use fuelflux.Base.{Bool, true, false, not, if◌then◌else◌, Option, none, some, Text, codes, ◌++◌}
use fuelflux.Types.{UserId}

pub record ConsoleCardReader : Type 0 where
  pub connected : Bool
  pub reading_enabled : Bool
  pub callback : Bool

pub initialize : ConsoleCardReader → ConsoleCardReader × Bool
initialize r = (record r { connected = true }, true)

pub shutdown : ConsoleCardReader → ConsoleCardReader
shutdown r = record r { connected = false }

pub enable_reading : ConsoleCardReader → Bool → ConsoleCardReader
enable_reading r enabled = record r { reading_enabled = enabled }

-- What the callback is given, and what is logged.
pub simulate_card_presented : ConsoleCardReader → UserId → Option UserId × Option Text
simulate_card_presented r uid =
    if not r.reading_enabled
    then (none, some (codes "[CardReader] Reading disabled, ignoring card: " ++ uid))
    else if r.callback
    then (some uid, none)
    else (none, none)
