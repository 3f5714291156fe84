-- ===== src/Emulator/Keyboard.antt =====
-- ConsoleKeyboard of src/console_emulator.cpp.
use fuelflux.Base.{ℕ, Bool, true, false, not, if◌then◌else◌, Option, none}
use fuelflux.Types.{KeyCode}
use fuelflux.Devices.Keyboard.Scan.{char_to_key_code}

pub record ConsoleKeyboard : Type 0 where
  pub connected : Bool
  pub input_enabled : Bool
  pub should_stop : Bool
  pub callback : Bool

pub initialize : ConsoleKeyboard → ConsoleKeyboard × Bool
initialize k = (record k { connected = true; should_stop = false }, true)

pub shutdown : ConsoleKeyboard → ConsoleKeyboard
shutdown k = record k { should_stop = true; connected = false }

pub enable_input : ConsoleKeyboard → Bool → ConsoleKeyboard
enable_input k enabled = record k { input_enabled = enabled }

-- What the callback is given.
unfoldable pub inject_key : ConsoleKeyboard → ℕ → Option KeyCode
unfolding char_to_key_code
inject_key k c =
    if not k.input_enabled then none else if k.callback then char_to_key_code c else none
