-- ===== src/Emulator/Line.antt =====
-- The line in which ConsoleEmulator's commands are typed, and its two modes.
use fuelflux.Base.{
  ℕ, Bool, true, false, not, ◌==◌, ◌||◌, if◌then◌else◌, [], ◌∷◌, ◌++◌, Text, codes, text_eq,
}
use fuelflux.Emulator.Ui.{set_input_buffer, set_input_mode}
use fuelflux.Emulator.Words.{erase_last_char}
use fuelflux.Emulator.Commands.{Emulator, dispatch_key, process_command}

abbrev pub with_buffer : Text → Emulator → Emulator
with_buffer t e = record e { command_buffer = t; ui = set_input_buffer t e.ui }

abbrev pub is_enter : ℕ → Bool
is_enter c = (c == 13) || (c == 10)

abbrev pub is_erase : ℕ → Bool
is_erase c = (c == 127) || (c == 8)

-- A byte that is typed, given whether the system waits, and whether the emulator is to end.
unfoldable pub process_keyboard_input : ℕ → Bool → Emulator → Emulator × Bool
unfolding process_command erase_last_char dispatch_key
process_keyboard_input c is_waiting e =
    if not is_waiting
    then (dispatch_key c e, false)
    else if is_enter c
    then (
      with_buffer [] (process_command e.command_buffer e),
      text_eq e.command_buffer (codes "exit"),
    )
    else if is_erase c
    then (with_buffer (erase_last_char e.command_buffer) e, false)
    else (with_buffer (e.command_buffer ++ (c ∷ [])) e, false)

-- setInputMode; leaving the command mode forgets what was typed.
unfoldable pub set_mode : Bool → Emulator → Emulator
set_mode command_mode e =
    if command_mode
    then record e { ui = set_input_buffer e.command_buffer (set_input_mode true e.ui) }
    else record e { ui = set_input_mode false e.ui; command_buffer = [] }
