-- ===== src/Emulator/Dispatcher.antt =====
-- inputDispatcherLoop of ConsoleEmulator: the thread that reads the terminal.
use fuelflux.Base.{ℕ, Bool, true, false, ◌==◌, if◌then◌else◌, List, [], ◌∷◌, codes}
use fuelflux.Emulator.Commands.{Emulator, say, dispatch_key}
use fuelflux.Emulator.Line.{process_keyboard_input, set_mode, is_enter}

-- What select() and read() give in a round.
pub data Input : Type 0 where
  nothing : Input
  byte : ℕ → Input
  end_of_file : Input
  read_error : Input

-- The thread, and the flag that it shares with the main loop.
pub record Dispatcher : Type 0 where
  pub emulator : Emulator
  pub command_mode : Bool
  pub running : Bool

abbrev same_mode : Bool → Bool → Bool
same_mode true true = true
same_mode false false = true
same_mode true false = false
same_mode false true = false

pub switch_mode : Bool → Dispatcher → Dispatcher
unfolding set_mode
switch_mode mode d =
    if same_mode mode d.command_mode
    then d
    else record d { command_mode = mode; emulator = set_mode mode d.emulator }

-- The flag is cleared, and the loop left.
abbrev pub quit : Dispatcher → Dispatcher
quit d = record d { running = false }

-- consumeModeSwitchRequest, and the switch
abbrev consume_request : Dispatcher → Dispatcher
consume_request d =
    if d.emulator.key_mode_requested
    then switch_mode false
        (record d { emulator = record d.emulator { key_mode_requested = false } })
    else d

abbrev after_input : Dispatcher → Emulator × Bool → Dispatcher
after_input d (e, true) = quit (record d { emulator = e })
after_input d (e, false) = consume_request (record d { emulator = e })

abbrev pub on_byte : ℕ → Dispatcher → Dispatcher
on_byte c d =
    if c == 9
    then switch_mode true d
    else if d.command_mode
    then after_input d (process_keyboard_input c true d.emulator)
    else if is_enter c
    then record d {
      emulator = say (codes "[Key mode: Press 'A' to confirm, not Enter]") d.emulator;
    }
    else record d { emulator = dispatch_key c d.emulator }

-- A round of the loop, while the flag is set.
abbrev pub on_input : Input → Dispatcher → Dispatcher
on_input nothing d = d
on_input (byte c) d = on_byte c d
on_input end_of_file d = quit d
on_input read_error d = quit d

pub round : Dispatcher → Input → Dispatcher
unfolding switch_mode process_keyboard_input dispatch_key
round d i = if d.running then on_input i d else d

pub rounds : Dispatcher → List Input → Dispatcher
unfolding round
rounds d [] = d
rounds d (i ∷ is) = rounds (round d i) is

-- The loop starts in key mode.
pub start : Emulator → Dispatcher
unfolding switch_mode
start e = switch_mode false (record { emulator = e; command_mode = true; running = true })
