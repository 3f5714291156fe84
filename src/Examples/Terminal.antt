-- ===== src/Examples/Terminal.antt =====
-- The theorems on the console emulator and on the recovery of the process, at concrete inputs.
use fuelflux.Base.{
  ℕ, ◌+◌, ◌≡◌, refl, arith, true, false, none, codes, text_eq, leb, length, map, List, [], ◌∷◌,
  ◌++◌,
}
use fuelflux.Emulator.Ui.{Ui}
use fuelflux.Emulator.Log.{LogCall, line, block, log_calls, logged, last_lines, log_calls_lem}
use fuelflux.Emulator.Commands.{Emulator}
use fuelflux.Emulator.Line.{process_keyboard_input}
use fuelflux.Emulator.Typed.{Stroke, character, erase, strokes, edit, text_of, strokes_lem}
use fuelflux.Main.{Main, max_retries, iterations}
use fuelflux.Main.Recovery.{failing, iterations-Soon}

abbrev terminal : Ui
terminal = record {
  display_height = 6;
  log_lines = codes "started" ∷ [];
  input_buffer = [];
  initialized = true;
  command_mode = true;
  use_alternate_buffer = true;
  out = [];
}

abbrev some_calls : List LogCall
some_calls = line (codes "one") ∷ block (97 ∷ 10 ∷ 98 ∷ 10 ∷ []) ∷ []

log_calls_example :
    (log_calls terminal some_calls).log_lines ≡ last_lines (terminal.log_lines ++ logged some_calls)
log_calls_example = log_calls_lem terminal some_calls (omega arith)

abbrev console : Emulator
console = record {
  real_card_reader = false;
  real_flow_meter = true;
  ui = terminal;
  keyboard = none;
  card_reader = none;
  command_buffer = codes "ex";
  key_mode_requested = false;
  user_cache = none;
  simulation_handler = none;
  presses = [];
  cards = [];
  simulations = [];
}

-- A Cyrillic letter typed by mistake, and erased.
abbrev some_strokes : List Stroke
some_strokes = character 0x438 ∷ erase ∷ character 105 ∷ character 116 ∷ []

strokes_example :
    let typed = strokes console some_strokes in
    (typed.command_buffer ≡ text_of (edit (120 ∷ 101 ∷ []) some_strokes))
    × ((process_keyboard_input 10 true typed).1
        ≡ text_eq (text_of (edit (120 ∷ 101 ∷ []) some_strokes)) (codes "exit"))
strokes_example =
    strokes_lem some_strokes (120 ∷ 101 ∷ []) console refl (omega arith, (omega arith, tt))
      (
        (omega arith, (refl, refl)),
        (tt, ((omega arith, (refl, refl)), ((omega arith, (refl, refl)), tt))),
      )

abbrev failed_once : Main
failed_once = record {
  running = true;
  failed = false;
  logger_ready = true;
  retry_count = 1;
  last_retry_time = 5000;
  cares_initialized = true;
  cares_cleaned = 0;
}

abbrev two_failures : List (ℕ × ℕ)
two_failures = (6000, 9000) ∷ (10000, 20000) ∷ []

iterations-Soon_example :
    (iterations failed_once (map failing two_failures)).failed
    ≡ leb max_retries (1 + length two_failures)
iterations-Soon_example =
    iterations-Soon failed_once 1 two_failures refl refl refl (omega arith, (omega arith, tt))
