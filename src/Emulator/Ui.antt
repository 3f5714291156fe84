-- ===== src/Emulator/Ui.antt =====
-- ConsoleUi of src/console_emulator.cpp: a display area, the last lines of a log and an input line.
use fuelflux.Base.{
  ℕ, ◌+◌, ◌-◌, zero, suc, Bool, true, false, ◌==◌, if◌then◌else◌, ltb, List, [], ◌∷◌, ◌++◌, Text,
  codes, length, drop, is_empty,
}
use fuelflux.Numbers.{print_ℕ}
use fuelflux.ConsoleDisplay.{char_len}
use fuelflux.Pixels.{count_from}

-- `display_height` is 0 in the build for a real display, and 6 in the other; `out` is what was
-- written to the terminal.
pub record Ui : Type 0 where
  pub display_height : ℕ
  pub log_lines : List Text
  pub input_buffer : Text
  pub initialized : Bool
  pub command_mode : Bool
  pub use_alternate_buffer : Bool
  pub out : Text

-- kMaxLogLines, kLogStartRow, kInputRow
abbrev pub max_log_lines : ℕ
max_log_lines = 15

abbrev pub log_start_row : Ui → ℕ
log_start_row u = u.display_height + 1

abbrev pub input_row : Ui → ℕ
input_row u = log_start_row u + max_log_lines + 1

abbrev pub write : Text → Ui → Ui
write t u = record u { out = u.out ++ t }

-- The loop of utf8Length, on fuel: a round for each byte is enough.
pub whole_chars : ℕ → Text → ℕ
whole_chars zero t = 0
whole_chars (suc f) [] = 0
whole_chars (suc f) (c ∷ t) =
    let rest = whole_chars f (drop (char_len c) (c ∷ t)) in
    if ltb (length (c ∷ t)) (char_len c) then 0 else suc rest

pub utf8_length : Text → ℕ
unfolding whole_chars
utf8_length t = whole_chars (length t) t

unfoldable pub write_at : ℕ → ℕ → Text → Ui → Ui
write_at row col text u =
    write
      ((27 ∷ codes "[")
        ++ (print_ℕ row
            ++ (codes ";" ++ (print_ℕ col ++ (codes "H" ++ ((27 ∷ codes "[2K") ++ text))))))
      u

-- The log's line with this number, if there is one.
abbrev pub line_at : ℕ → List Text → Text
line_at i [] = []
line_at zero (l ∷ ls) = l
line_at (suc i) (l ∷ ls) = line_at i ls

abbrev pub shown_index : List Text → ℕ → ℕ
shown_index ls i = if ltb max_log_lines (length ls) then length ls - max_log_lines + i else i

abbrev pub render_log_rows : List ℕ → Ui → Ui
render_log_rows [] u = u
render_log_rows (i ∷ is) u =
    render_log_rows is
      (write_at (log_start_row u + i) 1 (line_at (shown_index u.log_lines i) u.log_lines) u)

unfoldable pub render_log_area : Ui → Ui
unfolding write_at
render_log_area u = render_log_rows (count_from 0 max_log_lines) u

abbrev pub get_prompt : Ui → Text
get_prompt u =
    if u.command_mode
    then codes "CMD MODE ('keymode' to key) > "
    else codes "KEY MODE (Tab to command)"

unfoldable pub move_cursor_to_input : Ui → Ui
unfolding utf8_length
move_cursor_to_input u =
    let offset =
      (if u.command_mode
        then utf8_length (get_prompt u) + utf8_length u.input_buffer
        else utf8_length (get_prompt u)) in
    write
      ((27 ∷ codes "[")
        ++ (print_ℕ (input_row u) ++ (codes ";" ++ (print_ℕ (offset + 1) ++ codes "H"))))
      u

unfoldable pub render_input : Ui → Ui
unfolding write_at move_cursor_to_input
render_input u = move_cursor_to_input (
    write_at (input_row u) 1
      (if u.command_mode then get_prompt u ++ u.input_buffer else get_prompt u) u)

abbrev pub to_alternate_buffer : Ui → Ui
to_alternate_buffer u = if u.use_alternate_buffer then write (27 ∷ codes "[?1049h") u else u

unfoldable pub initialize : Ui → Ui
unfolding render_log_area render_input
initialize u =
    if u.initialized
    then u
    else render_input (
        render_log_area
          (record (write ((27 ∷ codes "[2J") ++ (27 ∷ codes "[H")) (to_alternate_buffer u)) {
            initialized = true;
          }))

pub shutdown : Ui → Ui
shutdown u =
    if u.initialized
    then (if u.use_alternate_buffer
        then record (write (27 ∷ codes "[?1049l") u) { initialized = false }
        else record u { initialized = false })
    else u

-- The loop of appendLogLineLocked that drops lines from the front.
abbrev pub latest : List Text → List Text
latest [] = []
latest (l ∷ ls) = if ltb max_log_lines (length (l ∷ ls)) then latest ls else l ∷ ls

unfoldable pub append_log_line : Text → Ui → Ui
append_log_line line u = record u { log_lines = latest (u.log_lines ++ (line ∷ [])) }

unfoldable pub log_line : Text → Ui → Ui
unfolding initialize append_log_line
log_line line u = render_input (render_log_area (append_log_line line (initialize u)))

-- The lines that std::getline gives, after these characters of the first one.
abbrev pub lines_from : Text → Text → List Text
lines_from acc [] = if is_empty acc then [] else acc ∷ []
lines_from acc (c ∷ t) = elim (c == 10) [
  | true ↦ acc ∷ lines_from [] t
  | false ↦ lines_from (acc ++ (c ∷ [])) t
]

abbrev pub append_log_lines : List Text → Ui → Ui
append_log_lines [] u = u
append_log_lines (l ∷ ls) u = append_log_lines ls (append_log_line l u)

unfoldable pub log_block : Text → Ui → Ui
unfolding initialize append_log_line
log_block block u =
    render_input (render_log_area (append_log_lines (lines_from [] block) (initialize u)))

pub set_input_mode : Bool → Ui → Ui
unfolding initialize
set_input_mode command_mode u =
    let u' = record (initialize u) { command_mode = command_mode } in
    render_input (if command_mode then u' else record u' { input_buffer = [] })

pub set_input_buffer : Text → Ui → Ui
unfolding initialize
set_input_buffer buffer u = render_input (record (initialize u) { input_buffer = buffer })

abbrev pub write_rows : ℕ → List Text → Ui → Ui
write_rows row [] u = u
write_rows row (l ∷ ls) u = write_rows (suc row) ls (write_at row 1 l u)

pub render_display : List Text → Ui → Ui
unfolding initialize
render_display lines u = render_input (render_log_area (write_rows 1 lines (initialize u)))
