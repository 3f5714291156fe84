-- ===== src/ConsoleDisplay.antt =====
-- src/display/console_display.cpp, in the build that is not for Windows: the four lines in a frame
-- of text.
pub mod Width
pub mod Characters
use fuelflux.Base.{
  ℕ, ◌+◌, ◌-◌, ◌*◌, ◌/◌, zero, suc, Bool, true, false, not, ◌==◌, if◌then◌else◌, leb, ltb, List, [],
  ◌∷◌, ◌++◌, Text, codes, length, replicate, take, drop,
}
use fuelflux.FourLine.{no_lines, set_line}

-- The bytes of the character that starts with this byte.
abbrev pub char_len : ℕ → ℕ
char_len c =
    if c / 128 == 0
    then 1
    else if c / 32 == 6
    then 2
    else if c / 16 == 14
    then 3
    else if c / 8 == 30
    then 4
    else 1

-- The loop of utf8Length, which goes on after this many bytes.
abbrev pub utf8_length_from : ℕ → Text → ℕ
utf8_length_from k [] = 0
utf8_length_from zero (c ∷ t) = suc (utf8_length_from (char_len c - 1) t)
utf8_length_from (suc k) (c ∷ t) = utf8_length_from k t

abbrev pub utf8_length : Text → ℕ
utf8_length text = utf8_length_from 0 text

-- The bytes that the loop of utf8Truncate passes, with this many characters to go.
pub bytes_passed : ℕ → Text → ℕ
bytes_passed zero t = 0
bytes_passed (suc n) [] = 0
bytes_passed (suc n) (c ∷ t) =
    let k = char_len c in
    let more = bytes_passed n (drop k (c ∷ t)) in if ltb (length (c ∷ t)) k then 0 else k + more

pub utf8_truncate : Text → ℕ → Text
unfolding bytes_passed
utf8_truncate text max_chars =
    if max_chars == 0 then [] else take (bytes_passed max_chars text) text

abbrev pub space : ℕ
space = 32

-- `trimmed` between spaces, where it is short of the width.
abbrev pub centered : ℕ → Text → Text
centered width trimmed =
    let padding = width - utf8_length trimmed in
    if leb width (utf8_length trimmed)
    then trimmed
    else replicate (padding / 2) space ++ (trimmed ++ replicate (padding - padding / 2) space)

pub pad_line : ℕ → Text → Text
unfolding utf8_truncate
pad_line width line = if width == 0 then [] else centered width (utf8_truncate line width)

-- displayWidth
abbrev pub display_width : ℕ
display_width = 40

abbrev pub border : Text
border = codes "+" ++ (replicate display_width 45 ++ codes "+")

abbrev pub framed : Text → Text
framed line = codes "|" ++ (pad_line display_width line ++ codes "|")

-- A text at the start of a row below 10, which is cleared first.
abbrev pub append_at : ℕ → Text → Text
append_at row text =
    (27 ∷ codes "[") ++ (((48 + row) ∷ codes ";1H") ++ ((27 ∷ codes "[2K") ++ text))

-- `printed` holds what was written to the console, the latest last.
pub record ConsoleDisplay : Type 0 where
  pub connected : Bool
  pub backlight_enabled : Bool
  pub initialized : Bool
  pub lines : ℕ → Text
  pub printed : List Text

abbrev pub frame : (ℕ → Text) → Text
frame ls =
    append_at 1 border
    ++ (append_at 2 (framed (ls 0))
        ++ (append_at 3 (framed (ls 1))
            ++ (append_at 4 (framed (ls 2))
                ++ (append_at 5 (framed (ls 3)) ++ append_at 6 border))))

-- updateInternal
pub update : ConsoleDisplay → ConsoleDisplay
unfolding pad_line
update d = if not d.initialized then d else record d { printed = d.printed ++ (frame d.lines ∷ []) }

pub set_line_internal : ConsoleDisplay → ℕ → Text → ConsoleDisplay
set_line_internal d i t = if ltb i 4 then record d { lines = set_line d.lines i t } else d

pub get_line_internal : ConsoleDisplay → ℕ → Text
get_line_internal d i = if ltb i 4 then d.lines i else []

pub clear_all_internal : ConsoleDisplay → ConsoleDisplay
clear_all_internal d = record d { lines = no_lines }

-- The screen is cleared before the first frame.
pub initialize : ConsoleDisplay → ConsoleDisplay × Bool
unfolding update clear_all_internal
initialize d =
    let cleared = clear_all_internal (record d { connected = true }) in
    (
      update (record cleared {
        initialized = true;
        printed = cleared.printed ++ (((27 ∷ codes "[2J") ++ (27 ∷ codes "[H")) ∷ []);
      }),
      true,
    )

pub shutdown : ConsoleDisplay → ConsoleDisplay
shutdown d = if d.connected then record d { connected = false; initialized = false } else d

pub get_max_line_length : ℕ → ℕ
get_max_line_length i = if leb 4 i then 0 else if i == 1 then 10 else 20

pub set_backlight_internal : ConsoleDisplay → Bool → ConsoleDisplay
set_backlight_internal d on = record d { backlight_enabled = on }
