-- ===== src/Examples/Panels.antt =====
-- The theorems on the panels, the text and the keys, at concrete inputs.
use fuelflux.Base.{
  take, ℕ, ◌==◌, ◌+◌, ◌*◌, ◌/◌, ◌%◌, ◌≡◌, ◌≤◌, refl, arith, Bool, true, false, if◌then◌else◌, some,
  none, codes, pos, length, replicate, List, [], ◌∷◌, ◌++◌,
}
use fuelflux.Types.{digit}
use fuelflux.Pixels.{get_pixel, blank_buffer}
use fuelflux.FourLine
use fuelflux.FourLine.{FourLine, drawn}
use fuelflux.FourLine.Cleared.{in_margin}
use fuelflux.Examples.Drawing.{ink}
use fuelflux.Panel.{Sent}
use fuelflux.Panel.St7565.Screen.{Screen, receive}
use fuelflux.Panel.Ili9488.{set_mono_framebuffer}
use fuelflux.Panel.Rgb.Writes.{at, channel}
use fuelflux.Panel.Ili9488.Image.{pixel_data, set_mono_framebuffer_lem}
use fuelflux.HardwareDisplay.{Bus, Setup, update, st7565_display}
use fuelflux.HardwareDisplay.Start.{initialize}
use fuelflux.HardwareDisplay.Ready.{Call, put, refresh, calls}
use fuelflux.HardwareDisplay.Shown.{update_lem}
use fuelflux.ConsoleDisplay.{pad_line, space}
use fuelflux.ConsoleDisplay.Characters.{pad_line-encode_all}
use fuelflux.FtText.{FtText, Face, draw_utf8, start_pen}
use fuelflux.FtText.Decoded.{encode_all, draw_cps, draw_utf8-encode_all}
use fuelflux.Devices.Keyboard.Scan.{scan_key, keymap, char_to_key_code}
use fuelflux.Devices.Keyboard.Polling.{Polling, Round, poll}
use fuelflux.Devices.Keyboard.Once.{held, keys, is_release, poll_lem}

abbrev free_bus : Bus
free_bus ws = none

abbrev good_setup : Setup
good_setup = record { wires_open = true; font_loads = true }

abbrev dark_screen : Screen
dark_screen = record { page = 3; column = 77; ram = λ p z k. false }

abbrev some_calls : List Call
some_calls = put 0 (codes "A") ∷ refresh ∷ put 1 (codes "12") ∷ []

started : (initialize free_bus ink good_setup st7565_display).1 ≡ true
unfolding initialize st7565_display FourLine.initialize FourLine.render FourLine.clear_all
started = refl

update_example :
    let d = calls free_bus ink (initialize free_bus ink good_setup st7565_display).0 some_calls in
    (f : FourLine) × (ws : List Sent) × (d.display_impl ≡ some f)
    × ((update free_bus ink d).1 ≡ true)
    × ((update free_bus ink d).0.sent ≡ d.sent ++ ws)
    × ((receive dark_screen ws).ram (20 / 8) 64 (20 % 8)
        ≡ (if in_margin f 64 then false else get_pixel (drawn ink f) 128 64 (pos 64) (pos 20)))
update_example =
    update_lem free_bus ink good_setup some_calls dark_screen 64 20 (λ ws. refl) started
      (omega arith) (omega arith)

abbrev striped : List (ℕ → Bool)
striped = replicate 8 (λ k. k == 1)

set_mono_framebuffer_example :
    (ws : List Sent) × (set_mono_framebuffer 4 16 striped 0xF800 0x001F ≡ some ws)
    × (length (pixel_data false ws) ≡ 4 * 16 * 3)
    × (at ((9 * 4 + 2) * 3 + 0) (pixel_data false ws)
        ≡ channel 0 (if get_pixel striped 4 16 (pos 2) (pos 9) then 0xF800 else 0x001F))
set_mono_framebuffer_example =
    set_mono_framebuffer_lem striped 4 16 0xF800 0x001F 2 9 0 refl refl (omega arith) (omega arith)
      (omega arith) (omega arith)

abbrev two_letters : List ℕ
two_letters = 0x41E ∷ 0x43A ∷ []

-- "Ок" is drawn as two characters of two bytes.
pad_line-encode_all_example :
    (left : ℕ) × (right : ℕ) × (pad_line 40 (encode_all two_letters)
      ≡ encode_all (replicate left space ++ (take 40 two_letters ++ replicate right space)))
    × (left ≤ right)
    × (right ≤ left + 1)
    × (left + length (take 40 two_letters) + right ≡ 40)
pad_line-encode_all_example = pad_line-encode_all 40 two_letters (omega arith, (omega arith, tt))

-- A face whose glyphs are single pixels.
abbrev dots : Face
dots = record {
  ascender = pos 64;
  glyph = λ i. some (record {
    bitmap_left = pos 0;
    bitmap_top = pos 1;
    rows = 1;
    width = 1;
    pitch = 1;
    buffer = λ b k. true;
    advance_x = pos 128;
  });
}

abbrev loaded : FtText
loaded = record { face = some dots; px = pos 8 }

draw_utf8_example :
    draw_utf8 loaded (blank_buffer 16 8) 16 8 (pos 0) (pos 0) (encode_all (65 ∷ 0x413 ∷ [])) true
    ≡ some
        (draw_cps 16 8 true dots
          (pos 8)
          (pos 0)
          (65 ∷ 0x413 ∷ [])
          (start_pen dots (blank_buffer 16 8) (pos 0) (pos 0))).fb
draw_utf8_example =
    draw_utf8-encode_all loaded dots (blank_buffer 16 8) 16 8 (pos 0) (pos 0) (65 ∷ 0x413 ∷ []) true
      refl (omega arith, (omega arith, tt))

abbrev ready : Polling
ready = record { waiting_release = false; failed = false; reported = digit b'4' ∷ [] }

-- The key in the last row and the third column, and a round in which it is still held.
abbrev hash_round : Round
hash_round = record {
  input_enabled = true;
  callback = true;
  first = held 3 2 (λ i. 7);
  second = held 3 2 (λ i. 7);
}

still_held : is_release hash_round ≡ false
unfolding scan_key
still_held = refl

poll_example :
    (poll ready (hash_round ∷ hash_round ∷ [])).reported
    ≡ (digit b'4' ∷ []) ++ keys (char_to_key_code (keymap 3 2))
poll_example =
    poll_lem ready hash_round (hash_round ∷ []) 3 2 (λ i. 7) (λ i. 7) refl refl refl refl refl refl
      (omega arith) (omega arith) (λ i. omega arith) (λ i. omega arith) (still_held, tt)
