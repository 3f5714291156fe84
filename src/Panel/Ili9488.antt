-- ===== src/Panel/Ili9488.antt =====
-- src/display/ili9488.cpp: the driver of the colour panel, which takes a row of pixels at a time.
pub mod Image
use fuelflux.Base.{
  ℕ, ◌+◌, ◌-◌, ◌*◌, ◌/◌, ◌%◌, Bool, true, false, not, ◌==◌, if◌then◌else◌, leb, ltb, List, [], ◌∷◌,
  ◌++◌, Option, none, some, length, replicate, take, drop,
}
use fuelflux.Pixels.{Byte, count_from}
use fuelflux.Panel.{Sent, LcdDriver, command, bytes, reset_line, pause}
use fuelflux.Panel.Rgb.{mono_to_rgb666, put, red, green, blue, write_pixel}

abbrev pub reset_assert_ms : ℕ
reset_assert_ms = 50

abbrev pub reset_release_ms : ℕ
reset_release_ms = 120

abbrev pub reset : List Sent
reset = reset_line false ∷ pause reset_assert_ms ∷ reset_line true ∷ pause reset_release_ms ∷ []

abbrev pub madctl : ℕ → ℕ
madctl rotation =
    if rotation % 4 == 0
    then 0x48
    else if rotation % 4 == 1
    then 0x28
    else if rotation % 4 == 2
    then 0x88
    else 0xE8

abbrev pub set_rotation : ℕ → List Sent
set_rotation rotation = command 0x36 ∷ bytes (madctl rotation ∷ []) ∷ []

abbrev pub init : List Sent
init =
    command 0x01
    ∷ pause 150
    ∷ command 0x11
    ∷ pause 120
    ∷ (set_rotation 3
        ++ (command 0x3A ∷ bytes (0x66 ∷ []) ∷ command 0x21 ∷ command 0x29 ∷ pause 20 ∷ []))

-- The two bytes of a uint16_t.
abbrev pub high_byte : ℕ → ℕ
high_byte n = n / 256 % 256

abbrev pub low_byte : ℕ → ℕ
low_byte n = n % 256

-- The first and the last column and row are uint16_t.
abbrev pub set_addr_window : ℕ → ℕ → ℕ → ℕ → List Sent
set_addr_window x0 y0 x1 y1 =
    command 0x2A
    ∷ bytes (high_byte x0 ∷ low_byte x0 ∷ high_byte x1 ∷ low_byte x1 ∷ [])
    ∷ command 0x2B
    ∷ bytes (high_byte y0 ∷ low_byte y0 ∷ high_byte y1 ∷ low_byte y1 ∷ [])
    ∷ command 0x2C
    ∷ []

-- static_cast<uint16_t>
abbrev pub to_u16 : ℕ → ℕ
to_u16 n = n % 65536

abbrev pub whole_window : ℕ → ℕ → List Sent
whole_window width height = set_addr_window 0 0 (to_u16 (width - 1)) (to_u16 (height - 1))

-- The loop of fill over the columns.
abbrev pub fill_line : ℕ → List ℕ → List ℕ → List ℕ
fill_line color [] line = line
fill_line color (i ∷ is) line = fill_line color is (write_pixel (i * 3) color line)

pub fill : ℕ → ℕ → ℕ → List Sent
unfolding put
fill width height color =
    let line = fill_line color (count_from 0 width) (replicate (width * 3) 0) in
    whole_window width height ++ replicate height (bytes line)

-- The loop of set_mono_framebuffer over the rows.
abbrev pub send_rows : ℕ → List ℕ → List ℕ → List Sent
send_rows line_bytes rgb [] = []
send_rows line_bytes rgb (y ∷ ys) =
    let offset = y * line_bytes in
    let remaining = length rgb - offset in
    let chunk_size = (if ltb remaining line_bytes then remaining else line_bytes) in
    let rest = send_rows line_bytes rgb ys in
    if leb (length rgb) offset
    then []
    else if chunk_size == 0
    then []
    else bytes (take chunk_size (drop offset rgb)) ∷ rest

abbrev pub send_image : ℕ → ℕ → Option (List ℕ) → Option (List Sent)
send_image width height none = none
send_image width height (some rgb) =
    some (whole_window width height ++ send_rows (width * 3) rgb (count_from 0 height))

-- `none` is an exception of mono_to_rgb666.
pub set_mono_framebuffer : ℕ → ℕ → List Byte → ℕ → ℕ → Option (List Sent)
unfolding mono_to_rgb666
set_mono_framebuffer width height fb fg bg =
    send_image width height (mono_to_rgb666 fb width height fg bg)

-- White on black; there is no backlight to control.
pub driver : ℕ → ℕ → LcdDriver
unfolding set_mono_framebuffer fill
driver width height = record {
  reset = reset;
  init = init;
  set_framebuffer = λ fb. set_mono_framebuffer width height fb 0xFFFF 0;
  clear = some (fill width height 0);
  set_backlight = λ on. [];
  width = width;
  height = height;
}

-- The constructor; `none` is std::invalid_argument.
unfoldable pub ili9488 : ℕ → ℕ → Option LcdDriver
unfolding driver
ili9488 width height =
    if width == 0
    then none
    else if height == 0
    then none
    else if not (height % 8 == 0)
    then none
    else some (driver width height)
