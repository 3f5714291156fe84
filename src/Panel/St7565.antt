-- ===== src/Panel/St7565.antt =====
-- src/display/st7565.cpp: the driver of the monochrome panel, which takes a page at a time.
pub mod Screen
use Prim.Native.Nat.{bit_or, bit_and}
use fuelflux.Base.{
  ℕ, ◌*◌, ◌/◌, ◌%◌, Bool, true, false, ◌==◌, if◌then◌else◌, List, [], ◌∷◌, ◌++◌, Option, none, some,
  length, replicate, take, drop,
}
use fuelflux.Pixels.{Byte, blank, count_from}
use fuelflux.Panel.{Sent, LcdDriver, command, columns, reset_line, pause}

abbrev pub reset_assert_ms : ℕ
reset_assert_ms = 50

abbrev pub reset_release_ms : ℕ
reset_release_ms = 50

abbrev pub reset : List Sent
reset = reset_line false ∷ pause reset_assert_ms ∷ reset_line true ∷ pause reset_release_ms ∷ []

abbrev pub init : List Sent
init =
    command 0xAE
    ∷ command 0xA2
    ∷ command 0xA0
    ∷ command 0xC8
    ∷ command 0x2F
    ∷ command 0x26
    ∷ command 0x81
    ∷ command 0x16
    ∷ command 0xAF
    ∷ []

pub set_contrast : ℕ → List Sent
set_contrast v = command 0x81 ∷ command (bit_and v 0x3F) ∷ []

abbrev pub display_on : Bool → List Sent
display_on on = command (if on then 0xAF else 0xAE) ∷ []

-- A round of the loop of set_framebuffer, and the loop over these pages.
abbrev pub page_writes : ℕ → List Byte → ℕ → List Sent
page_writes width fb page =
    command (bit_or 0xB0 page % 256)
    ∷ command 0x10
    ∷ command 0x00
    ∷ columns (take width (drop (page * width) fb))
    ∷ []

abbrev pub pages_writes : ℕ → List Byte → List ℕ → List Sent
pages_writes width fb [] = []
pages_writes width fb (p ∷ ps) = page_writes width fb p ++ pages_writes width fb ps

-- `none` is the size mismatch.
pub set_framebuffer : ℕ → ℕ → List Byte → Option (List Sent)
set_framebuffer width height fb =
    if length fb == width * (height / 8)
    then some (pages_writes width fb (count_from 0 (height / 8)))
    else none

pub clear : ℕ → ℕ → Option (List Sent)
unfolding set_framebuffer
clear width height = set_framebuffer width height (replicate (width * (height / 8)) blank)

unfoldable pub st7565 : ℕ → ℕ → LcdDriver
unfolding set_framebuffer clear
st7565 width height = record {
  reset = reset;
  init = init;
  set_framebuffer = set_framebuffer width height;
  clear = clear width height;
  set_backlight = display_on;
  width = width;
  height = height;
}
