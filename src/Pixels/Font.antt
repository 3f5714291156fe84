-- ===== src/Pixels/Font.antt =====
-- The text of MonoGfx in src/display/graphics.cpp, with its font of five columns by seven rows.
pub mod Rows
use fuelflux.Base.{
  ℕ, ◌-◌, ◌/◌, ◌%◌, zero, suc, Bool, ◌==◌, ◌||◌, if◌then◌else◌, ltb, List, [], ◌∷◌, ℤ, pos, ◌+ℤ◌,
  leb_ℤ, Text,
}
use fuelflux.Pixels.{Byte, set_pixel, count_from}

-- The glyphs of the bytes 32 to 127, column by column.
abbrev pub font5x7 : List (List ℕ)
font5x7 =
    (0x00 ∷ 0x00 ∷ 0x00 ∷ 0x00 ∷ 0x00 ∷ [])
    ∷ (0x00 ∷ 0x00 ∷ 0x5F ∷ 0x00 ∷ 0x00 ∷ [])
    ∷ (0x00 ∷ 0x07 ∷ 0x00 ∷ 0x07 ∷ 0x00 ∷ [])
    ∷ (0x14 ∷ 0x7F ∷ 0x14 ∷ 0x7F ∷ 0x14 ∷ [])
    ∷ (0x24 ∷ 0x2A ∷ 0x7F ∷ 0x2A ∷ 0x12 ∷ [])
    ∷ (0x23 ∷ 0x13 ∷ 0x08 ∷ 0x64 ∷ 0x62 ∷ [])
    ∷ (0x36 ∷ 0x49 ∷ 0x55 ∷ 0x22 ∷ 0x50 ∷ [])
    ∷ (0x00 ∷ 0x05 ∷ 0x03 ∷ 0x00 ∷ 0x00 ∷ [])
    ∷ (0x00 ∷ 0x1C ∷ 0x22 ∷ 0x41 ∷ 0x00 ∷ [])
    ∷ (0x00 ∷ 0x41 ∷ 0x22 ∷ 0x1C ∷ 0x00 ∷ [])
    ∷ (0x14 ∷ 0x08 ∷ 0x3E ∷ 0x08 ∷ 0x14 ∷ [])
    ∷ (0x08 ∷ 0x08 ∷ 0x3E ∷ 0x08 ∷ 0x08 ∷ [])
    ∷ (0x00 ∷ 0x50 ∷ 0x30 ∷ 0x00 ∷ 0x00 ∷ [])
    ∷ (0x08 ∷ 0x08 ∷ 0x08 ∷ 0x08 ∷ 0x08 ∷ [])
    ∷ (0x00 ∷ 0x60 ∷ 0x60 ∷ 0x00 ∷ 0x00 ∷ [])
    ∷ (0x20 ∷ 0x10 ∷ 0x08 ∷ 0x04 ∷ 0x02 ∷ [])
    ∷ (0x3E ∷ 0x51 ∷ 0x49 ∷ 0x45 ∷ 0x3E ∷ [])
    ∷ (0x00 ∷ 0x42 ∷ 0x7F ∷ 0x40 ∷ 0x00 ∷ [])
    ∷ (0x42 ∷ 0x61 ∷ 0x51 ∷ 0x49 ∷ 0x46 ∷ [])
    ∷ (0x21 ∷ 0x41 ∷ 0x45 ∷ 0x4B ∷ 0x31 ∷ [])
    ∷ (0x18 ∷ 0x14 ∷ 0x12 ∷ 0x7F ∷ 0x10 ∷ [])
    ∷ (0x27 ∷ 0x45 ∷ 0x45 ∷ 0x45 ∷ 0x39 ∷ [])
    ∷ (0x3C ∷ 0x4A ∷ 0x49 ∷ 0x49 ∷ 0x30 ∷ [])
    ∷ (0x01 ∷ 0x71 ∷ 0x09 ∷ 0x05 ∷ 0x03 ∷ [])
    ∷ (0x36 ∷ 0x49 ∷ 0x49 ∷ 0x49 ∷ 0x36 ∷ [])
    ∷ (0x06 ∷ 0x49 ∷ 0x49 ∷ 0x29 ∷ 0x1E ∷ [])
    ∷ (0x00 ∷ 0x36 ∷ 0x36 ∷ 0x00 ∷ 0x00 ∷ [])
    ∷ (0x00 ∷ 0x56 ∷ 0x36 ∷ 0x00 ∷ 0x00 ∷ [])
    ∷ (0x08 ∷ 0x14 ∷ 0x22 ∷ 0x41 ∷ 0x00 ∷ [])
    ∷ (0x14 ∷ 0x14 ∷ 0x14 ∷ 0x14 ∷ 0x14 ∷ [])
    ∷ (0x00 ∷ 0x41 ∷ 0x22 ∷ 0x14 ∷ 0x08 ∷ [])
    ∷ (0x02 ∷ 0x01 ∷ 0x51 ∷ 0x09 ∷ 0x06 ∷ [])
    ∷ (0x32 ∷ 0x49 ∷ 0x79 ∷ 0x41 ∷ 0x3E ∷ [])
    ∷ (0x7E ∷ 0x11 ∷ 0x11 ∷ 0x11 ∷ 0x7E ∷ [])
    ∷ (0x7F ∷ 0x49 ∷ 0x49 ∷ 0x49 ∷ 0x36 ∷ [])
    ∷ (0x3E ∷ 0x41 ∷ 0x41 ∷ 0x41 ∷ 0x22 ∷ [])
    ∷ (0x7F ∷ 0x41 ∷ 0x41 ∷ 0x22 ∷ 0x1C ∷ [])
    ∷ (0x7F ∷ 0x49 ∷ 0x49 ∷ 0x49 ∷ 0x41 ∷ [])
    ∷ (0x7F ∷ 0x09 ∷ 0x09 ∷ 0x09 ∷ 0x01 ∷ [])
    ∷ (0x3E ∷ 0x41 ∷ 0x49 ∷ 0x49 ∷ 0x7A ∷ [])
    ∷ (0x7F ∷ 0x08 ∷ 0x08 ∷ 0x08 ∷ 0x7F ∷ [])
    ∷ (0x00 ∷ 0x41 ∷ 0x7F ∷ 0x41 ∷ 0x00 ∷ [])
    ∷ (0x20 ∷ 0x40 ∷ 0x41 ∷ 0x3F ∷ 0x01 ∷ [])
    ∷ (0x7F ∷ 0x08 ∷ 0x14 ∷ 0x22 ∷ 0x41 ∷ [])
    ∷ (0x7F ∷ 0x40 ∷ 0x40 ∷ 0x40 ∷ 0x40 ∷ [])
    ∷ (0x7F ∷ 0x02 ∷ 0x0C ∷ 0x02 ∷ 0x7F ∷ [])
    ∷ (0x7F ∷ 0x04 ∷ 0x08 ∷ 0x10 ∷ 0x7F ∷ [])
    ∷ (0x3E ∷ 0x41 ∷ 0x41 ∷ 0x41 ∷ 0x3E ∷ [])
    ∷ (0x7F ∷ 0x09 ∷ 0x09 ∷ 0x09 ∷ 0x06 ∷ [])
    ∷ (0x3E ∷ 0x41 ∷ 0x51 ∷ 0x21 ∷ 0x5E ∷ [])
    ∷ (0x7F ∷ 0x09 ∷ 0x19 ∷ 0x29 ∷ 0x46 ∷ [])
    ∷ (0x46 ∷ 0x49 ∷ 0x49 ∷ 0x49 ∷ 0x31 ∷ [])
    ∷ (0x01 ∷ 0x01 ∷ 0x7F ∷ 0x01 ∷ 0x01 ∷ [])
    ∷ (0x3F ∷ 0x40 ∷ 0x40 ∷ 0x40 ∷ 0x3F ∷ [])
    ∷ (0x1F ∷ 0x20 ∷ 0x40 ∷ 0x20 ∷ 0x1F ∷ [])
    ∷ (0x3F ∷ 0x40 ∷ 0x38 ∷ 0x40 ∷ 0x3F ∷ [])
    ∷ (0x63 ∷ 0x14 ∷ 0x08 ∷ 0x14 ∷ 0x63 ∷ [])
    ∷ (0x07 ∷ 0x08 ∷ 0x70 ∷ 0x08 ∷ 0x07 ∷ [])
    ∷ (0x61 ∷ 0x51 ∷ 0x49 ∷ 0x45 ∷ 0x43 ∷ [])
    ∷ (0x00 ∷ 0x7F ∷ 0x41 ∷ 0x41 ∷ 0x00 ∷ [])
    ∷ (0x02 ∷ 0x04 ∷ 0x08 ∷ 0x10 ∷ 0x20 ∷ [])
    ∷ (0x00 ∷ 0x41 ∷ 0x41 ∷ 0x7F ∷ 0x00 ∷ [])
    ∷ (0x04 ∷ 0x02 ∷ 0x01 ∷ 0x02 ∷ 0x04 ∷ [])
    ∷ (0x40 ∷ 0x40 ∷ 0x40 ∷ 0x40 ∷ 0x40 ∷ [])
    ∷ (0x00 ∷ 0x01 ∷ 0x02 ∷ 0x04 ∷ 0x00 ∷ [])
    ∷ (0x20 ∷ 0x54 ∷ 0x54 ∷ 0x54 ∷ 0x78 ∷ [])
    ∷ (0x7F ∷ 0x48 ∷ 0x44 ∷ 0x44 ∷ 0x38 ∷ [])
    ∷ (0x38 ∷ 0x44 ∷ 0x44 ∷ 0x44 ∷ 0x20 ∷ [])
    ∷ (0x38 ∷ 0x44 ∷ 0x44 ∷ 0x48 ∷ 0x7F ∷ [])
    ∷ (0x38 ∷ 0x54 ∷ 0x54 ∷ 0x54 ∷ 0x18 ∷ [])
    ∷ (0x08 ∷ 0x7E ∷ 0x09 ∷ 0x01 ∷ 0x02 ∷ [])
    ∷ (0x0C ∷ 0x52 ∷ 0x52 ∷ 0x52 ∷ 0x3E ∷ [])
    ∷ (0x7F ∷ 0x08 ∷ 0x04 ∷ 0x04 ∷ 0x78 ∷ [])
    ∷ (0x00 ∷ 0x44 ∷ 0x7D ∷ 0x40 ∷ 0x00 ∷ [])
    ∷ (0x20 ∷ 0x40 ∷ 0x44 ∷ 0x3D ∷ 0x00 ∷ [])
    ∷ (0x7F ∷ 0x10 ∷ 0x28 ∷ 0x44 ∷ 0x00 ∷ [])
    ∷ (0x00 ∷ 0x41 ∷ 0x7F ∷ 0x40 ∷ 0x00 ∷ [])
    ∷ (0x7C ∷ 0x04 ∷ 0x18 ∷ 0x04 ∷ 0x78 ∷ [])
    ∷ (0x7C ∷ 0x08 ∷ 0x04 ∷ 0x04 ∷ 0x78 ∷ [])
    ∷ (0x38 ∷ 0x44 ∷ 0x44 ∷ 0x44 ∷ 0x38 ∷ [])
    ∷ (0x7C ∷ 0x14 ∷ 0x14 ∷ 0x14 ∷ 0x08 ∷ [])
    ∷ (0x08 ∷ 0x14 ∷ 0x14 ∷ 0x18 ∷ 0x7C ∷ [])
    ∷ (0x7C ∷ 0x08 ∷ 0x04 ∷ 0x04 ∷ 0x08 ∷ [])
    ∷ (0x48 ∷ 0x54 ∷ 0x54 ∷ 0x54 ∷ 0x20 ∷ [])
    ∷ (0x04 ∷ 0x3F ∷ 0x44 ∷ 0x40 ∷ 0x20 ∷ [])
    ∷ (0x3C ∷ 0x40 ∷ 0x40 ∷ 0x20 ∷ 0x7C ∷ [])
    ∷ (0x1C ∷ 0x20 ∷ 0x40 ∷ 0x20 ∷ 0x1C ∷ [])
    ∷ (0x3C ∷ 0x40 ∷ 0x30 ∷ 0x40 ∷ 0x3C ∷ [])
    ∷ (0x44 ∷ 0x28 ∷ 0x10 ∷ 0x28 ∷ 0x44 ∷ [])
    ∷ (0x0C ∷ 0x50 ∷ 0x50 ∷ 0x50 ∷ 0x3C ∷ [])
    ∷ (0x44 ∷ 0x64 ∷ 0x54 ∷ 0x4C ∷ 0x44 ∷ [])
    ∷ (0x00 ∷ 0x08 ∷ 0x36 ∷ 0x41 ∷ 0x00 ∷ [])
    ∷ (0x00 ∷ 0x00 ∷ 0x7F ∷ 0x00 ∷ 0x00 ∷ [])
    ∷ (0x00 ∷ 0x41 ∷ 0x36 ∷ 0x08 ∷ 0x00 ∷ [])
    ∷ (0x08 ∷ 0x08 ∷ 0x2A ∷ 0x1C ∷ 0x08 ∷ [])
    ∷ (0x00 ∷ 0x00 ∷ 0x00 ∷ 0x00 ∷ 0x00 ∷ [])
    ∷ []

-- (bits >> row) & 1
abbrev pub bit : ℕ → ℕ → Bool
bit bits zero = bits % 2 == 1
bit bits (suc row) = bit (bits / 2) row

abbrev pub nth : List (List ℕ) → ℕ → List ℕ
nth [] i = []
nth (g ∷ gs) zero = g
nth (g ∷ gs) (suc i) = nth gs i

-- A byte without a glyph is drawn as a question mark.
pub glyph : ℕ → List ℕ
glyph c = nth font5x7 ((if ltb c 32 || ltb 127 c then 63 else c) - 32)

abbrev pub glyph_column : List Byte → ℕ → ℕ → ℤ → ℤ → ℕ → Bool → List ℕ → List Byte
glyph_column fb w h x y bits on [] = fb
glyph_column fb w h x y bits on (row ∷ rows) =
    glyph_column (if bit bits row then set_pixel fb w h x (y +ℤ pos row) on else fb) w h x y bits on
      rows

abbrev pub glyph_columns : List Byte → ℕ → ℕ → ℤ → ℤ → List ℕ → Bool → List Byte
glyph_columns fb w h x y [] on = fb
glyph_columns fb w h x y (bits ∷ g) on =
    glyph_columns (glyph_column fb w h x y bits on (count_from 0 7)) w h (x +ℤ pos 1) y g on

pub draw_char : List Byte → ℕ → ℕ → ℤ → ℤ → ℕ → Bool → List Byte
draw_char fb w h x y c on = glyph_columns fb w h x y (glyph c) on

pub text : List Byte → ℕ → ℕ → ℤ → ℤ → Text → Bool → List Byte
text fb w h x y [] on = fb
text fb w h x y (c ∷ s) on =
    let drawn = draw_char fb w h x y c on in
    let rest = text drawn w h (x +ℤ pos 6) y s on in
    if leb_ℤ (pos w) (x +ℤ pos 6) then drawn else rest
