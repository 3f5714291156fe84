-- ===== src/FtText.antt =====
-- src/display/ft_text.cpp: text in UTF-8 drawn with glyphs of FreeType, whose answers are
-- parameters.
pub mod Decoded
pub mod Fuel
use fuelflux.Base.{
  ℕ, ◌+◌, ◌-◌, ◌*◌, ◌/◌, ◌%◌, zero, suc, Bool, true, false, ◌==◌, ◌||◌, if◌then◌else◌, ltb, List,
  [], ◌∷◌, Option, none, some, Text, ℤ, pos, ◌+ℤ◌, ◌-ℤ◌, shr_6, leb_ℤ, length,
}
use fuelflux.Pixels.{Byte, set_pixel, count_from, blank_buffer}

abbrev pub replacement : ℕ
replacement = 0xFFFD

-- The bytes after the first of a character, if they are all there.
abbrev pub two_bytes : ℕ → Text → ℕ × Text
two_bytes c (b1 ∷ t) = (c % 32 * 64 + b1 % 64, t)
two_bytes c [] = (replacement, [])

abbrev pub three_bytes : ℕ → Text → ℕ × Text
three_bytes c (b1 ∷ b2 ∷ t) = (c % 16 * 4096 + b1 % 64 * 64 + b2 % 64, t)
three_bytes c t = (replacement, t)

abbrev pub four_bytes : ℕ → Text → ℕ × Text
four_bytes c (b1 ∷ b2 ∷ b3 ∷ t) = (c % 8 * 262144 + b1 % 64 * 4096 + b2 % 64 * 64 + b3 % 64, t)
four_bytes c t = (replacement, t)

-- The code point at the start of the bytes, and the bytes after it.
pub next_cp : Text → ℕ × Text
next_cp [] = (replacement, [])
next_cp (c ∷ t) =
    if ltb c 0x80
    then (c, t)
    else if c / 32 == 6
    then two_bytes c t
    else if c / 16 == 14
    then three_bytes c t
    else if c / 8 == 30
    then four_bytes c t
    else (replacement, t)

-- A rendered glyph: bits of one row after the other, the first pixel in the highest bit. The
-- advance is in 64ths of a pixel.
pub record Glyph : Type 0 where
  pub bitmap_left : ℤ
  pub bitmap_top : ℤ
  pub rows : ℕ
  pub width : ℕ
  pub pitch : ℕ
  pub buffer : ℕ → Byte
  pub advance_x : ℤ

-- A face at its pixel size; `glyph` is none where FreeType fails to load or to render one.
pub record Face : Type 0 where
  pub ascender : ℤ
  pub glyph : ℕ → Option Glyph

pub record FtText : Type 0 where
  pub face : Option Face
  pub px : ℤ

-- FT_New_Face and FT_Set_Pixel_Sizes; `none` is an error.
pub record FreeType : Type 0 where
  pub new_face : Text → Option Face
  pub set_pixel_sizes : Face → ℤ → Option Face

abbrev sized_face : FreeType → FtText → Option Face → FtText × Bool
sized_face ft t none = (t, false)
sized_face ft t (some f) = (record t { face = some f }, true)

abbrev with_face : FreeType → FtText → Option Face → FtText × Bool
with_face ft t none = (record t { face = none }, false)
with_face ft t (some f) = sized_face ft (record t { face = some f }) (ft.set_pixel_sizes f t.px)

-- With whether there was no exception.
pub load_font : FreeType → FtText → Text → FtText × Bool
load_font ft t path = with_face ft t (ft.new_face path)

abbrev resized_face : FreeType → FtText → Option Face → FtText × Bool
resized_face ft t none = (t, true)
resized_face ft t (some f) = sized_face ft t (ft.set_pixel_sizes f t.px)

pub set_pixel_size : FreeType → FtText → ℤ → FtText × Bool
set_pixel_size ft t px = resized_face ft (record t { px = px }) t.face

pub record Pen : Type 0 where
  pub pen_x : ℤ
  pub pen_y : ℤ
  pub base_y : ℤ
  pub fb : List Byte

module _ (width height : ℕ) (on : Bool) where
  -- The pixels of a row of a glyph, and its rows.
  abbrev pub draw_row : Glyph → ℤ → ℤ → ℕ → List ℕ → List Byte → List Byte
  draw_row g gx gy row [] fb = fb
  draw_row g gx gy row (col ∷ cols) fb = draw_row g gx gy row cols (
      if g.buffer (row * g.pitch + col / 8) (7 - col % 8)
      then set_pixel fb width height (gx +ℤ pos col) (gy +ℤ pos row) on
      else fb)

  abbrev pub draw_rows : Glyph → ℤ → ℤ → List ℕ → List Byte → List Byte
  draw_rows g gx gy [] fb = fb
  draw_rows g gx gy (row ∷ rows) fb =
      draw_rows g gx gy rows (draw_row g gx gy row (count_from 0 g.width) fb)

  -- A glyph drawn, the pen behind it, and whether it has left the buffer.
  abbrev pub draw_glyph : Pen → Option Glyph → Pen × Bool
  draw_glyph p none = (p, false)
  draw_glyph p (some g) =
      let gx = p.pen_x +ℤ g.bitmap_left in
      let gy = p.base_y -ℤ g.bitmap_top in
      let pen_x = p.pen_x +ℤ shr_6 g.advance_x in
      (
        record p { pen_x = pen_x; fb = draw_rows g gx gy (count_from 0 g.rows) p.fb },
        leb_ℤ (pos width) pen_x || leb_ℤ (pos height) p.pen_y,
      )

  module _ (face : Face) (px x : ℤ) where
    abbrev pub new_line : Pen → Pen
    new_line p =
        let y = p.pen_y +ℤ px in
        record p { pen_x = x; pen_y = y; base_y = y +ℤ shr_6 face.ascender }

    -- A round of the loop of draw_utf8 with this code point.
    pub round : ℕ → Pen → Pen × Bool
    unfolding set_pixel
    round cp p = if cp == 10 then (new_line p, false) else draw_glyph p (face.glyph cp)

    -- The loop, on fuel: a round for each byte is enough.
    pub draw_loop : ℕ → Text → Pen → Pen
    unfolding round next_cp
    draw_loop zero t p = p
    draw_loop (suc f) [] p = p
    draw_loop (suc f) (c ∷ t) p =
        let (cp, rest) = next_cp (c ∷ t) in
        let (p', stop) = round cp p in let more = draw_loop f rest p' in if stop then p' else more

abbrev pub start_pen : Face → List Byte → ℤ → ℤ → Pen
start_pen face fb x y = record { pen_x = x; pen_y = y; base_y = y +ℤ shr_6 face.ascender; fb = fb }

abbrev draw_with : Option Face → ℤ → List Byte → ℕ → ℕ → ℤ → ℤ → Text → Bool → Option (List Byte)
draw_with none px fb width height x y utf8 on = none
draw_with (some face) px fb width height x y utf8 on =
    some ((draw_loop width height on face px x (length utf8) utf8 (start_pen face fb x y)).fb)

-- `none` is the exception without a font.
unfoldable pub draw_utf8 : FtText → List Byte → ℕ → ℕ → ℤ → ℤ → Text → Bool → Option (List Byte)
unfolding draw_loop
draw_utf8 t fb width height x y utf8 on = draw_with t.face t.px fb width height x y utf8 on
