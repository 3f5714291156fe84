-- ===== src/Panel/Rgb.antt =====
-- mono_to_rgb666 of src/display/ili9488.cpp: a monochrome framebuffer in two colours of 16 bits, as
-- three bytes for each pixel.
pub mod Writes
pub mod Image
use fuelflux.Base.{
  ℕ, ◌+◌, ◌-◌, ◌*◌, ◌/◌, ◌%◌, ◌^◌, zero, suc, Bool, true, false, not, ◌==◌, if◌then◌else◌, ltb,
  List, [], ◌∷◌, Option, none, some, length, replicate,
}
use fuelflux.Pixels.{Byte, byte_at, index, count_from}

-- SIZE_MAX
abbrev pub size_max : ℕ
size_max = 2 ^ 64 - 1

pub mono_pixel_on : List Byte → ℕ → ℕ → ℕ → Bool
unfolding byte_at
mono_pixel_on fb width x y = byte_at (index width x (y / 8)) fb (y % 8)

-- RGB565 to RGB666, in the upper bits of a byte.
abbrev pub red : ℕ → ℕ
red color = color / 2048 % 32 * 8

abbrev pub green : ℕ → ℕ
green color = color / 32 % 64 * 4

abbrev pub blue : ℕ → ℕ
blue color = color % 32 * 8

-- out[i] = v, where i is in range
unfoldable pub put : ℕ → ℕ → List ℕ → List ℕ
put i v [] = []
put zero v (b ∷ bs) = v ∷ bs
put (suc i) v (b ∷ bs) = b ∷ put i v bs

abbrev pub write_pixel : ℕ → ℕ → List ℕ → List ℕ
write_pixel i color out =
    put (i + 2) (blue color) (put (i + 1) (green color) (put i (red color) out))

module _ (fb : List Byte) (width fg bg : ℕ) where
  abbrev pub color_of : ℕ → ℕ → ℕ
  color_of x y = if mono_pixel_on fb width x y then fg else bg

  -- The loop over the columns of a row, and the loop over the rows.
  abbrev pub write_row : ℕ → List ℕ → List ℕ → List ℕ
  write_row y [] out = out
  write_row y (x ∷ xs) out = write_row y xs (write_pixel ((y * width + x) * 3) (color_of x y) out)

  abbrev pub write_rows : List ℕ → List ℕ → List ℕ
  write_rows [] out = out
  write_rows (y ∷ ys) out = write_rows ys (write_row y (count_from 0 width) out)

-- `none` is an exception: bad dimensions, a framebuffer of another size, or too many bytes.
unfoldable pub mono_to_rgb666 : List Byte → ℕ → ℕ → ℕ → ℕ → Option (List ℕ)
unfolding mono_pixel_on put
mono_to_rgb666 fb width height fg bg =
    if width == 0
    then none
    else if height == 0
    then none
    else if not (height % 8 == 0)
    then none
    else if not (length fb == width * (height / 8))
    then none
    else if ltb (size_max / 3) (width * height)
    then none
    else some (write_rows fb width fg bg (count_from 0 height) (replicate (width * height * 3) 0))
