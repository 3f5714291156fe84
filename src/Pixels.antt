-- ===== src/Pixels.antt =====
-- The pixels of a monochrome framebuffer packed by pages of eight rows: the buffer of
-- src/display/graphics.cpp, and get_pixel and set_pixel of
-- src/display/four_line_display_impl.cpp. A byte is its bits.
pub mod Writes
pub mod Slices
pub mod Shapes
pub mod Font
use fuelflux.Base.{
  ℕ, ◌+◌, ◌*◌, ◌/◌, ◌%◌, zero, suc, Bool, true, false, ◌==◌, if◌then◌else◌, ◌||◌, leb, ltb, List,
  [], ◌∷◌, ℤ, pos, negsuc, replicate, foldl,
}

abbrev pub Byte : Type 0
Byte = ℕ → Bool

abbrev pub blank : Byte
blank k = false

-- |= 1 << bit, and &= ~(1 << bit)
abbrev pub with_bit : Byte → ℕ → Bool → Byte
with_bit b bit on = λ k. if k == bit then on else b k

unfoldable pub byte_at : ℕ → List Byte → Byte
byte_at i [] = blank
byte_at zero (b ∷ bs) = b
byte_at (suc i) (b ∷ bs) = byte_at i bs

-- fb[i] = b, where i is in range
unfoldable pub put_byte : ℕ → Byte → List Byte → List Byte
put_byte i c [] = []
put_byte zero c (b ∷ bs) = c ∷ bs
put_byte (suc i) c (b ∷ bs) = b ∷ put_byte i c bs

abbrev pub index : ℕ → ℕ → ℕ → ℕ
index width x page = page * width + x

abbrev pub outside : ℕ → ℕ → ℕ → ℕ → Bool
outside width height x y = leb width x || leb height y

-- A page that is not there reads as blank.
unfoldable pub get_pixel : List Byte → ℕ → ℕ → ℤ → ℤ → Bool
unfolding byte_at
get_pixel fb width height (pos x) (pos y) =
    if outside width height x y then false else byte_at (index width x (y / 8)) fb (y % 8)
get_pixel fb width height (pos x) (negsuc y) = false
get_pixel fb width height (negsuc x) y = false

-- set_pixel, and MonoGfx::pixel
unfoldable pub set_pixel : List Byte → ℕ → ℕ → ℤ → ℤ → Bool → List Byte
unfolding put_byte
set_pixel fb width height (pos x) (pos y) on =
    if outside width height x y
    then fb
    else let i = index width x (y / 8) in put_byte i (with_bit (byte_at i fb) (y % 8) on) fb
set_pixel fb width height (pos x) (negsuc y) on = fb
set_pixel fb width height (negsuc x) y on = fb

-- The framebuffer of MonoGfx, as its constructor and clear leave it.
abbrev pub blank_buffer : ℕ → ℕ → List Byte
blank_buffer width height = replicate (width * (height / 8)) blank

-- The numbers from a up to b, without b, as a loop goes through them.
abbrev pub count_from : ℕ → ℕ → List ℕ
count_from a zero = []
count_from a (suc n) = a ∷ count_from (suc a) n
