-- ===== src/Pixels/Shapes.antt =====
-- The lines and rectangles of MonoGfx in src/display/graphics.cpp, on its buffer, width and height.
pub mod Pixel
pub mod Covers
pub mod Drawn
pub mod Rectangles
use fuelflux.Base.{
  ℕ, zero, suc, Bool, if◌then◌else◌, leb, List, [], ◌∷◌, ℤ, pos, negsuc, pos_part, ◌+ℤ◌, ◌-ℤ◌,
  ltb_ℤ, min_ℤ,
}
use fuelflux.Pixels.{Byte, set_pixel}

-- n numbers, one after the other.
abbrev pub ints_from : ℤ → ℕ → List ℤ
ints_from a zero = []
ints_from a (suc n) = a ∷ ints_from (a +ℤ pos 1) n

-- The numbers of the loop from a to b, with b.
abbrev pub ints_to : ℤ → ℤ → List ℤ
ints_to a b = ints_from a (pos_part (b +ℤ pos 1 -ℤ a))

abbrev pub max_ℤ : ℤ → ℤ → ℤ
max_ℤ a b = if ltb_ℤ a b then b else a

abbrev pub last : ℕ → ℤ
last size = pos size -ℤ pos 1

abbrev pub row_pixels : List Byte → ℕ → ℕ → List ℤ → ℤ → Bool → List Byte
row_pixels fb w h [] y on = fb
row_pixels fb w h (x ∷ xs) y on = row_pixels (set_pixel fb w h x y on) w h xs y on

abbrev pub column_pixels : List Byte → ℕ → ℕ → ℤ → List ℤ → Bool → List Byte
column_pixels fb w h x [] on = fb
column_pixels fb w h x (y ∷ ys) on = column_pixels (set_pixel fb w h x y on) w h x ys on

pub hline : List Byte → ℕ → ℕ → ℤ → ℤ → ℤ → Bool → List Byte
hline fb w h x0 x1 (negsuc y) on = fb
hline fb w h x0 x1 (pos y) on =
    if leb h y
    then fb
    else row_pixels fb w h (ints_to (max_ℤ (pos 0) (min_ℤ x0 x1)) (min_ℤ (last w) (max_ℤ x0 x1)))
        (pos y) on

pub vline : List Byte → ℕ → ℕ → ℤ → ℤ → ℤ → Bool → List Byte
vline fb w h (negsuc x) y0 y1 on = fb
vline fb w h (pos x) y0 y1 on =
    if leb w x
    then fb
    else column_pixels fb w h (pos x)
        (ints_to (max_ℤ (pos 0) (min_ℤ y0 y1)) (min_ℤ (last h) (max_ℤ y0 y1))) on

pub rect : List Byte → ℕ → ℕ → ℤ → ℤ → ℤ → ℤ → Bool → List Byte
rect fb w h x0 y0 x1 y1 on =
    let left = min_ℤ x0 x1 in
    let right = max_ℤ x0 x1 in
    let top = min_ℤ y0 y1 in
    let bottom = max_ℤ y0 y1 in
    let fb1 = hline fb w h left right top on in
    let fb2 = hline fb1 w h left right bottom on in
    let fb3 = vline fb2 w h left top bottom on in vline fb3 w h right top bottom on

abbrev pub rows : List Byte → ℕ → ℕ → ℤ → ℤ → List ℤ → Bool → List Byte
rows fb w h x0 x1 [] on = fb
rows fb w h x0 x1 (y ∷ ys) on = rows (hline fb w h x0 x1 y on) w h x0 x1 ys on

pub fill_rect : List Byte → ℕ → ℕ → ℤ → ℤ → ℤ → ℤ → Bool → List Byte
fill_rect fb w h x0 y0 x1 y1 on =
    rows fb w h (min_ℤ x0 x1) (max_ℤ x0 x1) (ints_to (min_ℤ y0 y1) (max_ℤ y0 y1)) on
