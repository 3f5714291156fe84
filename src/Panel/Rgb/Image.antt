-- ===== src/Panel/Rgb/Image.antt =====
-- The image in colours agrees with the framebuffer, pixel by pixel.
use native.Mathlib.Nat.{mul-le-mul_right}
use fuelflux.Base.{
  ℕ, ◌+◌, ◌*◌, ◌/◌, ◌%◌, ◌<◌, ◌≤◌, zero, suc, ◌≡◌, refl, sym, ap, ◌∙◌, arith, Bool, true, false,
  ◌==◌, ◌&&◌, ◌||◌, if◌then◌else◌, ltb, List, [], ◌∷◌, some, All, length, replicate, Bool-cases,
  if-same, if-and_false, inl, inr, ==_iff, pos,
}
use fuelflux.Pixels.{Byte, index, count_from, get_pixel}
use fuelflux.Pixels.Writes.{index-eq}
use fuelflux.FourLine.Cleared.{count_from-below, elem, elem-count_from}
use fuelflux.FourLine.Margins.{inside}
use fuelflux.Panel.Rgb.{
  write_pixel, write_row, write_rows, color_of, mono_pixel_on, mono_to_rgb666, size_max,
}
use fuelflux.Panel.Rgb.Writes.{at, channel, length-write_pixel, pixel_bytes}

one_row :
    (b e : Bool) (x y : ℕ)
    → (if e then x else (if b && true then x else y)) ≡ (if b || e then x else y)
one_row true true x y = refl
one_row true false x y = refl
one_row false true x y = refl
one_row false false x y = refl

length-zeros : (n : ℕ) → length (replicate n (let z : ℕ = 0 in z)) ≡ n
length-zeros zero = refl
length-zeros (suc n) = ap suc (length-zeros n)

module _ (fb : List Byte) (w fg bg : ℕ) where
  length-write_row : (p : ℕ) (xs out : List ℕ) → length (write_row fb w fg bg p xs out) ≡ length out
  length-write_row p [] out = refl
  length-write_row p (x ∷ xs) out =
      length-write_row p xs (write_pixel ((p * w + x) * 3) (color_of fb w fg bg x p) out)
      ∙ length-write_pixel ((p * w + x) * 3) (color_of fb w fg bg x p) out

  pub length-write_rows : (ps out : List ℕ) → length (write_rows fb w fg bg ps out) ≡ length out
  length-write_rows [] out = refl
  length-write_rows (p ∷ ps) out =
      length-write_rows ps (write_row fb w fg bg p (count_from 0 w) out)
      ∙ length-write_row p (count_from 0 w) out

  same_color :
      (p q x z k o : ℕ) (e : Bool)
      → (if (p == q) && e
          then channel k (color_of fb w fg bg z q)
          else (if (p == q) && (x == z) then channel k (color_of fb w fg bg x p) else o))
        ≡ (if (p == q) && ((x == z) || e) then channel k (color_of fb w fg bg z q) else o)
  same_color p q x z k o e = elim (Bool-cases (p == q)) [
    | inr far ↦ rw far refl
    | inl row ↦ elim (Bool-cases (x == z)) [
      | inr other ↦ rw (row, other) refl
      | inl col ↦
          let a : p ≡ q = (==_iff p q).0 row in
          let b : x ≡ z = (==_iff x z).0 col in
          rw (row, col, a, b) (if-same e (channel k (color_of fb w fg bg z q)))
    ]
  ]

  row_bytes :
      (p q z k : ℕ) (xs out : List ℕ)
      → z < w
      → All (λ x. x < w) xs
      → k < 3
      → index w z q * 3 + 2 < length out
      → at (index w z q * 3 + k) (write_row fb w fg bg p xs out) ≡ (
          if (p == q) && elem z xs
          then channel k (color_of fb w fg bg z q)
          else at (index w z q * 3 + k) out)
  row_bytes p q z k [] out hz h hk room =
      sym
        (if-and_false (p == q) (channel k (color_of fb w fg bg z q)) (at (index w z q * 3 + k) out))
  row_bytes p q z k (x ∷ xs) out hz h hk room =
      let next = write_pixel (index w x p * 3) (color_of fb w fg bg x p) out in
      let same = length-write_pixel (index w x p * 3) (color_of fb w fg bg x p) out in
      rw
        (
          row_bytes p q z k xs next hz h.1 hk (omega (arith, same, room)),
          pixel_bytes (index w x p) (index w z q) k (color_of fb w fg bg x p) out hk room,
          index-eq w p q x z h.0 hz,
        )
        (same_color p q x z k (at (index w z q * 3 + k) out) (elem z xs))

  rows_bytes :
      (q z k : ℕ) (ps out : List ℕ)
      → z < w
      → k < 3
      → index w z q * 3 + 2 < length out
      → at (index w z q * 3 + k) (write_rows fb w fg bg ps out)
        ≡ (if elem q ps then channel k (color_of fb w fg bg z q) else at (index w z q * 3 + k) out)
  rows_bytes q z k [] out hz hk room = refl
  rows_bytes q z k (p ∷ ps) out hz hk room =
      let next = write_row fb w fg bg p (count_from 0 w) out in
      let same = length-write_row p (count_from 0 w) out in
      let all : elem z (count_from 0 w) ≡ true = rw (elem-count_from z 0 w) (ground (arith, hz)) in
      rw
        (
          rows_bytes q z k ps next hz hk (omega (arith, same, room)),
          row_bytes p q z k (count_from 0 w) out hz (count_from-below w 0 w (omega arith)) hk room,
          all,
        )
        (one_row (p == q) (elem q ps) (channel k (color_of fb w fg bg z q))
          (at (index w z q * 3 + k) out))

-- A framebuffer of the right size, for dimensions that are not zero, of whole pages and of at most
-- SIZE_MAX / 3 pixels, becomes an image of three bytes for each pixel, and they are the red, green
-- and blue of the one colour where the pixel is on and of the other where it is off.
pub mono_to_rgb666_lem :
    (fb : List Byte) (w h fg bg x y k : ℕ)
    → length fb ≡ w * (h / 8)
    → h % 8 ≡ 0
    → w * h ≤ size_max / 3
    → x < w
    → y < h
    → k < 3
    → (image : List ℕ) × (mono_to_rgb666 fb w h fg bg ≡ some image)
      × (length image ≡ w * h * 3)
      × (at ((y * w + x) * 3 + k) image
          ≡ (channel k (if get_pixel fb w h (pos x) (pos y) then fg else bg)))
unfolding mono_to_rgb666 mono_pixel_on get_pixel
mono_to_rgb666_lem fb w h fg bg x y k size whole small hx hy hk =
    let zeros = replicate (w * h * 3) (let z : ℕ = 0 in z) in
    let len = length-write_rows fb w fg bg (count_from 0 h) zeros ∙ length-zeros (w * h * 3) in
    let step : (y + 1) * w ≤ h * w = mul-le-mul_right w (omega (arith, hy)) in
    let room : index w x y * 3 + 2 < length zeros =
      grind (arith, step, hx, length-zeros (w * h * 3)) in
    let bytes = rows_bytes fb w fg bg y x k (count_from 0 h) zeros hx hk room in
    let row : elem y (count_from 0 h) ≡ true = rw (elem-count_from y 0 h) (ground (arith, hy)) in
    let e1 : (w == 0) ≡ false = ground (arith, hx) in
    let e2 : (h == 0) ≡ false = ground (arith, hy) in
    let e3 : (h % 8 == 0) ≡ true = ground (arith, whole) in
    let e4 : (length fb == w * (h / 8)) ≡ true = ground (arith, size) in
    let e5 : ltb (size_max / 3) (w * h) ≡ false = ground (arith, small) in
    (
      write_rows fb w fg bg (count_from 0 h) zeros,
      rw (e1, e2, e3, e4, e5) refl,
      len,
      rw (bytes, row, inside w h x y hx hy) refl,
    )
