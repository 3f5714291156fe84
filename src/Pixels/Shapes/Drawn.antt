-- ===== src/Pixels/Shapes/Drawn.antt =====
-- Which pixels the lines and rectangles of MonoGfx cover.
use fuelflux.Base.{
  ℕ, ◌<◌, zero, suc, ◌≡◌, refl, sym, ap, ◌∙◌, arith, Bool, true, false, ◌&&◌, ◌||◌, leb, List, [],
  ◌∷◌, ℤ, pos, negsuc, pos_part, ◌+ℤ◌, ◌-ℤ◌, leb_ℤ, ltb_ℤ, eqb_ℤ, min_ℤ, Bool-cases, inl, inr,
}
use fuelflux.Pixels.{Byte, set_pixel}
use fuelflux.Pixels.Shapes.{
  ints_from, ints_to, max_ℤ, last, row_pixels, column_pixels, hline, vline, rows,
}
use fuelflux.Pixels.Shapes.Pixel.{IsBuffer}
use fuelflux.Pixels.Shapes.Covers.{
  set_pixel-IsBuffer, Covers, nothing, one_pixel, after, same_cover, factor, factor_left,
}

abbrev holds : ℤ → List ℤ → Bool
holds z [] = false
holds z (x ∷ xs) = eqb_ℤ x z || holds z xs

-- Between two numbers, in whatever order they are given, with both.
abbrev pub between : ℤ → ℤ → ℕ → Bool
between a b u = leb_ℤ (min_ℤ a b) (pos u) && leb_ℤ (pos u) (max_ℤ a b)

next :
    (z a : ℤ) (n : ℕ)
    → (eqb_ℤ a z || (leb_ℤ (a +ℤ pos 1) z && ltb_ℤ z (a +ℤ pos 1 +ℤ pos n)))
      ≡ (leb_ℤ a z && ltb_ℤ z (a +ℤ pos (suc n)))
next z a n = ground arith

holds-ints_from : (z a : ℤ) (n : ℕ) → holds z (ints_from a n) ≡ (leb_ℤ a z && ltb_ℤ z (a +ℤ pos n))
holds-ints_from z a zero = ground arith
holds-ints_from z a (suc n) = rw (holds-ints_from z (a +ℤ pos 1) n) (next z a n)

bounded :
    (z a b : ℤ)
    → (leb_ℤ a z && ltb_ℤ z (a +ℤ pos (pos_part (b +ℤ pos 1 -ℤ a)))) ≡ (leb_ℤ a z && leb_ℤ z b)
bounded z a b = ground arith

pub holds-ints_to : (z a b : ℤ) → holds z (ints_to a b) ≡ (leb_ℤ a z && leb_ℤ z b)
holds-ints_to z a b = holds-ints_from z a (pos_part (b +ℤ pos 1 -ℤ a)) ∙ bounded z a b

and_false : (b : Bool) → (b && false) ≡ false
and_false true = refl
and_false false = refl

clipped :
    (u n : ℕ) (a b : ℤ)
    → u < n
    → (leb_ℤ (max_ℤ (pos 0) a) (pos u) && leb_ℤ (pos u) (min_ℤ (last n) b))
      ≡ (leb_ℤ a (pos u) && leb_ℤ (pos u) b)
clipped u n a b h = ground (arith, h)

holds-clipped :
    (u n : ℕ) (a b : ℤ)
    → u < n
    → holds (pos u) (ints_to (max_ℤ (pos 0) (min_ℤ a b)) (min_ℤ (last n) (max_ℤ a b)))
      ≡ between a b u
holds-clipped u n a b h =
    holds-ints_to (pos u) (max_ℤ (pos 0) (min_ℤ a b)) (min_ℤ (last n) (max_ℤ a b))
    ∙ clipped u n (min_ℤ a b) (max_ℤ a b) h

row_pixels-Covers :
    (w h : ℕ) (xs : List ℤ) (y : ℤ) (on : Bool) (fb : List Byte)
    → IsBuffer w h fb
    → Covers w h fb (row_pixels fb w h xs y on) on (λ u v. holds (pos u) xs && eqb_ℤ y (pos v))
row_pixels-Covers w h [] y on fb k = nothing w h fb on k
row_pixels-Covers w h (x ∷ xs) y on fb k =
    let one = set_pixel fb w h x y on in
    same_cover w h fb (row_pixels one w h xs y on) on
      (λ u v. (eqb_ℤ x (pos u) && eqb_ℤ y (pos v)) || (holds (pos u) xs && eqb_ℤ y (pos v)))
      (λ u v. holds (pos u) (x ∷ xs) && eqb_ℤ y (pos v))
      (λ u v hu hv. factor (eqb_ℤ x (pos u)) (holds (pos u) xs) (eqb_ℤ y (pos v)))
      (after w h fb one (row_pixels one w h xs y on) on (λ u v. eqb_ℤ x (pos u) && eqb_ℤ y (pos v))
        (λ u v. holds (pos u) xs && eqb_ℤ y (pos v)) (one_pixel w h x y on fb k)
        (row_pixels-Covers w h xs y on one (set_pixel-IsBuffer w h x y on fb k)))

column_pixels-Covers :
    (w h : ℕ) (x : ℤ) (ys : List ℤ) (on : Bool) (fb : List Byte)
    → IsBuffer w h fb
    → Covers w h fb (column_pixels fb w h x ys on) on (λ u v. eqb_ℤ x (pos u) && holds (pos v) ys)
column_pixels-Covers w h x [] on fb k =
    same_cover w h fb fb on (λ u v. false) (λ u v. eqb_ℤ x (pos u) && false)
      (λ u v hu hv. sym (and_false (eqb_ℤ x (pos u)))) (nothing w h fb on k)
column_pixels-Covers w h x (y ∷ ys) on fb k =
    let one = set_pixel fb w h x y on in
    same_cover w h fb (column_pixels one w h x ys on) on
      (λ u v. (eqb_ℤ x (pos u) && eqb_ℤ y (pos v)) || (eqb_ℤ x (pos u) && holds (pos v) ys))
      (λ u v. eqb_ℤ x (pos u) && holds (pos v) (y ∷ ys))
      (λ u v hu hv. factor_left (eqb_ℤ y (pos v)) (holds (pos v) ys) (eqb_ℤ x (pos u)))
      (after w h fb one (column_pixels one w h x ys on) on
        (λ u v. eqb_ℤ x (pos u) && eqb_ℤ y (pos v)) (λ u v. eqb_ℤ x (pos u) && holds (pos v) ys)
        (one_pixel w h x y on fb k)
        (column_pixels-Covers w h x ys on one (set_pixel-IsBuffer w h x y on fb k)))

-- No pixel of the buffer has this coordinate.
not_there : (n : ℕ) (y v : ℕ) → leb n y ≡ true → v < n → eqb_ℤ (pos y) (pos v) ≡ false
not_there n y v h k = ground (arith, h, k)

-- A horizontal line covers the pixels of its row between its ends.
pub hline-Covers :
    (w h : ℕ) (x0 x1 y : ℤ) (on : Bool) (fb : List Byte)
    → IsBuffer w h fb
    → Covers w h fb (hline fb w h x0 x1 y on) on (λ u v. between x0 x1 u && eqb_ℤ y (pos v))
unfolding hline
hline-Covers w h x0 x1 (negsuc y) on fb k =
    same_cover w h fb fb on (λ u v. false) (λ u v. between x0 x1 u && eqb_ℤ (negsuc y) (pos v))
      (λ u v hu hv.
        let e : eqb_ℤ (negsuc y) (pos v) ≡ false = ground arith in
        rw e (sym (and_false (between x0 x1 u))))
      (nothing w h fb on k)
hline-Covers w h x0 x1 (pos y) on fb k = elim (Bool-cases (leb h y)) [
  | inl out ↦ rw out (
      same_cover w h fb fb on (λ u v. false) (λ u v. between x0 x1 u && eqb_ℤ (pos y) (pos v))
        (λ u v hu hv. rw (not_there h y v out hv) (sym (and_false (between x0 x1 u))))
        (nothing w h fb on k))
  | inr in_range ↦
      let xs = ints_to (max_ℤ (pos 0) (min_ℤ x0 x1)) (min_ℤ (last w) (max_ℤ x0 x1)) in
      rw in_range (
        same_cover w h fb (row_pixels fb w h xs (pos y) on) on
          (λ u v. holds (pos u) xs && eqb_ℤ (pos y) (pos v))
          (λ u v. between x0 x1 u && eqb_ℤ (pos y) (pos v))
          (λ u v hu hv. ap (λ b. b && eqb_ℤ (pos y) (pos v)) (holds-clipped u w x0 x1 hu))
          (row_pixels-Covers w h xs (pos y) on fb k))
]

-- A vertical line covers the pixels of its column between its ends.
pub vline-Covers :
    (w h : ℕ) (x y0 y1 : ℤ) (on : Bool) (fb : List Byte)
    → IsBuffer w h fb
    → Covers w h fb (vline fb w h x y0 y1 on) on (λ u v. eqb_ℤ x (pos u) && between y0 y1 v)
unfolding vline
vline-Covers w h (negsuc x) y0 y1 on fb k =
    same_cover w h fb fb on (λ u v. false) (λ u v. eqb_ℤ (negsuc x) (pos u) && between y0 y1 v)
      (λ u v hu hv. let e : eqb_ℤ (negsuc x) (pos u) ≡ false = ground arith in rw e refl)
      (nothing w h fb on k)
vline-Covers w h (pos x) y0 y1 on fb k = elim (Bool-cases (leb w x)) [
  | inl out ↦ rw out (
      same_cover w h fb fb on (λ u v. false) (λ u v. eqb_ℤ (pos x) (pos u) && between y0 y1 v)
        (λ u v hu hv. rw (not_there w x u out hu) refl) (nothing w h fb on k))
  | inr in_range ↦
      let ys = ints_to (max_ℤ (pos 0) (min_ℤ y0 y1)) (min_ℤ (last h) (max_ℤ y0 y1)) in
      rw in_range (
        same_cover w h fb (column_pixels fb w h (pos x) ys on) on
          (λ u v. eqb_ℤ (pos x) (pos u) && holds (pos v) ys)
          (λ u v. eqb_ℤ (pos x) (pos u) && between y0 y1 v)
          (λ u v hu hv. ap (λ b. eqb_ℤ (pos x) (pos u) && b) (holds-clipped v h y0 y1 hv))
          (column_pixels-Covers w h (pos x) ys on fb k))
]

pub rows-Covers :
    (w h : ℕ) (x0 x1 : ℤ) (ys : List ℤ) (on : Bool) (fb : List Byte)
    → IsBuffer w h fb
    → Covers w h fb (rows fb w h x0 x1 ys on) on (λ u v. between x0 x1 u && holds (pos v) ys)
unfolding Covers
rows-Covers w h x0 x1 [] on fb k =
    same_cover w h fb fb on (λ u v. false) (λ u v. between x0 x1 u && false)
      (λ u v hu hv. sym (and_false (between x0 x1 u))) (nothing w h fb on k)
rows-Covers w h x0 x1 (y ∷ ys) on fb k =
    let line = hline-Covers w h x0 x1 y on fb k in
    let one = hline fb w h x0 x1 y on in
    same_cover w h fb (rows one w h x0 x1 ys on) on
      (λ u v. (between x0 x1 u && eqb_ℤ y (pos v)) || (between x0 x1 u && holds (pos v) ys))
      (λ u v. between x0 x1 u && holds (pos v) (y ∷ ys))
      (λ u v hu hv. factor_left (eqb_ℤ y (pos v)) (holds (pos v) ys) (between x0 x1 u))
      (after w h fb one (rows one w h x0 x1 ys on) on (λ u v. between x0 x1 u && eqb_ℤ y (pos v))
        (λ u v. between x0 x1 u && holds (pos v) ys) line (rows-Covers w h x0 x1 ys on one line.0))
