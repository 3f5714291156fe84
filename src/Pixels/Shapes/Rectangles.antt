-- ===== src/Pixels/Shapes/Rectangles.antt =====
-- Rectangles of MonoGfx, as the pixels that they cover.
use fuelflux.Base.{
  ℕ, ◌<◌, ◌≡◌, refl, ◌∙◌, arith, Bool, true, false, ◌&&◌, ◌||◌, if◌then◌else◌, List, ℤ, pos, eqb_ℤ,
  min_ℤ,
}
use fuelflux.Pixels.{Byte, get_pixel}
use fuelflux.Pixels.Shapes.{max_ℤ, hline, vline, rect, rows, fill_rect, ints_to}
use fuelflux.Pixels.Shapes.Pixel.{IsBuffer}
use fuelflux.Pixels.Shapes.Covers.{Covers, after, same_cover}
use fuelflux.Pixels.Shapes.Drawn.{between, hline-Covers, vline-Covers, rows-Covers, holds-ints_to}

between_ends : (a b : ℤ) (u : ℕ) → between (min_ℤ a b) (max_ℤ a b) u ≡ between a b u
between_ends a b u = ground arith

and_true : (b : Bool) → (b && true) ≡ b
and_true true = refl
and_true false = refl

both : {a b c d : Bool} → a ≡ b → c ≡ d → (a && c) ≡ (b && d)
both e f = rw (e, f) refl

-- fill_rect covers the pixels that lie between both pairs of ends, in whatever order the corners
-- are given.
fill_rect-Covers :
    (w h : ℕ) (x0 y0 x1 y1 : ℤ) (on : Bool) (fb : List Byte)
    → IsBuffer w h fb
    → Covers w h fb (fill_rect fb w h x0 y0 x1 y1 on) on (λ u v. between x0 x1 u && between y0 y1 v)
unfolding fill_rect
fill_rect-Covers w h x0 y0 x1 y1 on fb k =
    let left = min_ℤ x0 x1 in
    let right = max_ℤ x0 x1 in
    let ys = ints_to (min_ℤ y0 y1) (max_ℤ y0 y1) in
    same_cover w h fb (rows fb w h left right ys on) on _
      (λ u v. between x0 x1 u && between y0 y1 v)
      (λ u v hu hv. both (between_ends x0 x1 u) (holds-ints_to (pos v) (min_ℤ y0 y1) (max_ℤ y0 y1)))
      (rows-Covers w h left right ys on fb k)

-- The pixel lies on an edge.
abbrev on_edge : ℤ → ℤ → ℤ → ℤ → ℕ → ℕ → Bool
on_edge x0 y0 x1 y1 u v =
    (between x0 x1 u && (eqb_ℤ y0 (pos v) || eqb_ℤ y1 (pos v)))
    || (between y0 y1 v && (eqb_ℤ x0 (pos u) || eqb_ℤ x1 (pos u)))

ends :
    (a b : ℤ) (v : ℕ)
    → (eqb_ℤ (min_ℤ a b) (pos v) || eqb_ℤ (max_ℤ a b) (pos v))
      ≡ (eqb_ℤ a (pos v) || eqb_ℤ b (pos v))
ends a b v = ground arith

-- The four lines cover the four edges.
edges :
    (a t b l r s : Bool)
    → ((((a && t) || (a && b)) || (l && s)) || (r && s)) ≡ ((a && (t || b)) || (s && (l || r)))
edges true true b l r s = refl
edges true false true l r s = refl
edges true false false true r true = refl
edges true false false true true false = refl
edges true false false true false false = refl
edges true false false false r true = and_true r
edges true false false false true false = refl
edges true false false false false false = refl
edges false t b true r true = refl
edges false t b true true false = refl
edges false t b true false false = refl
edges false t b false r true = and_true r
edges false t b false true false = refl
edges false t b false false false = refl

edge_words :
    (x0 y0 x1 y1 : ℤ) (u v : ℕ)
    → (((((between (min_ℤ x0 x1) (max_ℤ x0 x1) u && eqb_ℤ (min_ℤ y0 y1) (pos v))
              || (between (min_ℤ x0 x1) (max_ℤ x0 x1) u && eqb_ℤ (max_ℤ y0 y1) (pos v)))
            || (eqb_ℤ (min_ℤ x0 x1) (pos u) && between (min_ℤ y0 y1) (max_ℤ y0 y1) v))
          || (eqb_ℤ (max_ℤ x0 x1) (pos u) && between (min_ℤ y0 y1) (max_ℤ y0 y1) v))
        ≡ on_edge x0 y0 x1 y1 u v)
edge_words x0 y0 x1 y1 u v =
    rw (between_ends x0 x1 u, between_ends y0 y1 v)
      (edges (between x0 x1 u) (eqb_ℤ (min_ℤ y0 y1) (pos v)) (eqb_ℤ (max_ℤ y0 y1) (pos v))
          (eqb_ℤ (min_ℤ x0 x1) (pos u)) (eqb_ℤ (max_ℤ x0 x1) (pos u)) (between y0 y1 v)
        ∙ rw (ends x0 x1 u, ends y0 y1 v) refl)

-- rect covers the edges.
rect-Covers :
    (w h : ℕ) (x0 y0 x1 y1 : ℤ) (on : Bool) (fb : List Byte)
    → IsBuffer w h fb
    → Covers w h fb (rect fb w h x0 y0 x1 y1 on) on (on_edge x0 y0 x1 y1)
unfolding rect Covers
rect-Covers w h x0 y0 x1 y1 on fb k =
    let left = min_ℤ x0 x1 in
    let right = max_ℤ x0 x1 in
    let top = min_ℤ y0 y1 in
    let bottom = max_ℤ y0 y1 in
    let fb1 = hline fb w h left right top on in
    let fb2 = hline fb1 w h left right bottom on in
    let fb3 = vline fb2 w h left top bottom on in
    let fb4 = vline fb3 w h right top bottom on in
    let c1 = hline-Covers w h left right top on fb k in
    let c2 = hline-Covers w h left right bottom on fb1 c1.0 in
    let c3 = vline-Covers w h left top bottom on fb2 c2.0 in
    let c4 = vline-Covers w h right top bottom on fb3 c3.0 in
    same_cover w h fb fb4 on _ (on_edge x0 y0 x1 y1) (λ u v hu hv. edge_words x0 y0 x1 y1 u v)
      (after w h fb fb3 fb4 on _ _
        (after w h fb fb2 fb3 on _ _ (after w h fb fb1 fb2 on _ _ c1 c2) c3) c4)

-- On a buffer of this width and of this height, in whole pages, and for corners anywhere, inside
-- or outside, in any order: fill_rect sets exactly the pixels between the corners, with them, and
-- rect exactly those of them that share a row or a column with a corner. All others stay.
pub rectangles_lem :
    (w h : ℕ) (x0 y0 x1 y1 : ℤ) (on : Bool) (fb : List Byte) (u v : ℕ)
    → IsBuffer w h fb
    → u < w
    → v < h
    → (get_pixel (fill_rect fb w h x0 y0 x1 y1 on) w h (pos u) (pos v)
        ≡ (if between x0 x1 u && between y0 y1 v then on else get_pixel fb w h (pos u) (pos v)))
      × (get_pixel (rect fb w h x0 y0 x1 y1 on) w h (pos u) (pos v)
          ≡ (if on_edge x0 y0 x1 y1 u v then on else get_pixel fb w h (pos u) (pos v)))
unfolding Covers
rectangles_lem w h x0 y0 x1 y1 on fb u v k hu hv = (
  (fill_rect-Covers w h x0 y0 x1 y1 on fb k).1 u v hu hv,
  (rect-Covers w h x0 y0 x1 y1 on fb k).1 u v hu hv,
)
