-- ===== src/Pixels/Font/Rows.antt =====
-- Which rows the text of MonoGfx may touch.
use fuelflux.Base.{
  ℕ, ◌<◌, ◌≡◌, refl, ◌∙◌, arith, Bool, true, false, ◌&&◌, if◌then◌else◌, List, [], ◌∷◌, ℤ, pos,
  ◌+ℤ◌, leb_ℤ, ltb_ℤ, eqb_ℤ, All, Text, Bool-cases, inl, inr,
}
use fuelflux.Pixels.{Byte, get_pixel, set_pixel, count_from}
use fuelflux.Pixels.Shapes.Pixel.{IsBuffer, get_pixel-set_pixel}
use fuelflux.Pixels.Shapes.Covers.{set_pixel-IsBuffer}
use fuelflux.Pixels.Font.{bit, glyph, glyph_column, glyph_columns, draw_char, text}

-- The row is one of the seven from y down.
abbrev pub in_rows : ℤ → ℕ → Bool
in_rows y v = leb_ℤ y (pos v) && ltb_ℤ (pos v) (y +ℤ pos 7)

-- Nothing changes above and below the seven rows.
Keeps : ℕ → ℕ → ℤ → List Byte → List Byte → Type 0
Keeps w h y before after =
    IsBuffer w h after
    × ((u v : ℕ)
        → u < w
        → v < h
        → in_rows y v ≡ false
        → get_pixel after w h (pos u) (pos v) ≡ get_pixel before w h (pos u) (pos v))

kept : (w h : ℕ) (y : ℤ) (fb : List Byte) → IsBuffer w h fb → Keeps w h y fb fb
unfolding Keeps
kept w h y fb k = (k, λ u v hu hv other. refl)

then_kept :
    (w h : ℕ) (y : ℤ) (a b c : List Byte) → Keeps w h y a b → Keeps w h y b c → Keeps w h y a c
unfolding Keeps
then_kept w h y a b c k l = (l.0, λ u v hu hv other. l.1 u v hu hv other ∙ k.1 u v hu hv other)

other_row :
    (y : ℤ) (row u v : ℕ) (x : ℤ)
    → row < 7
    → in_rows y v ≡ false
    → (eqb_ℤ x (pos u) && eqb_ℤ (y +ℤ pos row) (pos v)) ≡ false
other_row y row u v x h other = ground (arith, h, other)

dot-Keeps :
    (w h : ℕ) (x y : ℤ) (row : ℕ) (on : Bool) (dot : Bool) (fb : List Byte)
    → row < 7
    → IsBuffer w h fb
    → Keeps w h y fb (if dot then set_pixel fb w h x (y +ℤ pos row) on else fb)
unfolding Keeps
dot-Keeps w h x y row on false fb hr k = kept w h y fb k
dot-Keeps w h x y row on true fb hr k = (
  set_pixel-IsBuffer w h x (y +ℤ pos row) on fb k,
  λ u v hu hv other.
      get_pixel-set_pixel w h x (y +ℤ pos row) u v on fb k hu hv
      ∙ rw (other_row y row u v x hr other) refl,
)

glyph_column-Keeps :
    (w h : ℕ) (x y : ℤ) (bits : ℕ) (on : Bool) (rs : List ℕ) (fb : List Byte)
    → All (λ r. r < 7) rs
    → IsBuffer w h fb
    → Keeps w h y fb (glyph_column fb w h x y bits on rs)
unfolding Keeps
glyph_column-Keeps w h x y bits on [] fb small k = kept w h y fb k
glyph_column-Keeps w h x y bits on (r ∷ rs) fb small k =
    let one = if bit bits r then set_pixel fb w h x (y +ℤ pos r) on else fb in
    let first = dot-Keeps w h x y r on (bit bits r) fb small.0 k in
    then_kept w h y fb one (glyph_column one w h x y bits on rs) first
      (glyph_column-Keeps w h x y bits on rs one small.1 first.0)

seven : All (λ r. r < 7) (count_from 0 7)
seven = ground arith

glyph_columns-Keeps :
    (w h : ℕ) (x y : ℤ) (on : Bool) (g : List ℕ) (fb : List Byte)
    → IsBuffer w h fb
    → Keeps w h y fb (glyph_columns fb w h x y g on)
unfolding Keeps
glyph_columns-Keeps w h x y on [] fb k = kept w h y fb k
glyph_columns-Keeps w h x y on (bits ∷ g) fb k =
    let one = glyph_column fb w h x y bits on (count_from 0 7) in
    let first = glyph_column-Keeps w h x y bits on (count_from 0 7) fb seven k in
    then_kept w h y fb one (glyph_columns one w h (x +ℤ pos 1) y g on) first
      (glyph_columns-Keeps w h (x +ℤ pos 1) y on g one first.0)

text-Keeps :
    (w h : ℕ) (x y : ℤ) (on : Bool) (s : Text) (fb : List Byte)
    → IsBuffer w h fb
    → Keeps w h y fb (text fb w h x y s on)
unfolding Keeps text draw_char
text-Keeps w h x y on [] fb k = kept w h y fb k
text-Keeps w h x y on (c ∷ s) fb k =
    let one = draw_char fb w h x y c on in
    let first = glyph_columns-Keeps w h x y on (glyph c) fb k in
    let rest = text-Keeps w h (x +ℤ pos 6) y on s one first.0 in
    elim (Bool-cases (leb_ℤ (pos w) (x +ℤ pos 6))) [
      | inl full ↦ rw full first
      | inr more ↦ rw more (then_kept w h y fb one (text one w h (x +ℤ pos 6) y s on) first rest)
    ]

-- Text changes pixels of its seven rows only, wherever it begins and however long it is.
pub text-in_rows :
    (w h : ℕ) (x y : ℤ) (on : Bool) (s : Text) (fb : List Byte) (u v : ℕ)
    → IsBuffer w h fb
    → u < w
    → v < h
    → in_rows y v ≡ false
    → get_pixel (text fb w h x y s on) w h (pos u) (pos v) ≡ get_pixel fb w h (pos u) (pos v)
unfolding Keeps
text-in_rows w h x y on s fb u v k hu hv other = (text-Keeps w h x y on s fb k).1 u v hu hv other
