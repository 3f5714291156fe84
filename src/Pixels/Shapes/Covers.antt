-- ===== src/Pixels/Shapes/Covers.antt =====
-- What a drawing of MonoGfx covers, put together from the drawings it consists of.
use fuelflux.Base.{
  ℕ, ◌<◌, ◌≡◌, refl, sym, ◌∙◌, Bool, true, false, ◌&&◌, ◌||◌, if◌then◌else◌, List, ℤ, pos, eqb_ℤ,
}
use fuelflux.Pixels.{Byte, get_pixel, set_pixel}
use fuelflux.Pixels.Writes.{length-set_pixel}
use fuelflux.Pixels.Shapes.Pixel.{IsBuffer, get_pixel-set_pixel}

pub set_pixel-IsBuffer :
    (w h : ℕ) (x y : ℤ) (on : Bool) (fb : List Byte)
    → IsBuffer w h fb
    → IsBuffer w h (set_pixel fb w h x y on)
unfolding IsBuffer
set_pixel-IsBuffer w h x y on fb k = (length-set_pixel fb w h x y on ∙ k.0, k.1)

-- What a drawing leaves: a buffer, on whose pixels it sets those that it covers.
unfoldable pub Covers : ℕ → ℕ → List Byte → List Byte → Bool → (ℕ → ℕ → Bool) → Type 0
Covers w h before after on covered =
    IsBuffer w h after
    × ((u v : ℕ)
        → u < w
        → v < h
        → get_pixel after w h (pos u) (pos v)
          ≡ (if covered u v then on else get_pixel before w h (pos u) (pos v)))

pub nothing :
    (w h : ℕ) (fb : List Byte) (on : Bool) → IsBuffer w h fb → Covers w h fb fb on (λ u v. false)
unfolding Covers
nothing w h fb on k = (k, λ u v hu hv. refl)

pub one_pixel :
    (w h : ℕ) (x y : ℤ) (on : Bool) (fb : List Byte)
    → IsBuffer w h fb
    → Covers w h fb (set_pixel fb w h x y on) on (λ u v. eqb_ℤ x (pos u) && eqb_ℤ y (pos v))
unfolding Covers
one_pixel w h x y on fb k =
    (set_pixel-IsBuffer w h x y on fb k, λ u v hu hv. get_pixel-set_pixel w h x y u v on fb k hu hv)

either :
    (p q : Bool) (on b : Bool)
    → (if q then on else (if p then on else b)) ≡ (if p || q then on else b)
either true true on b = refl
either true false on b = refl
either false true on b = refl
either false false on b = refl

-- One drawing after another covers what either covers.
pub after :
    (w h : ℕ) (a b c : List Byte) (on : Bool) (p q : ℕ → ℕ → Bool)
    → Covers w h a b on p
    → Covers w h b c on q
    → Covers w h a c on (λ u v. p u v || q u v)
unfolding Covers
after w h a b c on p q k l = (
  l.0,
  λ u v hu hv.
      l.1 u v hu hv
      ∙ (rw (k.1 u v hu hv) (either (p u v) (q u v) on (get_pixel a w h (pos u) (pos v)))),
)

-- The same pixels, covered in other words.
pub same_cover :
    (w h : ℕ) (a b : List Byte) (on : Bool) (p q : ℕ → ℕ → Bool)
    → ((u v : ℕ) → u < w → v < h → p u v ≡ q u v)
    → Covers w h a b on p
    → Covers w h a b on q
unfolding Covers
same_cover w h a b on p q e k = (k.0, λ u v hu hv. rw (sym (e u v hu hv)) (k.1 u v hu hv))

pub factor : (p q r : Bool) → ((p && r) || (q && r)) ≡ ((p || q) && r)
factor true true true = refl
factor true true false = refl
factor true false true = refl
factor true false false = refl
factor false q r = refl

pub factor_left : (p q r : Bool) → ((r && p) || (r && q)) ≡ (r && (p || q))
factor_left p q true = refl
factor_left p q false = refl
