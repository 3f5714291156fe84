-- ===== src/Pixels/Shapes/Pixel.antt =====
-- Which pixels change when one pixel is set.
use fuelflux.Base.{
  ℕ, ◌+◌, ◌*◌, ◌/◌, ◌%◌, ◌<◌, ◌≤◌, zero, suc, ◌≡◌, refl, sym, arith, Bool, true, false, ◌==◌, ◌&&◌,
  if◌then◌else◌, List, [], ◌∷◌, ℤ, pos, negsuc, length, Bool-cases, inl, inr, eqb_ℤ, ==_iff,
}
use native.Mathlib.Nat.{mul-le-mul_right}
use fuelflux.Pixels.{Byte, byte_at, put_byte, index, get_pixel, set_pixel, outside, with_bit}
use fuelflux.Pixels.Writes.{index-eq}

byte_at-put_byte :
    (i j : ℕ) (c : Byte) (fb : List Byte)
    → i < length fb
    → byte_at j (put_byte i c fb) ≡ (if i == j then c else byte_at j fb)
unfolding byte_at put_byte
byte_at-put_byte i j c [] h = absurd (omega (arith, h))
byte_at-put_byte zero zero c (b ∷ bs) h = refl
byte_at-put_byte zero (suc j) c (b ∷ bs) h =
    let e : (0 == suc j) ≡ false = ground arith in rw e refl
byte_at-put_byte (suc i) zero c (b ∷ bs) h =
    let e : (suc i == 0) ≡ false = ground arith in rw e refl
byte_at-put_byte (suc i) (suc j) c (b ∷ bs) h =
    let e : (suc i == suc j) ≡ (i == j) = ground arith in
    rw e (byte_at-put_byte i j c bs (omega (arith, h)))

-- A buffer of MonoGfx of this width and height.
unfoldable pub IsBuffer : ℕ → ℕ → List Byte → Type 0
IsBuffer w h fb = (length fb ≡ w * (h / 8)) × (h % 8 ≡ 0)

in_buffer :
    (w h x y : ℕ) (fb : List Byte) → IsBuffer w h fb → x < w → y < h → index w x (y / 8) < length fb
unfolding IsBuffer
in_buffer w h x y fb k hx hy =
    let room : (y / 8 + 1) * w ≤ (h / 8) * w = mul-le-mul_right w (omega (arith, k, hy)) in
    grind (arith, room, k, hx)

inside_outside : (w h x y : ℕ) → x < w → y < h → outside w h x y ≡ false
inside_outside w h x y hx hy = ground (arith, hx, hy)

same_place :
    (x y u v : ℕ)
    → (((y / 8 == v / 8) && (x == u)) && (v % 8 == y % 8))
      ≡ (eqb_ℤ (pos x) (pos u) && eqb_ℤ (pos y) (pos v))
same_place x y u v = ground arith

pub chosen :
    (p q : Bool) (on b : Bool)
    → (if p then (if q then on else b) else b) ≡ (if p && q then on else b)
chosen true q on b = refl
chosen false q on b = refl

bit_of :
    (p : Bool) (v y : ℕ) (on : Bool) (b c : Byte)
    → (if p then with_bit b y on else c) v ≡ (if p then (if v == y then on else b v) else c v)
bit_of true v y on b c = refl
bit_of false v y on b c = refl

-- The byte that is written back is the one that was read.
same_byte :
    (p : Bool) (i j v y : ℕ) (on : Bool) (fb : List Byte)
    → (p ≡ (i == j))
    → (if p then (if v == y then on else byte_at i fb v) else byte_at j fb v)
      ≡ (if p && (v == y) then on else byte_at j fb v)
same_byte false i j v y on fb h = refl
same_byte true i j v y on fb h =
    rw ((==_iff i j).0 (sym h)) (chosen true (v == y) on (byte_at j fb v))

drawn :
    (w h x y u v : ℕ) (on : Bool) (fb : List Byte)
    → IsBuffer w h fb
    → x < w
    → y < h
    → u < w
    → v < h
    → byte_at
        (index w u (v / 8))
        (put_byte (index w x (y / 8)) (with_bit (byte_at (index w x (y / 8)) fb) (y % 8) on) fb)
        (v % 8)
      ≡ (if eqb_ℤ (pos x) (pos u) && eqb_ℤ (pos y) (pos v)
          then on
          else byte_at (index w u (v / 8)) fb (v % 8))
drawn w h x y u v on fb k hx hy hu hv =
    let i = index w x (y / 8) in
    let j = index w u (v / 8) in
    let p : Bool = i == j in
    rw
      (
        byte_at-put_byte i j (with_bit (byte_at i fb) (y % 8) on) fb (in_buffer w h x y fb k hx hy),
        bit_of p (v % 8) (y % 8) on (byte_at i fb) (byte_at j fb),
        same_byte p i j (v % 8) (y % 8) on fb refl,
        index-eq w (y / 8) (v / 8) x u hx hu,
        same_place x y u v,
      )
      refl

-- Setting a pixel changes that pixel, and only that.
pub get_pixel-set_pixel :
    (w h : ℕ) (x y : ℤ) (u v : ℕ) (on : Bool) (fb : List Byte)
    → IsBuffer w h fb
    → u < w
    → v < h
    → get_pixel (set_pixel fb w h x y on) w h (pos u) (pos v)
      ≡ (if eqb_ℤ x (pos u) && eqb_ℤ y (pos v) then on else get_pixel fb w h (pos u) (pos v))
unfolding get_pixel set_pixel
get_pixel-set_pixel w h (pos x) (pos y) u v on fb k hu hv = elim (Bool-cases (outside w h x y)) [
  | inl out ↦
      let e : (eqb_ℤ (pos x) (pos u) && eqb_ℤ (pos y) (pos v)) ≡ false =
        ground (arith, out, hu, hv) in
      rw (out, e) refl
  | inr at ↦
      rw (at, inside_outside w h u v hu hv)
        (drawn w h x y u v on fb k (ground (arith, at)) (ground (arith, at)) hu hv)
]
get_pixel-set_pixel w h (pos x) (negsuc y) u v on fb k hu hv =
    let e : (eqb_ℤ (pos x) (pos u) && eqb_ℤ (negsuc y) (pos v)) ≡ false = ground arith in rw e refl
get_pixel-set_pixel w h (negsuc x) y u v on fb k hu hv =
    let e : eqb_ℤ (negsuc x) (pos u) ≡ false = ground arith in rw e refl
