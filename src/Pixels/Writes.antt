-- ===== src/Pixels/Writes.antt =====
-- Reads after writes of bytes and pixels.
use fuelflux.Base.{
  ℕ, ◌+◌, ◌*◌, ◌/◌, ◌%◌, ◌<◌, ◌≤◌, zero, suc, ◌≡◌, refl, sym, ap, arith, Bool, true, false, ◌==◌,
  if◌then◌else◌, ◌&&◌, List, [], ◌∷◌, ℤ, pos, negsuc, length, ◌⊎◌, inl, inr,
}
use native.Mathlib.Nat.{mul-le-mul_right}
use fuelflux.Pixels.{Byte, blank, byte_at, put_byte, index, set_pixel, with_bit}

pub length-put_byte : (i : ℕ) (c : Byte) (fb : List Byte) → length (put_byte i c fb) ≡ length fb
unfolding put_byte
length-put_byte i c [] = refl
length-put_byte zero c (b ∷ bs) = refl
length-put_byte (suc i) c (b ∷ bs) = ap suc (length-put_byte i c bs)

pub length-set_pixel :
    (fb : List Byte) (w h : ℕ) (x y : ℤ) (on : Bool) → length (set_pixel fb w h x y on) ≡ length fb
unfolding set_pixel
length-set_pixel fb w h (pos x) (pos y) on = ground (
  arith,
  length-put_byte (index w x (y / 8)) (with_bit (byte_at (index w x (y / 8)) fb) (y % 8) on) fb,
)
length-set_pixel fb w h (pos x) (negsuc y) on = refl
length-set_pixel fb w h (negsuc x) y on = refl

if-same : {A : Type 0} (b : Bool) (a : A) → (if b then a else a) ≡ a
if-same true a = refl
if-same false a = refl

-- A byte that was blanked reads as blank, another one as before.
pub byte_at-put_blank :
    (i j : ℕ) (fb : List Byte)
    → byte_at j (put_byte i blank fb) ≡ (if i == j then blank else byte_at j fb)
unfolding byte_at put_byte
byte_at-put_blank i j [] = sym (if-same (i == j) blank)
byte_at-put_blank zero zero (b ∷ bs) = refl
byte_at-put_blank zero (suc j) (b ∷ bs) = let e : (0 == suc j) ≡ false = ground arith in rw e refl
byte_at-put_blank (suc i) zero (b ∷ bs) = let e : (suc i == 0) ≡ false = ground arith in rw e refl
byte_at-put_blank (suc i) (suc j) (b ∷ bs) =
    let e : (suc i == suc j) ≡ (i == j) = ground arith in rw e (byte_at-put_blank i j bs)

compare-cases : (p q : ℕ) → (p < q) ⊎ ((p ≡ q) ⊎ (q < p))
compare-cases p q = omega arith

differ : (a b : ℕ) → a < b → (a == b) ≡ false
differ a b h = ground (arith, h)

differ' : (a b : ℕ) → b < a → (a == b) ≡ false
differ' a b h = ground (arith, h)

same-row : (w p q x z : ℕ) → p ≡ q → (index w x p == index w z q) ≡ ((p == q) && (x == z))
same-row w p q x z h = ground (arith, h)

mul_suc_le : (p q w : ℕ) → p < q → p * w + w ≤ q * w
mul_suc_le p q w h =
    let k : (p + 1) * w ≤ q * w = mul-le-mul_right w (omega (arith, h)) in grind (arith, k)

index-far : (w p q x z : ℕ) → x < w → p < q → index w x p < index w z q
index-far w p q x z hx h = let k = mul_suc_le p q w h in omega (arith, k, hx)

-- A byte of a row is found at one index only.
pub index-eq :
    (w p q x z : ℕ) → x < w → z < w → (index w x p == index w z q) ≡ ((p == q) && (x == z))
index-eq w p q x z hx hz = elim (compare-cases p q) [
  | inl less ↦
      let k = index-far w p q x z hx less in
      let e : (p == q) ≡ false = ground (arith, less) in rw e (differ (index w x p) (index w z q) k)
  | inr (inl same) ↦ same-row w p q x z same
  | inr (inr more) ↦
      let k = index-far w q p z x hz more in
      let e : (p == q) ≡ false = ground (arith, more) in
      rw e (differ' (index w x p) (index w z q) k)
]
