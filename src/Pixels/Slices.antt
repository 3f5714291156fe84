-- ===== src/Pixels/Slices.antt =====
-- The bytes of a part of a framebuffer.
use fuelflux.Base.{
  ℕ, ◌+◌, ◌<◌, ◌≤◌, zero, suc, ◌≡◌, refl, ap, ◌∙◌, arith, List, [], ◌∷◌, length, take, drop,
}
use fuelflux.Pixels.{Byte, byte_at}

pub length-take_all : (n : ℕ) (xs : List Byte) → n ≤ length xs → length (take n xs) ≡ n
length-take_all zero xs h = refl
length-take_all (suc n) [] h = absurd (omega (arith, h))
length-take_all (suc n) (x ∷ xs) h = ap suc (length-take_all n xs (omega (arith, h)))

pub byte_at-take : (z n : ℕ) (xs : List Byte) → z < n → byte_at z (take n xs) ≡ byte_at z xs
unfolding byte_at
byte_at-take z zero xs h = absurd (omega (arith, h))
byte_at-take z (suc n) [] h = refl
byte_at-take zero (suc n) (x ∷ xs) h = refl
byte_at-take (suc z) (suc n) (x ∷ xs) h = byte_at-take z n xs (omega (arith, h))

pub byte_at-drop : (z n : ℕ) (xs : List Byte) → byte_at z (drop n xs) ≡ byte_at (n + z) xs
unfolding byte_at
byte_at-drop z zero xs = ap (λ i. byte_at i xs) (omega arith)
byte_at-drop z (suc n) [] = refl
byte_at-drop z (suc n) (x ∷ xs) =
    byte_at-drop z n xs
    ∙ ap (λ i. byte_at i (x ∷ xs)) (let e : suc (n + z) ≡ suc n + z = omega arith in e)
