-- ===== src/FtText/Fuel.antt =====
-- The loop of draw_utf8 ends within a round for each byte, on any bytes.
use fuelflux.Base.{ℕ, ◌≤◌, zero, suc, ◌≡◌, refl, arith, Bool, [], ◌∷◌, Text, ℤ, length}
use fuelflux.FtText.{Face, Pen, next_cp, two_bytes, three_bytes, four_bytes, round, draw_loop}

two_bytes-shorter : (c : ℕ) (t : Text) → length (two_bytes c t).1 ≤ length t
two_bytes-shorter c [] = omega arith
two_bytes-shorter c (b1 ∷ t) = omega arith

three_bytes-shorter : (c : ℕ) (t : Text) → length (three_bytes c t).1 ≤ length t
three_bytes-shorter c [] = omega arith
three_bytes-shorter c (b1 ∷ []) = omega arith
three_bytes-shorter c (b1 ∷ b2 ∷ t) = omega arith

four_bytes-shorter : (c : ℕ) (t : Text) → length (four_bytes c t).1 ≤ length t
four_bytes-shorter c [] = omega arith
four_bytes-shorter c (b1 ∷ []) = omega arith
four_bytes-shorter c (b1 ∷ b2 ∷ []) = omega arith
four_bytes-shorter c (b1 ∷ b2 ∷ b3 ∷ t) = omega arith

next_cp-shorter : (c : ℕ) (t : Text) → length (next_cp (c ∷ t)).1 ≤ length t
unfolding next_cp
next_cp-shorter c t =
    ground (arith, two_bytes-shorter c t, three_bytes-shorter c t, four_bytes-shorter c t)

module _ (width height : ℕ) (on : Bool) (face : Face) (px x : ℤ) where
  draw_loop-fuel :
      (f g : ℕ) (t : Text) (p : Pen)
      → length t ≤ f
      → length t ≤ g
      → draw_loop width height on face px x f t p ≡ draw_loop width height on face px x g t p
  unfolding draw_loop
  draw_loop-fuel zero zero t p h k = refl
  draw_loop-fuel zero (suc g) [] p h k = refl
  draw_loop-fuel (suc f) zero [] p h k = refl
  draw_loop-fuel (suc f) (suc g) [] p h k = refl
  draw_loop-fuel zero g (c ∷ t) p h k = absurd (omega (arith, h))
  draw_loop-fuel (suc f) zero (c ∷ t) p h k = absurd (omega (arith, k))
  draw_loop-fuel (suc f) (suc g) (c ∷ t) p h k =
      let d = next_cp (c ∷ t) in
      let r = round width height on face px x d.0 p in
      let s = next_cp-shorter c t in
      rw (draw_loop-fuel f g d.1 r.0 (omega (arith, s, h)) (omega (arith, s, k))) refl
