-- ===== src/Panel/Rgb/Writes.antt =====
-- The bytes that the writes of a pixel leave.
use fuelflux.Base.{
  ℕ, ◌+◌, ◌*◌, ◌<◌, zero, suc, ◌≡◌, refl, ap, ◌∙◌, arith, false, ◌==◌, if◌then◌else◌, List, [], ◌∷◌,
  length,
}
use fuelflux.Panel.Rgb.{put, red, green, blue, write_pixel}

-- The byte of the image at this place, 0 outside.
pub at : ℕ → List ℕ → ℕ
at i [] = 0
at zero (b ∷ bs) = b
at (suc i) (b ∷ bs) = at i bs

abbrev pub channel : ℕ → ℕ → ℕ
channel zero color = red color
channel (suc zero) color = green color
channel (suc (suc k)) color = blue color

length-put : (i v : ℕ) (bs : List ℕ) → length (put i v bs) ≡ length bs
unfolding put
length-put i v [] = refl
length-put zero v (b ∷ bs) = refl
length-put (suc i) v (b ∷ bs) = ap suc (length-put i v bs)

at-put :
    (i j v : ℕ) (bs : List ℕ) → j < length bs → at j (put i v bs) ≡ (if i == j then v else at j bs)
unfolding at put
at-put i j v [] h = absurd (omega (arith, h))
at-put zero zero v (b ∷ bs) h = refl
at-put zero (suc j) v (b ∷ bs) h = let e : (0 == suc j) ≡ false = ground arith in rw e refl
at-put (suc i) zero v (b ∷ bs) h = let e : (suc i == 0) ≡ false = ground arith in rw e refl
at-put (suc i) (suc j) v (b ∷ bs) h =
    let e : (suc i == suc j) ≡ (i == j) = ground arith in rw e (at-put i j v bs (omega (arith, h)))

pub length-write_pixel : (i c : ℕ) (out : List ℕ) → length (write_pixel i c out) ≡ length out
length-write_pixel i c out =
    length-put (i + 2) (blue c) (put (i + 1) (green c) (put i (red c) out))
    ∙ (length-put (i + 1) (green c) (put i (red c) out) ∙ length-put i (red c) out)

-- The three writes of a pixel, read at any place.
at-write_pixel :
    (i j c : ℕ) (out : List ℕ)
    → j < length out
    → at j (write_pixel i c out) ≡ (
        if i + 2 == j
        then blue c
        else if i + 1 == j
        then green c
        else if i == j
        then red c
        else at j out)
at-write_pixel i j c out h =
    let l0 = length-put i (red c) out in
    let l1 = length-put (i + 1) (green c) (put i (red c) out) in
    rw
      (
        at-put (i + 2) j (blue c) (put (i + 1) (green c) (put i (red c) out))
            (omega (arith, l0, l1, h)),
        at-put (i + 1) j (green c) (put i (red c) out) (omega (arith, l0, h)),
        at-put i j (red c) out h,
      )
      refl

-- Three bytes for a pixel, and no other's.
pub pixel_bytes :
    (n m k c : ℕ) (out : List ℕ)
    → k < 3
    → m * 3 + 2 < length out
    → at (m * 3 + k) (write_pixel (n * 3) c out)
      ≡ (if n == m then channel k c else at (m * 3 + k) out)
pixel_bytes n m zero c out hk h =
    rw (at-write_pixel (n * 3) (m * 3 + 0) c out (omega (arith, h))) (ground arith)
pixel_bytes n m (suc zero) c out hk h =
    rw (at-write_pixel (n * 3) (m * 3 + 1) c out (omega (arith, h))) (ground arith)
pixel_bytes n m (suc (suc zero)) c out hk h =
    rw (at-write_pixel (n * 3) (m * 3 + 2) c out (omega (arith, h))) (ground arith)
pixel_bytes n m (suc (suc (suc k))) c out hk h = absurd (omega (arith, hk))
