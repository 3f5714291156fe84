-- ===== src/FtText/Decoded.antt =====
-- The text drawn is the text encoded.
use fuelflux.Base.{
  ℕ, ◌+◌, ◌/◌, ◌%◌, ◌<◌, ◌≤◌, ◌^◌, zero, suc, ◌≡◌, refl, arith, Bool, if◌then◌else◌, ltb, List, [],
  ◌∷◌, ◌++◌, Text, All, ℤ, some, length, length-append,
}
use fuelflux.Pixels.{Byte}
use fuelflux.FtText.{FtText, Face, Pen, next_cp, round, draw_loop, draw_utf8, start_pen}

-- The bytes of a code point in UTF-8.
abbrev pub encode : ℕ → Text
encode cp =
    if ltb cp 0x80
    then cp ∷ []
    else if ltb cp 0x800
    then (192 + cp / 64) ∷ (128 + cp % 64) ∷ []
    else if ltb cp 0x10000
    then (224 + cp / 4096) ∷ (128 + cp / 64 % 64) ∷ (128 + cp % 64) ∷ []
    else (240 + cp / 262144) ∷ (128 + cp / 4096 % 64) ∷ (128 + cp / 64 % 64) ∷ (128 + cp % 64) ∷ []

next_cp-encode : (cp : ℕ) (rest : Text) → cp < 2 ^ 21 → next_cp (encode cp ++ rest) ≡ (cp, rest)
unfolding next_cp
next_cp-encode cp rest h = ground arith

abbrev pub encode_all : List ℕ → Text
encode_all [] = []
encode_all (cp ∷ cps) = encode cp ++ encode_all cps

abbrev pub IsCodePoint : ℕ → Type 0
IsCodePoint cp = cp < 2 ^ 21

length-encode : (cp : ℕ) → 0 < length (encode cp)
length-encode cp = ground arith

module _ (width height : ℕ) (on : Bool) (face : Face) (px x : ℤ) where
  -- The code points drawn one after the other, until the pen leaves the buffer.
  abbrev pub draw_cps : List ℕ → Pen → Pen
  draw_cps [] p = p
  draw_cps (cp ∷ cps) p =
      let (p', stop) = round width height on face px x cp p in
      let more = draw_cps cps p' in if stop then p' else more

  -- A round, as draw_loop makes it.
  abbrev step : ℕ → ℕ × Text → Pen → Pen
  step f d p =
      let (p', stop) = round width height on face px x d.0 p in
      let more = draw_loop width height on face px x f d.1 p' in if stop then p' else more

  draw_loop-step :
      (f : ℕ) (t : Text) (p : Pen)
      → 0 < length t
      → draw_loop width height on face px x (suc f) t p ≡ step f (next_cp t) p
  unfolding draw_loop
  draw_loop-step f [] p h = absurd (omega (arith, h))
  draw_loop-step f (c ∷ t) p h = refl

  draw_loop-nil : (f : ℕ) (p : Pen) → draw_loop width height on face px x f [] p ≡ p
  unfolding draw_loop
  draw_loop-nil zero p = refl
  draw_loop-nil (suc f) p = refl

  draw_loop-encode :
      (f : ℕ) (cps : List ℕ) (p : Pen)
      → All IsCodePoint cps
      → length (encode_all cps) ≤ f
      → draw_loop width height on face px x f (encode_all cps) p ≡ draw_cps cps p
  draw_loop-encode f [] p h fuel = draw_loop-nil f p
  draw_loop-encode zero (cp ∷ cps) p h fuel =
      absurd (omega (arith, fuel, length-encode cp, length-append (encode cp) (encode_all cps)))
  draw_loop-encode (suc f) (cp ∷ cps) p h fuel =
      let e = length-append (encode cp) (encode_all cps) in
      let k = length-encode cp in
      let r = round width height on face px x cp p in
      rw
        (
          draw_loop-step f (encode cp ++ encode_all cps) p (omega (arith, e, k)),
          next_cp-encode cp (encode_all cps) h.0,
          draw_loop-encode f cps r.0 h.1 (omega (arith, e, k, fuel)),
        )
        refl

-- Text in UTF-8 is drawn as its code points are: one after the other, until the pen leaves the
-- buffer.
pub draw_utf8-encode_all :
    (t : FtText) (face : Face) (fb : List Byte) (width height : ℕ) (x y : ℤ) (cps : List ℕ)
    (on : Bool)
    → t.face ≡ some face
    → All IsCodePoint cps
    → draw_utf8 t fb width height x y (encode_all cps) on
      ≡ some (draw_cps width height on face t.px x cps (start_pen face fb x y)).fb
unfolding draw_utf8
draw_utf8-encode_all t face fb width height x y cps on loaded h =
    rw
      (
        loaded,
        draw_loop-encode width height on face t.px x (length (encode_all cps)) cps
            (start_pen face fb x y) h (omega arith),
      )
      refl
