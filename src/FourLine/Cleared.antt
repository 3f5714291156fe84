-- ===== src/FourLine/Cleared.antt =====
-- What the clearing of the margins leaves of each byte.
use fuelflux.Base.{
  ℕ, ◌+◌, ◌-◌, ◌<◌, ◌≤◌, zero, suc, ◌≡◌, refl, ◌∙◌, sym, arith, Bool, true, false, ◌==◌, ◌&&◌, ◌||◌,
  if◌then◌else◌, leb, ltb, List, [], ◌∷◌, All, length,
}
use fuelflux.Pixels.{Byte, blank, byte_at, put_byte, index, count_from}
use fuelflux.Pixels.Writes.{length-put_byte, byte_at-put_blank, index-eq}
use fuelflux.FourLine.{FourLine, clear_columns, clear_pages}

abbrev pub elem : ℕ → List ℕ → Bool
elem z [] = false
elem z (x ∷ xs) = (x == z) || elem z xs

pub elem-count_from : (z a n : ℕ) → elem z (count_from a n) ≡ (leb a z && ltb z (a + n))
elem-count_from z a zero = ground arith
elem-count_from z a (suc n) = ground (arith, elem-count_from z (suc a) n)

pub count_from-below : (w a n : ℕ) → a + n ≤ w → All (λ x. x < w) (count_from a n)
count_from-below w a zero h = tt
count_from-below w a (suc n) h = (omega (arith, h), count_from-below w (suc a) n (omega (arith, h)))

never : (e : Bool) (b : Byte) → (if e && false then blank else b) ≡ b
never true b = refl
never false b = refl

-- Blanked twice over, under two conditions.
blanked :
    (p q r : Bool) (b : Byte)
    → (if p && q then blank else (if p && r then blank else b))
      ≡ (if p && (r || q) then blank else b)
blanked false q r b = refl
blanked true false false b = refl
blanked true false true b = refl
blanked true true false b = refl
blanked true true true b = refl

clear_columns-byte :
    (w p q z : ℕ) (xs : List ℕ) (fb : List Byte)
    → z < w
    → All (λ x. x < w) xs
    → byte_at (index w z q) (clear_columns w p xs fb)
      ≡ (if (p == q) && elem z xs then blank else byte_at (index w z q) fb)
clear_columns-byte w p q z [] fb hz h = sym (never (p == q) (byte_at (index w z q) fb))
clear_columns-byte w p q z (x ∷ xs) fb hz h =
    rw
      (
        clear_columns-byte w p q z xs (put_byte (index w x p) blank fb) hz h.1,
        byte_at-put_blank (index w x p) (index w z q) fb,
        index-eq w p q x z h.0 hz,
      )
      (blanked (p == q) (elem z xs) (x == z) (byte_at (index w z q) fb))

-- The column stands in a margin.
abbrev pub in_margin : FourLine → ℕ → Bool
in_margin d x = ltb x d.left_margin || leb (d.width - d.right_margin) x

abbrev left_limit : FourLine → ℕ
left_limit d = if ltb d.width d.left_margin then d.width else d.left_margin

left-elem :
    (d : FourLine) (z : ℕ)
    → z < d.width
    → elem z (count_from 0 (left_limit d)) ≡ ltb z d.left_margin
left-elem d z h = rw (elem-count_from z 0 (left_limit d)) (ground (arith, h))

right-elem :
    (d : FourLine) (z : ℕ)
    → z < d.width
    → elem z (count_from (d.width - d.right_margin) (d.width - (d.width - d.right_margin)))
      ≡ leb (d.width - d.right_margin) z
right-elem d z h =
    rw (elem-count_from z (d.width - d.right_margin) (d.width - (d.width - d.right_margin)))
      (ground (arith, h))

-- One page after others.
one_more :
    (e o l r : Bool) (b : Byte)
    → (if o && (l || r) then blank else (if e && r then blank else (if e && l then blank else b)))
      ≡ (if (e || o) && (l || r) then blank else b)
one_more false o l r b = refl
one_more true false true true b = refl
one_more true false true false b = refl
one_more true false false true b = refl
one_more true false false false b = refl
one_more true true true true b = refl
one_more true true true false b = refl
one_more true true false true b = refl
one_more true true false false b = refl

pub clear_pages-byte :
    (d : FourLine) (q z : ℕ) (ps : List ℕ) (fb : List Byte)
    → z < d.width
    → byte_at (index d.width z q) (clear_pages d ps fb)
      ≡ (if elem q ps && in_margin d z then blank else byte_at (index d.width z q) fb)
clear_pages-byte d q z [] fb hz = refl
clear_pages-byte d q z (p ∷ ps) fb hz =
    let right = count_from (d.width - d.right_margin) (d.width - (d.width - d.right_margin)) in
    let left = count_from 0 (left_limit d) in
    rw
      (
        clear_pages-byte d q z ps (clear_columns d.width p right (clear_columns d.width p left fb))
            hz,
        clear_columns-byte d.width p q z right (clear_columns d.width p left fb) hz (
            count_from-below d.width (d.width - d.right_margin)
              (d.width - (d.width - d.right_margin)) (omega arith)),
        clear_columns-byte d.width p q z left fb hz
            (count_from-below d.width 0 (left_limit d) (ground arith)),
        right-elem d z hz,
        left-elem d z hz,
      )
      (one_more (p == q) (elem q ps) (ltb z d.left_margin) (leb (d.width - d.right_margin) z)
        (byte_at (index d.width z q) fb))

length-clear_columns :
    (w p : ℕ) (xs : List ℕ) (fb : List Byte) → length (clear_columns w p xs fb) ≡ length fb
length-clear_columns w p [] fb = refl
length-clear_columns w p (x ∷ xs) fb =
    length-clear_columns w p xs (put_byte (index w x p) blank fb)
    ∙ length-put_byte (index w x p) blank fb

pub length-clear_pages :
    (d : FourLine) (ps : List ℕ) (fb : List Byte) → length (clear_pages d ps fb) ≡ length fb
length-clear_pages d [] fb = refl
length-clear_pages d (p ∷ ps) fb =
    let right = count_from (d.width - d.right_margin) (d.width - (d.width - d.right_margin)) in
    let left = clear_columns d.width p (count_from 0 (left_limit d)) fb in
    length-clear_pages d ps (clear_columns d.width p right left)
    ∙ (length-clear_columns d.width p right left
        ∙ length-clear_columns d.width p (count_from 0 (left_limit d)) fb)
