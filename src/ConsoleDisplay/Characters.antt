-- ===== src/ConsoleDisplay/Characters.antt =====
-- The console display counts, cuts and centres the characters of a text, as UTF-8 encodes them.
use fuelflux.Base.{
  ℕ, ◌+◌, ◌-◌, ◌/◌, ◌%◌, ◌<◌, ◌≤◌, ◌^◌, zero, suc, ◌≡◌, refl, sym, ap, ◌∙◌, arith, false, ◌==◌, ltb,
  List, [], ◌∷◌, ◌++◌, Text, All, length, length-append, replicate, take, drop, Bool-cases, inl,
  inr, append_nil, append_assoc,
}
use fuelflux.FtText.Decoded.{encode, encode_all, IsCodePoint}
use fuelflux.ConsoleDisplay.{
  char_len, utf8_length_from, utf8_length, bytes_passed, utf8_truncate, space, pad_line,
}
use fuelflux.ConsoleDisplay.Width.{pad_line_lem, utf8_length-spaces}

-- The first byte of a character tells how many bytes there are.
record Bytes (t : Text) : Type 0 where
  first : ℕ
  others : Text
  all_of : t ≡ first ∷ others
  told : char_len first ≡ suc (length others)

encode-Bytes : (cp : ℕ) → cp < 2 ^ 21 → Bytes (encode cp)
encode-Bytes cp h = elim (Bool-cases (ltb cp 0x80)) [
  | inl one ↦ record { first = cp; others = []; all_of = rw one refl; told = ground (arith, one) }
  | inr more ↦ elim (Bool-cases (ltb cp 0x800)) [
    | inl two ↦ record {
      first = 192 + cp / 64;
      others = (128 + cp % 64) ∷ [];
      all_of = rw (more, two) refl;
      told = ground (arith, two);
    }
    | inr more' ↦ elim (Bool-cases (ltb cp 0x10000)) [
      | inl three ↦ record {
        first = 224 + cp / 4096;
        others = (128 + cp / 64 % 64) ∷ (128 + cp % 64) ∷ [];
        all_of = rw (more, more', three) refl;
        told = ground (arith, three);
      }
      | inr four ↦ record {
        first = 240 + cp / 262144;
        others = (128 + cp / 4096 % 64) ∷ (128 + cp / 64 % 64) ∷ (128 + cp % 64) ∷ [];
        all_of = rw (more, more', four) refl;
        told = ground (arith, h);
      }
    ]
  ]
]

-- The loop of utf8Length passes the bytes after the first.
length-others : (os rest : Text) → utf8_length_from (length os) (os ++ rest) ≡ utf8_length rest
length-others [] rest = refl
length-others (o ∷ os) rest = length-others os rest

utf8_length-encode :
    (cp : ℕ) (rest : Text) → cp < 2 ^ 21 → utf8_length (encode cp ++ rest) ≡ suc (utf8_length rest)
utf8_length-encode cp rest h =
    let b = encode-Bytes cp h in
    let e : char_len b.first - 1 ≡ length b.others = omega (arith, b.told) in
    rw (b.all_of, e) (ap suc (length-others b.others rest))

utf8_length-encode_all :
    (cps : List ℕ) (rest : Text)
    → All IsCodePoint cps
    → utf8_length (encode_all cps ++ rest) ≡ length cps + utf8_length rest
utf8_length-encode_all [] rest h = omega arith
utf8_length-encode_all (cp ∷ cps) rest h =
    let e = append_assoc (encode cp) (encode_all cps) rest in
    let k = utf8_length-encode cp (encode_all cps ++ rest) h.0 in
    rw e (omega (arith, k, utf8_length-encode_all cps rest h.1))

drop-others : (os rest : Text) → drop (length os) (os ++ rest) ≡ rest
drop-others [] rest = refl
drop-others (o ∷ os) rest = drop-others os rest

take-others : (os rest : Text) (m : ℕ) → take (length os + m) (os ++ rest) ≡ os ++ take m rest
take-others [] rest m = ap (λ i. take i rest) (let e : 0 + m ≡ m = omega arith in e)
take-others (o ∷ os) rest m =
    let e : suc (length os) + m ≡ suc (length os + m) = omega arith in
    rw e (ap (λ t. o ∷ t) (take-others os rest m))

-- The loop of utf8Truncate passes whole characters.
cut-Bytes :
    (n b : ℕ) (os rest : Text)
    → char_len b ≡ suc (length os)
    → let t = (b ∷ os) ++ rest in
      take (bytes_passed (suc n) t) t ≡ (b ∷ os) ++ take (bytes_passed n rest) rest
unfolding bytes_passed
cut-Bytes n b os rest told =
    let k = char_len b in
    let fits : ltb (suc (length (os ++ rest))) (suc (length os)) ≡ false =
      ground (arith, length-append os rest) in
    rw (told, fits, drop-others os rest) (take-others (b ∷ os) rest (bytes_passed n rest))

cut-encode :
    (n cp : ℕ) (rest : Text)
    → cp < 2 ^ 21
    → take (bytes_passed (suc n) (encode cp ++ rest)) (encode cp ++ rest)
      ≡ encode cp ++ take (bytes_passed n rest) rest
cut-encode n cp rest h =
    let b = encode-Bytes cp h in rw b.all_of (cut-Bytes n b.first b.others rest b.told)

cut-encode_all :
    (n : ℕ) (cps : List ℕ)
    → All IsCodePoint cps
    → take (bytes_passed n (encode_all cps)) (encode_all cps) ≡ encode_all (take n cps)
unfolding bytes_passed
cut-encode_all zero cps h = refl
cut-encode_all (suc n) [] h = refl
cut-encode_all (suc n) (cp ∷ cps) h =
    cut-encode n cp (encode_all cps) h.0 ∙ ap (λ t. encode cp ++ t) (cut-encode_all n cps h.1)

All-take : (n : ℕ) (cps : List ℕ) → All IsCodePoint cps → All IsCodePoint (take n cps)
All-take zero cps h = tt
All-take (suc n) [] h = tt
All-take (suc n) (cp ∷ cps) h = (h.0, All-take n cps h.1)

utf8_truncate-encode_all :
    (n : ℕ) (cps : List ℕ)
    → All IsCodePoint cps
    → utf8_truncate (encode_all cps) n ≡ encode_all (take n cps)
unfolding utf8_truncate
utf8_truncate-encode_all zero cps h = refl
utf8_truncate-encode_all (suc n) cps h =
    let e : (suc n == 0) ≡ false = ground arith in rw e (cut-encode_all (suc n) cps h)

encode_all-append : (xs ys : List ℕ) → encode_all (xs ++ ys) ≡ encode_all xs ++ encode_all ys
encode_all-append [] ys = refl
encode_all-append (x ∷ xs) ys =
    ap (λ t. encode x ++ t) (encode_all-append xs ys)
    ∙ sym (append_assoc (encode x) (encode_all xs) (encode_all ys))

encode_all-spaces : (n : ℕ) → encode_all (replicate n space) ≡ replicate n space
encode_all-spaces zero = refl
encode_all-spaces (suc n) = ap (λ t. space ∷ t) (encode_all-spaces n)

-- Characters between spaces.
encode_all-centered :
    (left right : ℕ) (cps : List ℕ)
    → encode_all (replicate left space ++ (cps ++ replicate right space))
      ≡ replicate left space ++ (encode_all cps ++ replicate right space)
encode_all-centered left right cps =
    rw
      (
        encode_all-append (replicate left space) (cps ++ replicate right space),
        encode_all-append cps (replicate right space),
        encode_all-spaces left,
        encode_all-spaces right,
      )
      refl

counted :
    (left right : ℕ) (cps : List ℕ)
    → All IsCodePoint cps
    → utf8_length (replicate left space ++ (encode_all cps ++ replicate right space))
      ≡ left + length cps + right
counted left right cps h =
    let nil = ap utf8_length (append_nil (replicate right space)) in
    omega (
      arith,
      nil,
      utf8_length-spaces left (encode_all cps ++ replicate right space),
      utf8_length-encode_all cps (replicate right space) h,
      utf8_length-spaces right [],
    )

-- A line of text in UTF-8 is padded to exactly as many characters as the display is wide: its first
-- characters, as many as there is room for, stand between spaces, on the right as many as on the
-- left or one more.
pub pad_line-encode_all :
    (width : ℕ) (cps : List ℕ)
    → All IsCodePoint cps
    → (left : ℕ) × (right : ℕ) × (pad_line width (encode_all cps)
        ≡ encode_all (replicate left space ++ (take width cps ++ replicate right space)))
      × (left ≤ right)
      × (right ≤ left + 1)
      × (left + length (take width cps) + right ≡ width)
pad_line-encode_all width cps h =
    let (left, right, shown, less, more, counts) = pad_line_lem width (encode_all cps) in
    let kept = take width cps in
    let cut = utf8_truncate-encode_all width cps h in
    let whole = shown ∙ ap (λ t. replicate left space ++ (t ++ replicate right space)) cut in
    (
      left,
      right,
      whole ∙ sym (encode_all-centered left right kept),
      less,
      more,
      omega (arith, counts, ap utf8_length whole, counted left right kept (All-take width cps h)),
    )
