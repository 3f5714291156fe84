-- ===== src/ConsoleDisplay/Width.antt =====
-- Every line of the console display has the width of its frame.
use fuelflux.Base.{
  ℕ, ◌+◌, ◌-◌, ◌/◌, ◌≤◌, zero, suc, ◌≡◌, refl, sym, ap, ◌∙◌, arith, true, false, ◌==◌, leb, ltb, [],
  ◌∷◌, ◌++◌, Text, length, replicate, take, drop, Bool-cases, inl, inr, append_nil, ==_iff,
}
use fuelflux.ConsoleDisplay.{
  char_len, utf8_length_from, utf8_length, bytes_passed, utf8_truncate, space, centered, pad_line,
}

char_len_pos : (c : ℕ) → char_len c ≡ suc (char_len c - 1)
char_len_pos c = ground arith

past_suc : (k m : ℕ) → suc k + m ≡ suc (k + m)
past_suc k m = omega arith

leb→le : (a b : ℕ) → leb a b ≡ true → a ≤ b
leb→le a b h = ground (arith, h)

-- The loop of utf8Length passes the k bytes of a character.
module _ (rest : Text) where
  utf8_length-past :
      (k m : ℕ) (t : Text)
      → k ≤ length t
      → utf8_length_from k (take (k + m) t ++ rest) ≡ utf8_length (take m (drop k t) ++ rest)
  utf8_length-past zero m t h =
      ap (λ i. utf8_length (take i t ++ rest)) (let e : 0 + m ≡ m = omega arith in e)
  utf8_length-past (suc k) m [] h = absurd (omega (arith, h))
  utf8_length-past (suc k) m (c ∷ t) h =
      rw (past_suc k m) (utf8_length-past k m t (omega (arith, h)))

  -- A whole character, and what is kept after it.
  utf8_length-char :
      (c k m : ℕ) (t : Text)
      → char_len c ≡ suc k
      → k ≤ length t
      → utf8_length (take (suc k + m) (c ∷ t) ++ rest)
        ≡ suc (utf8_length (take m (drop k t) ++ rest))
  utf8_length-char c k m t e h =
      let e' : char_len c - 1 ≡ k = omega (arith, e) in
      rw (past_suc k m, e') (ap suc (utf8_length-past k m t h))

-- What is kept counts at most this many, and does not reach into what follows.
kept_whole :
    (n : ℕ) (t rest : Text)
    → let kept = take (bytes_passed n t) t in
      (utf8_length (kept ++ rest) ≡ utf8_length kept + utf8_length rest)
      × (utf8_length (kept ++ []) ≤ n)
unfolding bytes_passed
kept_whole zero t rest = (omega arith, omega arith)
kept_whole (suc n) [] rest = (omega arith, omega arith)
kept_whole (suc n) (c ∷ t) rest =
    let k = char_len c - 1 in
    let e = char_len_pos c in
    elim (Bool-cases (ltb (length (c ∷ t)) (char_len c))) [
      | inl cut ↦ rw cut (omega arith, omega arith)
      | inr fits ↦
          let room : k ≤ length t = ground (arith, fits) in
          let ih = kept_whole n (drop k t) rest in
          let m = bytes_passed n (drop k t) in
          let more = utf8_length-char rest c k m t e room in
          let alone = utf8_length-char [] c k m t e room in
          let nil = ap utf8_length (append_nil (take (suc k + m) (c ∷ t))) in
          let nil' = ap utf8_length (append_nil (take m (drop k t))) in
          rw (fits, e) (omega (arith, more, alone, nil, nil', ih.0), omega (arith, alone, ih.1))
    ]

pub utf8_length-spaces :
    (n : ℕ) (t : Text) → utf8_length (replicate n space ++ t) ≡ n + utf8_length t
utf8_length-spaces zero t = omega arith
utf8_length-spaces (suc n) t = omega (arith, utf8_length-spaces n t)

utf8_length-pad_line : (width : ℕ) (line : Text) → utf8_length (pad_line width line) ≡ width
unfolding pad_line utf8_truncate
utf8_length-pad_line width line = elim (Bool-cases (width == 0)) [
  | inl none ↦ rw none (sym ((==_iff width 0).0 none))
  | inr some' ↦
      let kept = take (bytes_passed width line) line in
      let n = utf8_length kept in
      let padding = width - n in
      let right = replicate (padding - padding / 2) space in
      let whole = kept_whole width line right in
      let most = ap utf8_length (append_nil kept) in
      let spaces = utf8_length-spaces (padding - padding / 2) [] in
      let nil = ap utf8_length (append_nil right) in
      elim (Bool-cases (leb width n)) [
        | inl full ↦ rw (some', full) (omega (arith, leb→le width n full, whole.1, most))
        | inr short ↦
            rw (some', short)
              (omega (
                arith,
                utf8_length-spaces (padding / 2) (kept ++ right),
                whole.0,
                spaces,
                nil,
                whole.1,
                most,
              ))
      ]
]

no_room :
    (width : ℕ) (line : Text)
    → (width == 0) ≡ true
    → (pad_line width line ≡ []) × (utf8_truncate line width ≡ [])
unfolding pad_line
no_room width line e = (rw e refl, rw e refl)

has_room :
    (width : ℕ) (line : Text)
    → (width == 0) ≡ false
    → pad_line width line ≡ centered width (utf8_truncate line width)
unfolding pad_line
has_room width line e = rw e refl

abbrev IsCentered : Text → Text → Type 0
IsCentered kept shown =
    (left : ℕ) × (right : ℕ) × (shown ≡ replicate left space ++ (kept ++ replicate right space))
    × (left ≤ right)
    × (right ≤ left + 1)

centered-IsCentered : (width : ℕ) (kept : Text) → IsCentered kept (centered width kept)
centered-IsCentered width kept = elim (Bool-cases (leb width (utf8_length kept))) [
  | inl full ↦ (0, 0, rw full (sym (append_nil kept)), omega arith, omega arith)
  | inr short ↦
      let padding = width - utf8_length kept in
      (padding / 2, padding - padding / 2, rw short refl, omega arith, omega arith)
]

-- A padded line counts exactly as many characters as the display is wide, whatever its bytes: it is
-- the truncated line between spaces, on the right as many as on the left or one more.
pub pad_line_lem :
    (width : ℕ) (line : Text)
    → (left : ℕ) × (right : ℕ) × (pad_line width line
        ≡ replicate left space ++ (utf8_truncate line width ++ replicate right space))
      × (left ≤ right)
      × (right ≤ left + 1)
      × (utf8_length (pad_line width line) ≡ width)
pad_line_lem width line = elim (Bool-cases (width == 0)) [
  | inl none ↦
      let empty = no_room width line none in
      (0, 0, rw (empty.0, empty.1) refl, omega arith, omega arith, utf8_length-pad_line width line)
  | inr some' ↦
      let c = centered-IsCentered width (utf8_truncate line width) in
      (c.0, c.1, has_room width line some' ∙ c.2, c.3, c.4, utf8_length-pad_line width line)
]
