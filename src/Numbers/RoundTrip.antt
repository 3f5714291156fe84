-- ===== src/Numbers/RoundTrip.antt =====
-- Printing and reading of decimal numbers are inverse, and small numbers are exact doubles.
use native.Mathlib.Nat.{pow-suc}
use fuelflux.Base.{
  ap, ℕ, zero, suc, ◌+◌, ◌-◌, ◌*◌, ◌/◌, ◌%◌, ◌^◌, ◌≤◌, ◌<◌, ◌≡◌, refl, true, false, ltb, ◌==◌, [],
  ◌∷◌, ◌++◌, some, pos, Text, arith, Bool-cases, is_empty, lt→ltb, inl, inr, All, All-append,
}
use fuelflux.Numbers.{
  is_digit, leading_digits, value, stoi, int_max, litre, bits, round_double, stod, to_int,
  print_digits, print_ℕ, to_string,
}

-- The text holds digits only.
abbrev pub IsDigits : Text → Type 0
IsDigits = All (λ c. is_digit c ≡ true)

pub leading_digits-IsDigits : (s : Text) → IsDigits s → leading_digits s ≡ s
unfolding leading_digits
leading_digits-IsDigits [] h = refl
leading_digits-IsDigits (c ∷ s) h = rw (h.0, leading_digits-IsDigits s h.1)

value-append : (acc : ℕ) (s t : Text) → value acc (s ++ t) ≡ value (value acc s) t
unfolding value
value-append acc [] t = refl
value-append acc (c ∷ s) t = value-append (acc * 10 + (c - b'0')) s t

print_digits-IsDigits : (f n : ℕ) → IsDigits (print_digits f n)
unfolding print_digits is_digit
print_digits-IsDigits zero n = tt
print_digits-IsDigits (suc f) n = elim (Bool-cases (ltb n 10)) [
  | inl small ↦ rw small (ground arith, tt)
  | inr large ↦ rw large (
      All-append (λ c. is_digit c ≡ true) (print_digits f (n / 10)) _
        (print_digits-IsDigits f (n / 10)) (ground arith, tt))
]

value-print_digits : (f n : ℕ) → n < f → value 0 (print_digits f n) ≡ n
unfolding print_digits value
value-print_digits zero n h = elim h [ ]
value-print_digits (suc f) n h = elim (Bool-cases (ltb n 10)) [
  | inl small ↦ rw small (omega arith)
  | inr large ↦
      rw (large, value-append 0 (print_digits f (n / 10)) ((n % 10 + b'0') ∷ []))
        (ground (arith, value-print_digits f (n / 10)))
]

pub print_ℕ-IsDigits : (n : ℕ) → IsDigits (print_ℕ n)
unfolding print_ℕ
print_ℕ-IsDigits n = print_digits-IsDigits (suc n) n

pub value-print_ℕ : (n : ℕ) → value 0 (print_ℕ n) ≡ n
unfolding print_ℕ
value-print_ℕ n = value-print_digits (suc n) n (omega arith)

bits-le : (k f n : ℕ) → n < 2 ^ k → bits f n ≤ k
unfolding bits
bits-le k zero n h = omega arith
bits-le zero (suc f) n h = elim (Bool-cases (n == 0)) [
  | inl done ↦ rw done (omega arith)
  | inr more ↦ absurd (ground arith)
]
bits-le (suc k) (suc f) n h = elim (Bool-cases (n == 0)) [
  | inl done ↦ rw done (omega arith)
  | inr more ↦ rw more (omega (arith, bits-le k f (n / 2) (omega (arith, pow-suc 2 k))))
]

-- A number below 2^53 is a double.
pub round_double_exact : (n : ℕ) → n < 2 ^ 53 → round_double n ≡ n
unfolding round_double
round_double_exact n h =
    let small : bits n n - 53 ≡ 0 = omega (arith, bits-le 53 n n h) in rw small (ground arith)

is_empty-append : (s : Text) (c : ℕ) → is_empty (s ++ c ∷ []) ≡ false
is_empty-append [] c = refl
is_empty-append (x ∷ s) c = refl

pub is_empty-print_ℕ : (n : ℕ) → is_empty (print_ℕ n) ≡ false
unfolding print_ℕ print_digits
is_empty-print_ℕ n = elim (Bool-cases (ltb n 10)) [
  | inl small ↦ rw small refl
  | inr large ↦ rw large (is_empty-append (print_digits n (n / 10)) _)
]

-- std::to_string and std::stoi: an int that is not negative comes back.
pub stoi-to_string : (n : ℕ) → n ≤ int_max → stoi (to_string (pos n)) ≡ some (pos n)
unfolding stoi to_string
stoi-to_string n h =
    rw
      (
        leading_digits-IsDigits (print_ℕ n) (print_ℕ-IsDigits n),
        value-print_ℕ n,
        is_empty-print_ℕ n,
      )
      (ground arith)

stod_lem :
    (n d : ℕ) (s : Text)
    → leading_digits s ≡ s
    → is_empty s ≡ false
    → value 0 s ≡ n
    → round_double n ≡ d
    → d < 2 ^ 1024
    → stod s ≡ some (pos (d * litre))
unfolding stod
stod_lem n d s l e v r b = rw (l, v, r, e, lt→ltb d (2 ^ 1024) b)

-- std::stod of a digit string below 2^53 is exactly that many litres.
pub stod-digits :
    (s : Text)
    → IsDigits s
    → is_empty s ≡ false
    → value 0 s < 2 ^ 53
    → stod s ≡ some (pos (value 0 s * litre))
stod-digits s d e h =
    stod_lem (value 0 s) (value 0 s) s (leading_digits-IsDigits s d) e refl
      (round_double_exact (value 0 s) h) (omega arith)

-- The int that a whole number of litres is cast to.
pub to_string-to_int : (n : ℕ) → to_string (to_int (pos (n * litre))) ≡ print_ℕ n
unfolding to_string to_int litre
to_string-to_int n = ap print_ℕ (omega arith)
