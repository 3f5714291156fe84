-- ===== src/Numbers.antt =====
-- What the controller takes from the C++ library on numbers and text: std::stoi and std::stod on
-- the digits that the keypad enters, std::to_string, the conversion of a double to int, and
-- std::fixed with two digits (Controller::formatVolume).
pub mod RoundTrip
use fuelflux.Base.{
  ℕ, zero, suc, ◌+◌, ◌-◌, ◌*◌, ◌/◌, ◌%◌, ◌^◌, Bool, ◌&&◌, ltb, leb, ◌==◌, if◌then◌else◌, List, [],
  ◌∷◌, ◌++◌, Option, none, some, ℤ, pos, negsuc, pos_part, neg_part, Text, codes, is_empty, String,
}
use fuelflux.Types.{Volume}

unfoldable pub is_digit : ℕ → Bool
is_digit c = leb b'0' c && leb c b'9'

-- The digits that a text begins with: what std::stoi and std::stod read of an input without sign,
-- point or exponent.
unfoldable pub leading_digits : Text → Text
unfolding is_digit
leading_digits [] = []
leading_digits (c ∷ s) = if is_digit c then c ∷ leading_digits s else []

unfoldable pub value : ℕ → Text → ℕ
value acc [] = acc
value acc (c ∷ s) = value (acc * 10 + (c - b'0')) s

abbrev pub int_max : ℕ
int_max = 2147483647

-- std::stoi; `none` is std::invalid_argument or std::out_of_range.
unfoldable pub stoi : Text → Option ℤ
stoi s =
    let v = value 0 (leading_digits s) in
    if is_empty (leading_digits s) then none else if leb v int_max then some (pos v) else none

-- One litre, in units of 2^-1074.
unfoldable pub litre : ℕ
litre = 2 ^ 1074

-- The number of binary digits, with fuel.
pub bits : ℕ → ℕ → ℕ
bits zero n = 0
bits (suc f) n = let rest = bits f (n / 2) in if n == 0 then 0 else suc rest

-- n / d to the nearest integer, ties to even.
abbrev pub round_div : ℕ → ℕ → ℕ
round_div n d =
    let q = n / d in
    let r = n % d in if ltb (2 * r) d then q else if ltb d (2 * r) then q + 1 else q + q % 2

-- The nearest integer with 53 significant binary digits.
unfoldable pub round_double : ℕ → ℕ
unfolding bits
round_double n = let k = bits n n - 53 in round_div n (2 ^ k) * 2 ^ k

-- a - b as an integer.
abbrev pub sub_ℤ : ℤ → ℤ → ℤ
sub_ℤ a b =
    let m = pos_part a + neg_part b in
    let n = pos_part b + neg_part a in if leb n m then pos (m - n) else negsuc (n - m - 1)

-- a + b as an integer.
abbrev pub add_ℤ : ℤ → ℤ → ℤ
add_ℤ a b =
    let m = pos_part a + pos_part b in
    let n = neg_part a + neg_part b in if leb n m then pos (m - n) else negsuc (n - m - 1)

-- -n
abbrev pub negate : ℕ → ℤ
negate zero = pos 0
negate (suc n) = negsuc n

-- The nearest double to a multiple of 2^-1074 (no overflow).
unfoldable pub round_volume : ℤ → Volume
round_volume (pos n) = pos (round_double n)
round_volume (negsuc n) = negate (round_double (suc n))

-- The double operations a - b and a + b.
abbrev pub sub_double : Volume → Volume → Volume
sub_double a b = round_volume (sub_ℤ a b)

abbrev pub add_double : Volume → Volume → Volume
add_double a b = round_volume (add_ℤ a b)

-- The nearest double to the product of two magnitudes in units, and the double operation a * b.
abbrev pub mul_units : ℕ → ℕ → ℕ
mul_units a b =
    let k = bits (a * b / litre) (a * b / litre) - 53 in round_div (a * b) (litre * 2 ^ k) * 2 ^ k

pub mul_double : Volume → Volume → Volume
mul_double (pos a) (pos b) = pos (mul_units a b)
mul_double (pos a) (negsuc b) = negate (mul_units a (suc b))
mul_double (negsuc a) (pos b) = negate (mul_units (suc a) b)
mul_double (negsuc a) (negsuc b) = pos (mul_units (suc a) (suc b))

-- static_cast<double>(n) / d for integers: the nearest double to n / d litres.
pub div_double : ℕ → ℕ → Volume
div_double n d =
    let k = bits (n * litre / d) (n * litre / d) - 53 in
    pos (round_div (n * litre) (d * 2 ^ k) * 2 ^ k)

-- std::stod, in litres; 2^1024 and above is out of range.
unfoldable pub stod : Text → Option Volume
stod s =
    let d = round_double (value 0 (leading_digits s)) in
    if is_empty (leading_digits s)
    then none
    else if ltb d (2 ^ 1024)
    then some (pos (d * litre))
    else none

-- Decimal digits, with fuel.
pub print_digits : ℕ → ℕ → Text
print_digits zero n = []
print_digits (suc f) n =
    let rest = print_digits f (n / 10) ++ (n % 10 + b'0') ∷ [] in
    if ltb n 10 then (n + b'0') ∷ [] else rest

pub print_ℕ : ℕ → Text
unfolding print_digits
print_ℕ n = print_digits (suc n) n

-- std::to_string(int)
pub to_string : ℤ → Text
to_string (pos n) = print_ℕ n
to_string (negsuc n) = b'-' ∷ print_ℕ (suc n)

-- static_cast<int>(double), for a volume that an int can hold: towards zero.
pub to_int : Volume → ℤ
to_int (pos n) = pos (n / litre)
to_int (negsuc n) = negate (suc n / litre)

-- Two digits.
abbrev pub two_digits : ℕ → Text
two_digits n = (n / 10 + b'0') ∷ (n % 10 + b'0') ∷ []

-- The magnitude with two decimals.
abbrev pub fixed2 : ℕ → Text
fixed2 n = print_ℕ (n / 100) ++ (b'.' ∷ two_digits (n % 100))

-- Controller::formatVolume
pub format_volume : Volume → Text
format_volume (pos n) = fixed2 (round_div (100 * n) litre) ++ codes " л"
format_volume (negsuc n) = b'-' ∷ fixed2 (round_div (100 * suc n) litre) ++ codes " л"
