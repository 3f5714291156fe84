-- ===== src/Devices/Keyboard/Scan.antt =====
-- scanKey of src/peripherals/keyboard.cpp, and charToKeyCode of
-- include/peripherals/keyboard_utils.h.
use fuelflux.Base.{
  ℕ, ◌+◌, ◌-◌, ◌*◌, ◌/◌, ◌%◌, ◌^◌, Bool, true, false, ◌==◌, ◌&&◌, if◌then◌else◌, leb, List, [], ◌∷◌,
  Option, none, some, zero, suc, Text, codes,
}
use fuelflux.Types.{KeyCode, digit, key_max, key_clear, key_start, key_stop, key_display_reset}

-- std::toupper, in the C locale
abbrev pub to_upper : ℕ → ℕ
to_upper c = if leb b'a' c && leb c b'z' then c - 32 else c

-- `none` is the code 0.
unfoldable pub char_to_key_code : ℕ → Option KeyCode
char_to_key_code c =
    let u = to_upper c in
    if leb b'0' u && leb u b'9'
    then some (digit c)
    else if u == b'*'
    then some key_max
    else if u == b'#'
    then some key_clear
    else if u == b'A'
    then some key_start
    else if u == b'B'
    then some key_stop
    else if u == b'D'
    then some key_display_reset
    else none

abbrev pub row_of : ℕ → List Text → Text
row_of r [] = []
row_of zero (t ∷ ts) = t
row_of (suc r) (t ∷ ts) = row_of r ts

abbrev pub char_of : ℕ → Text → ℕ
char_of c [] = 0
char_of zero (k ∷ ks) = k
char_of (suc c) (k ∷ ks) = char_of c ks

-- kKeymap, for a row and a column below 4.
abbrev pub keymap : ℕ → ℕ → ℕ
keymap r c = char_of c (row_of r (codes "123A" ∷ codes "456B" ∷ codes "789C" ∷ codes "*0#D" ∷ []))

-- kColMask, and the bits of a byte under it
abbrev pub col_mask : ℕ
col_mask = 240

abbrev pub masked : ℕ → ℕ
masked v = v / 16 % 16 * 16

-- The key of the first column that is pulled low.
abbrev pub low_column : ℕ → ℕ → List ℕ → Option ℕ
low_column r cols [] = none
low_column r cols (c ∷ cs) =
    if cols / 2 ^ (4 + c) % 2 == 0 then some (keymap r c) else low_column r cols cs

abbrev pub key_in_row : ℕ → ℕ → Option ℕ
key_in_row r v = if masked v == col_mask then none else low_column r (masked v) (0 ∷ 1 ∷ 2 ∷ 3 ∷ [])

-- The expander during a scan: what its port reads while a row is driven, and whether the rows can
-- be released in the end; `none` and `false` are exceptions.
pub record Expander : Type 0 where
  pub read_row : ℕ → Option ℕ
  pub released : Bool

-- A key, or no key.
abbrev pub Found : Type 0
Found = Option ℕ

abbrev found_or : Found → Option Found → Option Found
found_or none rest = rest
found_or (some k) rest = some (some k)

abbrev row_or : ℕ → Option ℕ → Option Found → Option Found
row_or r none rest = none
row_or r (some v) rest = found_or (key_in_row r v) rest

abbrev pub scan_rows : Expander → List ℕ → Option Found
scan_rows e [] = some none
scan_rows e (r ∷ rs) = row_or r (e.read_row r) (scan_rows e rs)

abbrev finish : Bool → Option Found → Option Found
finish true f = f
finish false f = none

-- `none` is an exception.
unfoldable pub scan_key : Expander → Option Found
scan_key e = finish e.released (scan_rows e (0 ∷ 1 ∷ 2 ∷ 3 ∷ []))
