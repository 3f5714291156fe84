-- ===== src/Modem.antt =====
-- The helpers of src/backend.cpp in the build with a modem (TARGET_SIM800C): IsLocalhost,
-- ShouldBindToPppInterface, ExtractPortFromUrl and SetupDnsResolution.
pub mod Groups
use fuelflux.Base.{
  ℕ, ◌+◌, ◌-◌, ◌*◌, zero, suc, Bool, true, false, ◌==◌, if◌then◌else◌, ◌&&◌, ◌||◌, not, leb, ltb,
  List, [], ◌∷◌, ◌++◌, map, Option, none, some, Text, codes, take, drop, length, is_empty, text_eq,
  is_some, ℤ, pos, negsuc,
}
use fuelflux.Numbers.{stoi, to_string, value, leading_digits, int_max}
use fuelflux.Url.{find, find_text, begins_with}

abbrev pub between : ℕ → ℕ → ℕ → Bool
between a b c = leb a c && leb c b

-- std::tolower and std::isxdigit
abbrev pub to_lower : ℕ → ℕ
to_lower c = if between b'A' b'Z' c then c + 32 else c

abbrev pub is_hex : ℕ → Bool
is_hex c = between b'0' b'9' c || (between b'A' b'F' c || between b'a' b'f' c)

abbrev pub all_chars : (ℕ → Bool) → Text → Bool
all_chars p [] = true
all_chars p (c ∷ s) = p c && all_chars p s

abbrev pub hex_digit : ℕ → ℕ
hex_digit c =
    if between b'0' b'9' c then c - b'0' else if between b'A' b'F' c then c - 55 else c - 87

-- std::stoul(s, nullptr, 16) for hexadecimal digits
abbrev pub hex_value : ℕ → Text → ℕ
hex_value acc [] = acc
hex_value acc (c ∷ s) = hex_value (acc * 16 + hex_digit c) s

abbrev pub extend : ℕ → List Text → List Text
extend c [] = (c ∷ []) ∷ []
extend c (s ∷ ss) = (c ∷ s) ∷ ss

-- The segments between the colons.
pub segments : Text → List Text
segments [] = [] ∷ []
segments (c ∷ s) = if c == b':' then [] ∷ segments s else extend c (segments s)

-- A segment of one to four hexadecimal digits.
abbrev pub is_group : Text → Bool
is_group s = not (is_empty s) && (leb (length s) 4 && all_chars is_hex s)

-- What the loop over the first segments leaves in is_loopback: it ends at a segment that is no group,
-- and at one that is not zero.
pub zero_prefix : ℕ → List Text → Bool
zero_prefix zero ss = true
zero_prefix (suc n) [] = true
zero_prefix (suc n) (s ∷ ss) =
    let rest = zero_prefix n ss in
    if not (is_group s) then false else if not (all_chars (λ c. c == b'0') s) then true else rest

abbrev pub ends_in_one : List Text → Bool
ends_in_one [] = false
ends_in_one (s ∷ ss) = is_group s && (hex_value 0 s == 1)

pub is_full_loopback : List Text → Bool
unfolding zero_prefix
is_full_loopback ss = (length ss == 8) && (zero_prefix 7 ss && ends_in_one (drop 7 ss))

pub is_localhost : Text → Bool
unfolding segments is_full_loopback
is_localhost host =
    if text_eq (map to_lower host) (codes "localhost")
    then true
    else if begins_with (codes "127.") host
    then true
    else if text_eq host (codes "::1")
    then true
    else is_some (find b':' host) && is_full_loopback (segments host)

-- ShouldBindToPppInterface, given whether ppp0 is there
abbrev pub should_bind : Bool → Text → Bool
should_bind available host = if is_localhost host then false else available

abbrev pub default_port : Text → ℤ
default_port url = if text_eq (take 5 url) (codes "https") then pos 443 else pos 80

-- The position after a bracketed host.
abbrev pub host_end : Text → ℕ
host_end [] = 0
host_end (c ∷ s) = if c == b'[' then elim (find b']' (c ∷ s)) [ none ↦ 0 | some p ↦ p + 1 ] else 0

-- A position of the text after n, as a position of the text.
abbrev pub moved : ℕ → Option ℕ → Option ℕ
moved n none = none
moved n (some p) = some (n + p)

-- The text of the port, if there is one: it ends at the path.
abbrev pub port_text : Text → Option ℕ → Option ℕ → Option Text
port_text s none path = none
port_text s (some p) none = some (drop (p + 1) s)
port_text s (some p) (some q) = if ltb p q then some (take (q - p - 1) (drop (p + 1) s)) else none

abbrev neg_ℤ : ℕ → ℤ
neg_ℤ zero = pos 0
neg_ℤ (suc n) = negsuc n

abbrev pub is_blank : ℕ → Bool
is_blank c = c == 32 || between 9 13 c

abbrev pub skip_blanks : Text → Text
skip_blanks [] = []
skip_blanks (c ∷ s) = if is_blank c then skip_blanks s else c ∷ s

-- -v as an int, if it is one.
abbrev pub negated : Text → Option ℤ
negated digits =
    let v = value 0 digits in
    if is_empty digits then none else if leb v (int_max + 1) then some (neg_ℤ v) else none

abbrev pub signed : Text → Option ℤ
signed [] = none
signed (c ∷ s) =
    if c == b'-' then negated (leading_digits s) else if c == b'+' then stoi s else stoi (c ∷ s)

-- std::stoi on any text
abbrev pub read_int : Text → Option ℤ
read_int t = signed (skip_blanks t)

abbrev pub port_or : ℤ → Option Text → ℤ
port_or d none = d
port_or d (some t) = elim (read_int t) [ none ↦ d | some n ↦ n ]

pub extract_port : Text → ℤ
extract_port url = elim (find_text (codes "://") url) [
  | none ↦ pos 80
  | some p ↦
      let s = drop (p + 3) url in
      let n = host_end s in
      port_or (default_port url)
        (port_text s (moved n (find b':' (drop n s))) (moved n (find b'/' (drop n s))))
]

-- What SetupDnsResolution sets on the handle of libcurl.
pub data DnsSetup : Type 0 where
  -- CURLOPT_DNS_INTERFACE: ppp0
  dns_interface : DnsSetup
  -- CURLOPT_RESOLVE
  resolve : Text → DnsSetup
  unchanged : DnsSetup

-- `resolved` is what CaresResolver::Resolve has given for the host.
pub setup_dns_resolution : Text → Text → Text → DnsSetup
unfolding extract_port
setup_dns_resolution host url resolved =
    if is_empty resolved
    then dns_interface
    else if text_eq resolved host
    then unchanged
    else resolve (host ++ b':' ∷ (to_string (extract_port url) ++ b':' ∷ resolved))
