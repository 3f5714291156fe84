-- ===== src/Url.antt =====
-- src/url_utils.cpp: ExtractHostFromUrl. A string_view is
-- a text, and a position an index into it.
pub mod RoundTrip
use fuelflux.Base.{
  ℕ, ◌+◌, ◌-◌, zero, suc, Bool, true, false, ◌==◌, if◌then◌else◌, ◌&&◌, List, [], ◌∷◌, Option, none,
  some, Text, codes, take, drop, ltb, text_eq, ℤ, pos,
}
use fuelflux.Base.{length}

abbrev pub shifted : Option ℕ → Option ℕ
shifted none = none
shifted (some p) = some (suc p)

-- find(c)
unfoldable pub find : ℕ → Text → Option ℕ
find c [] = none
find c (d ∷ s) = if d == c then some 0 else shifted (find c s)

-- rfind(c)
pub rfind : ℕ → Text → Option ℕ
rfind c [] = none
rfind c (d ∷ s) = elim (rfind c s) [
  | some p ↦ some (suc p)
  | none ↦ if d == c then some 0 else none
]

abbrev pub begins_with : Text → Text → Bool
begins_with [] s = true
begins_with (c ∷ t) [] = false
begins_with (c ∷ t) (d ∷ s) = (d == c) && begins_with t s

-- find(t) for a text that is not empty
pub find_text : Text → Text → Option ℕ
find_text t [] = none
find_text t (d ∷ s) = if begins_with t (d ∷ s) then some 0 else shifted (find_text t s)

-- What follows the scheme, if there is one.
abbrev pub after_scheme : Text → Text
after_scheme url = elim (find_text (codes "://") url) [ none ↦ url | some p ↦ drop (p + 3) url ]

-- The text before the first c, or the whole text.
abbrev pub before : ℕ → Text → Text
before c s = elim (find c s) [ none ↦ s | some p ↦ take p s ]

-- The text after the last c, or the whole text.
abbrev pub after_last : ℕ → Text → Text
after_last c s = elim (rfind c s) [ none ↦ s | some p ↦ drop (p + 1) s ]

abbrev pub is_bracketed : Text → Bool
is_bracketed [] = false
is_bracketed (c ∷ s) = c == b'['

-- The host of an authority without userinfo: what stands in brackets, or before the port.
pub host_of : Text → Text
unfolding find
host_of a =
    if is_bracketed a
    then elim (find b']' a) [ none ↦ before b':' a | some p ↦ take (p - 1) (drop 1 a) ]
    else before b':' a

pub extract_host : Text → Text
unfolding find rfind find_text host_of
extract_host url = host_of (after_last b'@' (before b'/' (after_scheme url)))
