-- ===== src/Modem/Groups.antt =====
-- IsLocalhost on an IPv6 address in full.
use fuelflux.Base.{
  ℕ, zero, suc, ◌≡◌, refl, ◌∙◌, arith, Bool, true, false, ◌==◌, List, [], ◌∷◌, ◌++◌, is_some, Text,
  codes, length, drop, All, map, text_eq, ap, ◌||◌, append_nil,
}
use fuelflux.Url.{find, begins_with}
use fuelflux.Modem.{
  is_hex, all_chars, hex_value, segments, is_group, zero_prefix, ends_in_one, is_full_loopback,
  is_localhost, to_lower,
}

abbrev pub IsGroup : Text → Type 0
IsGroup s = is_group s ≡ true

-- The groups with colons between them.
abbrev pub join : List Text → Text
join [] = []
join (g ∷ []) = g
join (g ∷ h ∷ gs) = g ++ b':' ∷ join (h ∷ gs)

-- The value of a group, counted from 0.
abbrev pub nth_value : ℕ → List Text → ℕ
nth_value n gs = elim (drop n gs) [ [] ↦ 0 | g ∷ hs ↦ hex_value 0 g ]

hex-colon : (c : ℕ) → is_hex c ≡ true → (c == b':') ≡ false
hex-colon c h = ground (arith, h)

hex-cons :
    (c : ℕ) (s : Text)
    → all_chars is_hex (c ∷ s) ≡ true
    → (is_hex c ≡ true) × (all_chars is_hex s ≡ true)
hex-cons c s h = ground (arith, h)

segments-text : (s : Text) → all_chars is_hex s ≡ true → segments s ≡ s ∷ []
unfolding segments
segments-text [] h = refl
segments-text (c ∷ s) h =
    let h' = hex-cons c s h in rw (hex-colon c h'.0, segments-text s h'.1) refl

segments-append :
    (s t : Text) → all_chars is_hex s ≡ true → segments (s ++ b':' ∷ t) ≡ s ∷ segments t
unfolding segments
segments-append [] t h = refl
segments-append (c ∷ s) t h =
    let h' = hex-cons c s h in rw (hex-colon c h'.0, segments-append s t h'.1) refl

group-hex : (s : Text) → IsGroup s → all_chars is_hex s ≡ true
group-hex s h = ground (arith, h)

segments-join :
    (g : Text) (gs : List Text) → IsGroup g → All IsGroup gs → segments (join (g ∷ gs)) ≡ g ∷ gs
segments-join g [] h k = segments-text g (group-hex g h)
segments-join g (g' ∷ gs) h k =
    segments-append g (join (g' ∷ gs)) (group-hex g h)
    ∙ ap (λ l. g ∷ l) (segments-join g' gs k.0 k.1)

zero_prefix-groups : (n : ℕ) (gs : List Text) → All IsGroup gs → zero_prefix n gs ≡ true
unfolding zero_prefix
zero_prefix-groups zero gs h = refl
zero_prefix-groups (suc n) [] h = refl
zero_prefix-groups (suc n) (g ∷ gs) h = ground (arith, h.0, zero_prefix-groups n gs h.1)

abbrev is_plain : ℕ → Bool
is_plain c = is_hex c || c == b':'

plain-append :
    (s t : Text)
    → all_chars is_hex s ≡ true
    → all_chars is_plain t ≡ true
    → all_chars is_plain (s ++ t) ≡ true
plain-append [] t h k = k
plain-append (c ∷ s) t h k =
    let (first, rest) = hex-cons c s h in rw (first, plain-append s t rest k) refl

plain-join :
    (g : Text) (gs : List Text)
    → IsGroup g
    → All IsGroup gs
    → all_chars is_plain (join (g ∷ gs)) ≡ true
plain-join g [] h k = rw (← append_nil g) (plain-append g [] (group-hex g h) refl)
plain-join g (g' ∷ gs) h k =
    plain-append g (b':' ∷ join (g' ∷ gs)) (group-hex g h) (plain-join g' gs k.0 k.1)

plain-no_dot : (s : Text) → all_chars is_plain s ≡ true → begins_with (codes "127.") s ≡ false
plain-no_dot [] h = refl
plain-no_dot (a ∷ []) h = ground arith
plain-no_dot (a ∷ b ∷ []) h = ground arith
plain-no_dot (a ∷ b ∷ c ∷ []) h = ground arith
plain-no_dot (a ∷ b ∷ c ∷ d ∷ s) h = ground (arith, h)

-- A text that begins with a hexadecimal digit is no name and no short form.
hex-no_name :
    (c : ℕ) (s : Text)
    → is_hex c ≡ true
    → text_eq (map to_lower (c ∷ s)) (codes "localhost") ≡ false
hex-no_name c s h = let e : (to_lower c == b'l') ≡ false = ground (arith, h) in rw e refl

hex-no_short : (c : ℕ) (s : Text) → is_hex c ≡ true → text_eq (c ∷ s) (codes "::1") ≡ false
hex-no_short c s h = rw (hex-colon c h) refl

find-some : (c : ℕ) (s t : Text) → is_some (find c (s ++ c ∷ t)) ≡ true
unfolding find
find-some c [] t = ground arith
find-some c (d ∷ s) t = ground (arith, find-some c s t)

ends-eighth :
    (n : ℕ) (gs : List Text)
    → length gs ≡ suc n
    → All IsGroup gs
    → ends_in_one (drop n gs) ≡ (nth_value n gs == 1)
ends-eighth zero [] h k = absurd (omega (arith, h))
ends-eighth zero (g ∷ gs) h k = rw k.0 refl
ends-eighth (suc n) [] h k = absurd (omega (arith, h))
ends-eighth (suc n) (g ∷ gs) h k = ends-eighth n gs (omega (arith, h)) k.1

-- IsLocalhost takes an IPv6 address of eight groups, each of one to four hexadecimal digits, for
-- the local host exactly if the last group is 1, whatever the others are.
pub is_localhost-groups :
    (gs : List Text)
    → length gs ≡ 8
    → All IsGroup gs
    → is_localhost (join gs) ≡ (nth_value 7 gs == 1)
unfolding is_localhost is_full_loopback
is_localhost-groups [] h k = absurd (omega (arith, h))
is_localhost-groups ([] ∷ gs) h k = absurd (ground (arith, k.0))
is_localhost-groups ((c ∷ s) ∷ []) h k = absurd (omega (arith, h))
is_localhost-groups ((c ∷ s) ∷ g ∷ gs) h k =
    let first = (hex-cons c s (group-hex (c ∷ s) k.0)).0 in
    let t = s ++ b':' ∷ join (g ∷ gs) in
    rw
      (
        hex-no_name c t first,
        plain-no_dot (c ∷ t) (plain-join (c ∷ s) (g ∷ gs) k.0 k.1),
        hex-no_short c t first,
        find-some b':' (c ∷ s) (join (g ∷ gs)),
        segments-join (c ∷ s) (g ∷ gs) k.0 k.1,
        h,
        zero_prefix-groups 7 ((c ∷ s) ∷ g ∷ gs) k,
      )
      (ends-eighth 7 ((c ∷ s) ∷ g ∷ gs) h k)
