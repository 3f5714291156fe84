-- ===== src/Url/RoundTrip.antt =====
-- The host of a URL that was put together from its parts.
use fuelflux.Base.{
  ℕ, ◌+◌, ◌-◌, suc, ◌≡◌, refl, ◌∙◌, ap, arith, false, ◌==◌, [], ◌∷◌, ◌++◌, Option, none, some, Text,
  codes, take, drop, length, All, All-append, take-append, append_assoc, append_nil,
}
use fuelflux.Url.{
  find, rfind, find_text, after_scheme, before, after_last, is_bracketed, host_of, extract_host,
}

-- The character does not stand in the text.
abbrev pub Lacks : ℕ → Text → Type 0
Lacks c = All (λ d. (d == c) ≡ false)

pub data Host : Type 0 where
  name : Text → Host
  -- An IPv6 address, printed in brackets.
  literal : Text → Host

pub record Url : Type 0 where
  pub scheme : Text
  pub userinfo : Option Text
  pub host : Host
  pub port : Option Text
  -- The path, without its slash.
  pub path : Option Text

abbrev pub host_text : Host → Text
host_text (name t) = t
host_text (literal t) = t

abbrev pub print_host : Host → Text
print_host (name t) = t
print_host (literal t) = b'[' ∷ t ++ b']' ∷ []

abbrev pub print_userinfo : Option Text → Text
print_userinfo none = []
print_userinfo (some t) = t ++ b'@' ∷ []

abbrev pub print_port : Option Text → Text
print_port none = []
print_port (some t) = b':' ∷ t

abbrev pub print_path : Option Text → Text
print_path none = []
print_path (some t) = b'/' ∷ t

abbrev pub print_authority : Url → Text
print_authority u = print_userinfo u.userinfo ++ (print_host u.host ++ print_port u.port)

abbrev pub print_url : Url → Text
print_url u = u.scheme ++ (codes "://" ++ (print_authority u ++ print_path u.path))

abbrev pub IsHost : Host → Type 0
IsHost (name t) = Lacks b':' t × Lacks b'/' t × Lacks b'@' t × (is_bracketed t ≡ false)
IsHost (literal t) = Lacks b']' t × Lacks b'/' t × Lacks b'@' t

abbrev pub LacksIn : ℕ → Option Text → Type 0
LacksIn c none = Unit {0}
LacksIn c (some t) = Lacks c t

-- A URL whose parts can be told apart: the userinfo may hold colons and at signs.
pub record IsUrl (u : Url) : Type 0 where
  pub scheme_colon : Lacks b':' u.scheme
  pub userinfo_slash : LacksIn b'/' u.userinfo
  pub host_chars : IsHost u.host
  pub port_slash : LacksIn b'/' u.port
  pub port_at : LacksIn b'@' u.port

find-none : (c : ℕ) (s : Text) → Lacks c s → find c s ≡ none
unfolding find
find-none c [] h = refl
find-none c (d ∷ s) h = rw (h.0, find-none c s h.1) refl

find-first : (c : ℕ) (s t : Text) → Lacks c s → find c (s ++ c ∷ t) ≡ some (length s)
unfolding find
find-first c [] t h = ground arith
find-first c (d ∷ s) t h = rw (h.0, find-first c s t h.1) refl

rfind-none : (c : ℕ) (s : Text) → Lacks c s → rfind c s ≡ none
unfolding rfind
rfind-none c [] h = refl
rfind-none c (d ∷ s) h = ground (arith, rfind-none c s h.1)

rfind-last : (c : ℕ) (s t : Text) → Lacks c t → rfind c (s ++ c ∷ t) ≡ some (length s)
unfolding rfind
rfind-last c [] t h = ground (arith, rfind-none c t h)
rfind-last c (d ∷ s) t h = ground (arith, rfind-last c s t h)

find_text-first :
    (s t : Text)
    → Lacks b':' s
    → find_text (codes "://") (s ++ (codes "://" ++ t)) ≡ some (length s)
unfolding find_text
find_text-first [] t h = refl
find_text-first (d ∷ s) t h = ground (arith, find_text-first s t h.1)

drop-add : (n : ℕ) (s t : Text) → drop (length s + n) (s ++ t) ≡ drop n t
drop-add n [] t = ground arith
drop-add n (d ∷ s) t =
    let e : suc (length s) + n ≡ suc (length s + n) = omega arith in
    ap (λ k. drop k (d ∷ (s ++ t))) e ∙ drop-add n s t

before-none : (c : ℕ) (s : Text) → Lacks c s → before c s ≡ s
before-none c s h = rw (find-none c s h, before) refl

before-first : (c : ℕ) (s t : Text) → Lacks c s → before c (s ++ c ∷ t) ≡ s
before-first c s t h = rw (find-first c s t h, before) (take-append s (c ∷ t))

after_last-none : (c : ℕ) (s : Text) → Lacks c s → after_last c s ≡ s
after_last-none c s h = rw (rfind-none c s h, after_last) refl

after_last-last : (c : ℕ) (s t : Text) → Lacks c t → after_last c (s ++ c ∷ t) ≡ t
after_last-last c s t h = rw (rfind-last c s t h, after_last) (drop-add 1 s (c ∷ t))

after_scheme-lem : (s t : Text) → Lacks b':' s → after_scheme (s ++ (codes "://" ++ t)) ≡ t
after_scheme-lem s t h = rw (find_text-first s t h, after_scheme) (drop-add 3 s (codes "://" ++ t))

before-path : (s : Text) (p : Option Text) → Lacks b'/' s → before b'/' (s ++ print_path p) ≡ s
before-path s none h = rw (append_nil s) (before-none b'/' s h)
before-path s (some t) h = before-first b'/' s t h

after-userinfo :
    (u : Option Text) (s : Text) → Lacks b'@' s → after_last b'@' (print_userinfo u ++ s) ≡ s
after-userinfo none s h = after_last-none b'@' s h
after-userinfo (some t) s h = rw (append_assoc t (b'@' ∷ []) s) (after_last-last b'@' t s h)

host_of-name :
    (t : Text) (p : Option Text)
    → Lacks b':' t
    → is_bracketed t ≡ false
    → host_of (t ++ print_port p) ≡ t
unfolding host_of
host_of-name [] none h k = refl
host_of-name [] (some q) h k = refl
host_of-name (d ∷ t) none h k = rw (append_nil t) (rw k (before-none b':' (d ∷ t) h))
host_of-name (d ∷ t) (some q) h k = rw k (before-first b':' (d ∷ t) q h)

host_of-literal : (t r : Text) → Lacks b']' t → host_of (b'[' ∷ (t ++ b']' ∷ r)) ≡ t
unfolding host_of
host_of-literal t r h =
    let e : suc (length t) - 1 ≡ length t = omega arith in
    rw (find-first b']' (b'[' ∷ t) r (refl, h))
      (ap (λ k. take k (t ++ b']' ∷ r)) e ∙ take-append t (b']' ∷ r))

host_of-host :
    (t : Host) (p : Option Text) → IsHost t → host_of (print_host t ++ print_port p) ≡ host_text t
host_of-host (name t) p h = host_of-name t p h.0 h.3
host_of-host (literal t) p h =
    rw (append_assoc t (b']' ∷ []) (print_port p)) (host_of-literal t (print_port p) h.0)

Lacks-port : (c : ℕ) (p : Option Text) → (b':' == c) ≡ false → LacksIn c p → Lacks c (print_port p)
Lacks-port c none h k = tt
Lacks-port c (some t) h k = (h, k)

Lacks-host :
    (c : ℕ) (t : Host)
    → (b'[' == c) ≡ false
    → (b']' == c) ≡ false
    → Lacks c (host_text t)
    → Lacks c (print_host t)
Lacks-host c (name t) h k l = l
Lacks-host c (literal t) h k l = (h, All-append _ t (b']' ∷ []) l (k, tt))

Lacks-userinfo : (u : Option Text) → LacksIn b'/' u → Lacks b'/' (print_userinfo u)
Lacks-userinfo none h = tt
Lacks-userinfo (some t) h = All-append _ t (b'@' ∷ []) h (refl, tt)

IsHost-slash : (t : Host) → IsHost t → Lacks b'/' (host_text t)
IsHost-slash (name t) h = h.1
IsHost-slash (literal t) h = h.1

IsHost-at : (t : Host) → IsHost t → Lacks b'@' (host_text t)
IsHost-at (name t) h = h.2
IsHost-at (literal t) h = h.2

-- ExtractHostFromUrl gives back the host of a URL that was put together from a scheme, an optional
-- userinfo, a name or a bracketed IPv6 address, an optional port and an optional path, where no part
-- holds a character that ends it; the userinfo may hold colons and at signs.
pub extract_host-print : (u : Url) → IsUrl u → extract_host (print_url u) ≡ host_text u.host
unfolding extract_host
extract_host-print u v =
    let tail = print_host u.host ++ print_port u.port in
    let at : Lacks b'@' tail =
      All-append _ (print_host u.host) (print_port u.port)
        (Lacks-host b'@' u.host refl refl (IsHost-at u.host v.host_chars))
        (Lacks-port b'@' u.port refl v.port_at) in
    let slash : Lacks b'/' (print_authority u) =
      All-append _ (print_userinfo u.userinfo) tail (Lacks-userinfo u.userinfo v.userinfo_slash) (
        All-append _ (print_host u.host) (print_port u.port)
          (Lacks-host b'/' u.host refl refl (IsHost-slash u.host v.host_chars))
          (Lacks-port b'/' u.port refl v.port_slash)) in
    ap (λ s. host_of (after_last b'@' (before b'/' s)))
      (after_scheme-lem u.scheme (print_authority u ++ print_path u.path) v.scheme_colon)
    ∙ (ap (λ s. host_of (after_last b'@' s)) (before-path (print_authority u) u.path slash)
        ∙ (ap host_of (after-userinfo u.userinfo tail at)
            ∙ host_of-host u.host u.port v.host_chars))
