-- ===== src/Panel/St7565/Screen.antt =====
-- What the panel shows after a framebuffer was sent.
use Prim.Native.Nat.{bit_or}
use native.Mathlib.Nat.{mul-le-mul_right}
use fuelflux.Base.{
  ◌⊎◌, ℕ, ◌+◌, ◌-◌, ◌*◌, ◌/◌, ◌%◌, ◌<◌, ◌≤◌, zero, suc, ◌≡◌, refl, sym, ap, ◌∙◌, arith, Bool, true,
  false, ◌==◌, ◌&&◌, ◌||◌, if◌then◌else◌, leb, ltb, List, [], ◌∷◌, ◌++◌, some, All, length, take,
  drop, pos, Bool-cases, if-and_true, inl, inr, ==_iff, length-drop,
}
use fuelflux.Pixels.{Byte, byte_at, count_from, get_pixel, index}
use fuelflux.Pixels.Slices.{length-take_all, byte_at-take, byte_at-drop}
use fuelflux.FourLine.Cleared.{elem}
use fuelflux.FourLine.Margins.{page-elem, inside}
use fuelflux.Panel.{Sent, command, bytes, columns, reset_line, pause}
use fuelflux.Panel.St7565.{page_writes, pages_writes, set_framebuffer}

-- The memory of the panel by page and column, and the place of the next write.
pub record Screen : Type 0 where
  pub page : ℕ
  pub column : ℕ
  pub ram : ℕ → ℕ → Byte

-- The commands 0xB0 to 0xBF choose a page, 0x10 to 0x1F the high half of a column and 0x00 to 0x0F
-- the low half; the others leave the memory as it is. Data goes to the columns from there on.
abbrev pub on_command : Screen → ℕ → Screen
on_command s c =
    if c / 16 == 11
    then record s { page = c % 16 }
    else if c / 16 == 1
    then record s { column = c % 16 * 16 + s.column % 16 }
    else if c / 16 == 0
    then record s { column = s.column / 16 * 16 + c % 16 }
    else s

abbrev pub on_columns : Screen → List Byte → Screen
on_columns s bs = record s {
  column = s.column + length bs;
  ram = λ p z.
      if (p == s.page) && (leb s.column z && ltb z (s.column + length bs))
      then byte_at (z - s.column) bs
      else s.ram p z;
}

abbrev pub receive : Screen → List Sent → Screen
receive s [] = s
receive s (command c ∷ ws) = receive (on_command s c) ws
receive s (columns bs ∷ ws) = receive (on_columns s bs) ws
receive s (bytes bs ∷ ws) = receive s ws
receive s (reset_line on ∷ ws) = receive s ws
receive s (pause ms ∷ ws) = receive s ws

receive-append : (s : Screen) (vs ws : List Sent) → receive s (vs ++ ws) ≡ receive (receive s vs) ws
receive-append s [] ws = refl
receive-append s (command c ∷ vs) ws = receive-append (on_command s c) vs ws
receive-append s (columns bs ∷ vs) ws = receive-append (on_columns s bs) vs ws
receive-append s (bytes bs ∷ vs) ws = receive-append s vs ws
receive-append s (reset_line on ∷ vs) ws = receive-append s vs ws
receive-append s (pause ms ∷ vs) ws = receive-append s vs ws

-- The page commands up to this page have their number in the low bits.
numbered : ℕ → Bool
numbered zero = true
numbered (suc page) = if bit_or 0xB0 page % 256 == 176 + page then numbered page else false

last_or_before : (page n : ℕ) → page < suc n → (page ≡ n) ⊎ (page < n)
last_or_before page n h = omega (arith, h)

numbered-command : (n page : ℕ) → page < n → numbered n ≡ true → bit_or 0xB0 page % 256 ≡ 176 + page
unfolding numbered
numbered-command zero page h k = absurd (omega (arith, h))
numbered-command (suc n) page h k = elim (Bool-cases (bit_or 0xB0 n % 256 == 176 + n)) [
  | inl found ↦ elim (last_or_before page n h) [
    | inl last ↦ rw last ((==_iff (bit_or 0xB0 n % 256) (176 + n)).0 found)
    | inr less ↦ numbered-command n page less (rw found at k)
  ]
  | inr wrong ↦ cc
]

page_command : (p : ℕ) → p < 16 → bit_or 0xB0 p % 256 ≡ 176 + p
unfolding numbered
page_command p h = numbered-command 16 p h refl

abbrev at_page : Screen → ℕ → Screen
at_page s p = record { page = p; column = 0; ram = s.ram }

choose_page : (s : Screen) (c p : ℕ) → c ≡ 176 + p → p < 16 → on_command s c ≡ record s { page = p }
choose_page s c p e h = ground (arith, e, h)

choose_column : (s : Screen) → on_command (on_command s 0x10) 0x00 ≡ record s { column = 0 }
choose_column s = ground arith

-- One page takes its row of the framebuffer, and the others stay.
write_row :
    (r : ℕ → ℕ → Byte) (w : ℕ) (row : List Byte) (p q z : ℕ)
    → length row ≡ w
    → z < w
    → (on_columns (record { page = p; column = 0; ram = r }) row).ram q z
      ≡ (if q == p then byte_at z row else r q z)
write_row r w row p q z e hz =
    let e0 : z - 0 ≡ z = omega arith in
    let e1 : leb 0 z ≡ true = ground arith in
    let e2 : ltb z (0 + length row) ≡ true = ground (arith, e, hz) in
    rw (e0, e1, e2) (if-and_true (q == p) (byte_at z row) (r q z))

same_byte :
    (w : ℕ) (fb row : List Byte) (p q z : ℕ) (r : ℕ → ℕ → Byte)
    → byte_at z row ≡ byte_at (index w z p) fb
    → (if q == p then byte_at z row else r q z)
      ≡ (if q == p then byte_at (index w z q) fb else r q z)
same_byte w fb row p q z r h = elim (Bool-cases (q == p)) [
  | inl e ↦ rw e (h ∙ ap (λ t. byte_at (index w z t) fb) (sym ((==_iff q p).0 e)))
  | inr e ↦ rw e refl
]

page_writes-ram :
    (s : Screen) (w : ℕ) (fb : List Byte) (p q z : ℕ)
    → p < 16
    → p * w + w ≤ length fb
    → z < w
    → (receive s (page_writes w fb p)).ram q z
      ≡ (if q == p then byte_at (index w z q) fb else s.ram q z)
page_writes-ram s w fb p q z hp room hz =
    let row = take w (drop (p * w) fb) in
    let e : (0 + s.column % 16) / 16 * 16 + 0 ≡ 0 = omega arith in
    let full : length row ≡ w =
      length-take_all w (drop (p * w) fb) (omega (arith, length-drop (p * w) fb, room)) in
    rw (choose_page s (bit_or 0xB0 p % 256) p (page_command p hp) hp, e)
      (write_row s.ram w row p q z full hz
        ∙ same_byte w fb row p q z s.ram
            (byte_at-take z w (drop (p * w) fb) hz ∙ byte_at-drop z (p * w) fb))

==_sym : (p q : ℕ) → (p == q) ≡ (q == p)
==_sym p q = ground arith

also :
    {b c : Bool} (e : Bool) (x y : Byte)
    → b ≡ c
    → (if e then x else (if b then x else y)) ≡ (if c || e then x else y)
also {b = b} {c = true} true x y h = refl
also {b = b} {c = false} true x y h = refl
also {b = b} {c = true} false x y h = rw h refl
also {b = b} {c = false} false x y h = rw h refl

-- The column after a page is the next one, so the pages may follow in any order.
pub pages_writes-ram :
    (s : Screen) (w : ℕ) (fb : List Byte) (ps : List ℕ) (q z : ℕ)
    → All (λ p. (p < 16) × (p * w + w ≤ length fb)) ps
    → z < w
    → (receive s (pages_writes w fb ps)).ram q z
      ≡ (if elem q ps then byte_at (index w z q) fb else s.ram q z)
pages_writes-ram s w fb [] q z h hz = refl
pages_writes-ram s w fb (p ∷ ps) q z h hz =
    rw
      (
        receive-append s (page_writes w fb p) (pages_writes w fb ps),
        pages_writes-ram (receive s (page_writes w fb p)) w fb ps q z h.1 hz,
        page_writes-ram s w fb p q z h.0.0 h.0.1 hz,
      )
      (also (elem q ps) (byte_at (index w z q) fb) (s.ram q z) (==_sym q p))

pages_fit :
    (w h a n : ℕ) (fb : List Byte)
    → length fb ≡ w * (h / 8)
    → h ≤ 128
    → a + n ≡ h / 8
    → All (λ p. (p < 16) × (p * w + w ≤ length fb)) (count_from a n)
pages_fit w h a zero fb size top e = tt
pages_fit w h a (suc n) fb size top e =
    let k : (a + 1) * w ≤ (h / 8) * w = mul-le-mul_right w (omega (arith, e)) in
    (
      (omega (arith, e, top), grind (arith, k, size)),
      pages_fit w h (suc a) n fb size top (omega (arith, e)),
    )

-- A framebuffer of the panel's size is taken, and afterwards, whatever the panel showed before,
-- each pixel of the panel, of at most 128 rows in whole pages, is the pixel of the framebuffer.
pub set_framebuffer_lem :
    (s : Screen) (w h : ℕ) (fb : List Byte) (x y : ℕ)
    → length fb ≡ w * (h / 8)
    → h ≤ 128
    → h % 8 ≡ 0
    → x < w
    → y < h
    → (ws : List Sent) × (set_framebuffer w h fb ≡ some ws)
      × ((receive s ws).ram (y / 8) x (y % 8) ≡ get_pixel fb w h (pos x) (pos y))
unfolding set_framebuffer get_pixel
set_framebuffer_lem s w h fb x y size top whole hx hy =
    let taken : (length fb == w * (h / 8)) ≡ true = (==_iff (length fb) (w * (h / 8))).1 size in
    let all =
      pages_writes-ram s w fb (count_from 0 (h / 8)) (y / 8) x
        (pages_fit w h 0 (h / 8) fb size top (omega arith)) hx in
    let found = page-elem y h hy whole in
    (
      pages_writes w fb (count_from 0 (h / 8)),
      rw taken refl,
      rw (all, found, inside w h x y hx hy) refl,
    )
