-- ===== src/Panel/Ili9488/Image.antt =====
-- What the panel is sent as pixels.
use native.Mathlib.Nat.{mul-le-mul_right}
use fuelflux.Base.{
  ℕ, ◌+◌, ◌-◌, ◌*◌, ◌/◌, ◌%◌, ◌<◌, ◌≤◌, zero, suc, ◌≡◌, refl, sym, ap, ◌∙◌, arith, Bool, true,
  false, ◌==◌, if◌then◌else◌, leb, ltb, List, [], ◌∷◌, ◌++◌, some, length, drop, take-drop,
  drop-drop, pos,
}
use fuelflux.Pixels.{Byte, count_from, get_pixel}
use fuelflux.Panel.{Sent, command, bytes, columns, reset_line, pause}
use fuelflux.Panel.Rgb.{size_max}
use fuelflux.Panel.Rgb.Writes.{at, channel}
use fuelflux.Panel.Rgb.Image.{mono_to_rgb666_lem}
use fuelflux.Panel.Ili9488.{send_rows, whole_window, set_mono_framebuffer}

-- The bytes sent after the memory write command, 0x2C, up to the next command; those after other
-- commands are its arguments.
abbrev pub pixel_data : Bool → List Sent → List ℕ
pixel_data writing [] = []
pixel_data writing (command c ∷ ws) = pixel_data (c == 0x2C) ws
pixel_data true (bytes bs ∷ ws) = bs ++ pixel_data true ws
pixel_data false (bytes bs ∷ ws) = pixel_data false ws
pixel_data writing (columns bs ∷ ws) = pixel_data writing ws
pixel_data writing (reset_line on ∷ ws) = pixel_data writing ws
pixel_data writing (pause ms ∷ ws) = pixel_data writing ws

drop_all : (n : ℕ) (xs : List ℕ) → length xs ≤ n → drop n xs ≡ []
drop_all zero [] h = refl
drop_all zero (x ∷ xs) h = absurd (omega (arith, h))
drop_all (suc n) [] h = refl
drop_all (suc n) (x ∷ xs) h = drop_all n xs (omega (arith, h))

-- The rows from this one on hold the rest of the image.
pixel_data-send_rows :
    (line a n : ℕ) (rgb : List ℕ)
    → 0 < line
    → length rgb ≡ (a + n) * line
    → pixel_data true (send_rows line rgb (count_from a n)) ≡ drop (a * line) rgb
pixel_data-send_rows line a zero rgb hl size = sym (drop_all (a * line) rgb (grind (arith, size)))
pixel_data-send_rows line a (suc n) rgb hl size =
    let next : (a + 1) * line ≤ (a + suc n) * line = mul-le-mul_right line (omega arith) in
    let e1 : leb (length rgb) (a * line) ≡ false = grind (arith, next, size, hl) in
    let e2 : ltb (length rgb - a * line) line ≡ false = grind (arith, next, size, hl) in
    let e3 : (line == 0) ≡ false = ground (arith, hl) in
    let e4 : suc a * line ≡ a * line + line = grind arith in
    let rest =
      pixel_data-send_rows line (suc a) n rgb hl
        (size ∙ ap (λ t. t * line) (let e : a + suc n ≡ suc a + n = omega arith in e)) in
    rw (e1, e2, e3, rest, e4, ← drop-drop (a * line) line rgb)
      (take-drop line (drop (a * line) rgb))

-- A framebuffer of the right size, for dimensions that are not zero, of whole pages and of at most
-- SIZE_MAX / 3 pixels, is taken, and the panel is sent three bytes for each pixel, row by row: the
-- red, green and blue of the one colour where the pixel is on and of the other where it is off.
pub set_mono_framebuffer_lem :
    (fb : List Byte) (w h fg bg x y k : ℕ)
    → length fb ≡ w * (h / 8)
    → h % 8 ≡ 0
    → w * h ≤ size_max / 3
    → x < w
    → y < h
    → k < 3
    → (ws : List Sent) × (set_mono_framebuffer w h fb fg bg ≡ some ws)
      × (length (pixel_data false ws) ≡ w * h * 3)
      × (at ((y * w + x) * 3 + k) (pixel_data false ws)
          ≡ (channel k (if get_pixel fb w h (pos x) (pos y) then fg else bg)))
unfolding set_mono_framebuffer
set_mono_framebuffer_lem fb w h fg bg x y k size whole small hx hy hk =
    let r = mono_to_rgb666_lem fb w h fg bg x y k size whole small hx hy hk in
    let sent = pixel_data-send_rows (w * 3) 0 h r.0 (omega (arith, hx)) (grind (arith, r.2)) in
    let e0 : 0 * (w * 3) ≡ 0 = omega arith in
    (
      whole_window w h ++ send_rows (w * 3) r.0 (count_from 0 h),
      rw r.1 refl,
      rw (sent, e0) r.2,
      rw (sent, e0) r.3,
    )
