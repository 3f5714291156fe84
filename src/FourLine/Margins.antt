-- ===== src/FourLine/Margins.antt =====
-- The margins of the rendered display are blank, and the columns between them are as drawn.
use fuelflux.Base.{
  ℕ, ◌+◌, ◌-◌, ◌*◌, ◌/◌, ◌%◌, ◌<◌, zero, suc, ◌≡◌, refl, ◌∙◌, ap, arith, Bool, true, false, ◌==◌,
  if◌then◌else◌, leb, List, [], ◌∷◌, Option, none, some, is_empty, pos, length, replicate,
  Bool-cases, ==_iff, inl, inr,
}
use fuelflux.Pixels.{
  Byte, blank, byte_at, index, get_pixel, set_pixel, blank_buffer, count_from, outside,
}
use fuelflux.Pixels.Writes.{length-set_pixel}
use fuelflux.FourLine.Cleared.{
  elem, elem-count_from, in_margin, clear_pages-byte, length-clear_pages,
}
use fuelflux.FourLine.{
  Draw, FourLine, content_width, get_line_y_position, get_line_font_size, blit_row, blit_rows, blit,
  blit_found, show_drawn, row_bounds, column_bounds, from_to, render_line, render_lines, drawn,
  clear_pages, clear_horizontal_margins, render,
}

length-replicate : (n : ℕ) (b : Byte) → length (replicate n b) ≡ n
length-replicate zero b = refl
length-replicate (suc n) b = ap suc (length-replicate n b)

length-blit_row :
    (d : FourLine) (buffer : List Byte) (start low r : ℕ) (xs : List ℕ) (fb : List Byte)
    → length (blit_row d buffer start low r xs fb) ≡ length fb
length-blit_row d buffer start low r [] fb = refl
length-blit_row d buffer start low r (x ∷ xs) fb =
    elim (Bool-cases (get_pixel buffer (content_width d) d.height (pos x) (pos r))) [
      | inl on ↦ rw on (
          length-blit_row d buffer start low r xs
            (set_pixel fb d.width d.height (pos (start + (x - low))) (pos r) true)
          ∙ length-set_pixel fb d.width d.height (pos (start + (x - low))) (pos r) true)
      | inr off ↦ rw off (length-blit_row d buffer start low r xs fb)
    ]

length-blit_rows :
    (d : FourLine) (buffer : List Byte) (start : ℕ) (columns : ℕ × ℕ) (rs : List ℕ) (fb : List Byte)
    → length (blit_rows d buffer start columns rs fb) ≡ length fb
length-blit_rows d buffer start columns [] fb = refl
length-blit_rows d buffer start columns (r ∷ rs) fb =
    length-blit_rows d buffer start columns rs
      (blit_row d buffer start columns.0 r (from_to columns.0 columns.1) fb)
    ∙ length-blit_row d buffer start columns.0 r (from_to columns.0 columns.1) fb

length-blit :
    (d : FourLine) (buffer : List Byte) (rows : ℕ × ℕ) (columns : Option (ℕ × ℕ)) (fb : List Byte)
    → length (blit d buffer rows columns fb) ≡ length fb
length-blit d buffer rows none fb = refl
length-blit d buffer rows (some columns) fb =
    length-blit_rows d buffer (d.left_margin + (content_width d - (columns.1 - columns.0 + 1)) / 2)
      columns (from_to rows.0 rows.1) fb

length-show_drawn :
    (d : FourLine) (i : ℕ) (o : Option (List Byte)) (fb : List Byte)
    → length (show_drawn d i o fb) ≡ length fb
length-show_drawn d i none fb = refl
length-show_drawn d i (some buffer) fb =
    of_rows (row_bounds d buffer (get_line_y_position d i) (get_line_font_size d i))
  where
    of_rows : (o : Option (ℕ × ℕ)) → length (blit_found d buffer o fb) ≡ length fb
    of_rows none = refl
    of_rows (some rows) = length-blit d buffer rows (column_bounds d buffer rows) fb

if-length :
    (b : Bool) (n : ℕ) (x y : List Byte)
    → length x ≡ n
    → length y ≡ n
    → length (if b then x else y) ≡ n
if-length true n x y h k = h
if-length false n x y h k = k

length-render_line :
    (draw : Draw) (d : FourLine) (i : ℕ) (fb : List Byte)
    → length (render_line draw d i fb) ≡ length fb
unfolding render_line
length-render_line draw d i fb = if-length (is_empty (d.lines i)) (length fb) fb _ refl (
    if-length (content_width d == 0) (length fb) fb _ refl (
      if-length (leb d.height (get_line_y_position d i)) (length fb) fb _ refl (
        if-length (get_line_font_size d i == 0) (length fb) fb _ refl (
          length-show_drawn d i
            (draw (i == 1) (content_width d) d.height (get_line_y_position d i) (d.lines i)) fb))))

length-render_lines :
    (draw : Draw) (d : FourLine) (is : List ℕ) (fb : List Byte)
    → length (render_lines draw d is fb) ≡ length fb
length-render_lines draw d [] fb = refl
length-render_lines draw d (i ∷ is) fb =
    length-render_lines draw d is (render_line draw d i fb) ∙ length-render_line draw d i fb

length-drawn : (draw : Draw) (d : FourLine) → length (drawn draw d) ≡ d.width * (d.height / 8)
unfolding drawn
length-drawn draw d =
    length-render_lines draw d (0 ∷ 1 ∷ 2 ∷ 3 ∷ []) (blank_buffer d.width d.height)
    ∙ length-replicate (d.width * (d.height / 8)) blank

if-byte : (b : Bool) (x : Byte) (k : ℕ) → (if b then blank else x) k ≡ (if b then false else x k)
if-byte true x k = refl
if-byte false x k = refl

if-same : (b : Bool) (x : List Byte) → (if b then x else x) ≡ x
if-same true x = refl
if-same false x = refl

render-framebuffer :
    (draw : Draw) (d : FourLine)
    → d.initialized ≡ true
    → 0 < d.width
    → 0 < d.height
    → (render draw d).framebuffer ≡ clear_pages d (count_from 0 (d.height / 8)) (drawn draw d)
unfolding render clear_horizontal_margins
render-framebuffer draw d on hw hh =
    let e1 : (d.width == 0) ≡ false = ground (arith, hw) in
    let e2 : (d.height == 0) ≡ false = ground (arith, hh) in
    let e3 : (length (drawn draw d) == d.width * (d.height / 8)) ≡ true =
      (==_iff (length (drawn draw d)) (d.width * (d.height / 8))).1 (length-drawn draw d) in
    rw (on, e1, e2, e3) refl

pub page-elem : (y h : ℕ) → y < h → h % 8 ≡ 0 → elem (y / 8) (count_from 0 (h / 8)) ≡ true
page-elem y h hy whole =
    let below : y / 8 < h / 8 = omega (arith, hy, whole) in
    rw (elem-count_from (y / 8) 0 (h / 8)) (ground (arith, below))

pub inside : (w h x y : ℕ) → x < w → y < h → outside w h x y ≡ false
inside w h x y hx hy = ground (arith, hx, hy)

-- The rendered framebuffer has the size of the display, and in each row within it a pixel of a
-- margin is off, and a pixel between the margins is as the four lines were drawn, whatever the
-- font draws. The display is initialized, and has a width and a height, which is a number of
-- whole pages.
pub render_lem :
    (draw : Draw) (d : FourLine) (x y : ℕ)
    → d.initialized ≡ true
    → d.height % 8 ≡ 0
    → x < d.width
    → y < d.height
    → let fb = (render draw d).framebuffer in
      (length fb ≡ d.width * (d.height / 8))
      × (get_pixel fb d.width d.height (pos x) (pos y) ≡ (
          if in_margin d x
          then false
          else get_pixel (drawn draw d) d.width d.height (pos x) (pos y)))
unfolding get_pixel
render_lem draw d x y on whole hx hy =
    let shown = render-framebuffer draw d on (omega (arith, hx)) (omega (arith, hy)) in
    let page = clear_pages-byte d (y / 8) x (count_from 0 (d.height / 8)) (drawn draw d) hx in
    (
      rw shown
          (length-clear_pages d (count_from 0 (d.height / 8)) (drawn draw d) ∙ length-drawn draw d),
      rw (shown, inside d.width d.height x y hx hy, page, page-elem y d.height hy whole)
          (if-byte (in_margin d x) (byte_at (index d.width x (y / 8)) (drawn draw d)) (y % 8)),
    )
