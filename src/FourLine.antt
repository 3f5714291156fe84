-- ===== src/FourLine.antt =====
-- src/display/four_line_display_impl.cpp: four lines of text on a monochrome framebuffer, drawn in
-- the middle of the columns between two margins.
pub mod Cleared
pub mod Margins
pub mod Fonts
use fuelflux.Base.{
  ℕ, ◌+◌, ◌-◌, ◌*◌, ◌/◌, ◌%◌, zero, suc, Bool, true, false, not, ◌==◌, ◌&&◌, ◌||◌, if◌then◌else◌,
  leb, ltb, List, [], ◌∷◌, ◌++◌, Option, none, some, Text, is_empty, ℤ, pos, negsuc, pos_part,
  foldl, length,
}
use fuelflux.Pixels.{Byte, blank, get_pixel, set_pixel, put_byte, index, blank_buffer, count_from}

-- FtText::draw_utf8 with the large or the small font, on a blank buffer of this width and height,
-- from this row down; `none` is an exception.
abbrev pub Draw : Type 0
Draw = Bool → ℕ → ℕ → ℕ → Text → Option (List Byte)

-- `lines` is used below 4.
pub record FourLine : Type 0 where
  pub width : ℕ
  pub height : ℕ
  pub small_font_size : ℕ
  pub large_font_size : ℕ
  pub left_margin : ℕ
  pub right_margin : ℕ
  pub top_margin : ℕ
  pub initialized : Bool
  pub lines : ℕ → Text
  pub framebuffer : List Byte

abbrev pub no_lines : ℕ → Text
no_lines i = []

-- The margins, unless they leave no column between them.
abbrev pub with_margins : FourLine → ℕ → ℕ → FourLine
with_margins d left right =
    if leb d.width (left + right) then d else record d { left_margin = left; right_margin = right }

abbrev pub new_sized : ℕ → ℕ → ℕ → ℕ → ℕ → ℕ → ℕ → Option FourLine
new_sized width height small large left right top =
    if width == 0
    then none
    else if height == 0
    then none
    else if not (height % 8 == 0)
    then none
    else some (
        with_margins
          (record {
            width = width;
            height = height;
            small_font_size = small;
            large_font_size = large;
            left_margin = 0;
            right_margin = 0;
            top_margin = top;
            initialized = false;
            lines = no_lines;
            framebuffer = blank_buffer width height;
          })
          left right)

-- The constructor; `none` is std::invalid_argument. A negative margin is 0.
unfoldable pub new_four_line : ℤ → ℤ → ℕ → ℕ → ℤ → ℤ → ℤ → Option FourLine
new_four_line width height small large left right top =
    new_sized (pos_part width) (pos_part height) small large (pos_part left) (pos_part right)
      (pos_part top)

-- initialize, given whether the fonts can be loaded, and uninitialize
unfoldable pub initialize : FourLine → Bool → FourLine × Bool
initialize d true = (record d { initialized = true; lines = no_lines }, true)
initialize d false = (record d { initialized = false }, false)

pub uninitialize : FourLine → FourLine
uninitialize d = record d { initialized = false }

abbrev pub get_line_font_size : FourLine → ℕ → ℕ
get_line_font_size d i = if i == 1 then d.large_font_size else d.small_font_size

abbrev pub sum_sizes : FourLine → List ℕ → ℕ
sum_sizes d [] = 0
sum_sizes d (i ∷ is) = get_line_font_size d i + sum_sizes d is

abbrev pub get_line_y_position : FourLine → ℕ → ℕ
get_line_y_position d i = d.top_margin + sum_sizes d (count_from 0 (if leb 4 i then 4 else i))

abbrev pub content_width : FourLine → ℕ
content_width d = d.width - d.left_margin - d.right_margin

abbrev pub estimate_char_width : ℕ → ℕ
estimate_char_width font_size = font_size * 6 / 10

pub line_length : FourLine → ℕ → ℕ
line_length d i =
    let w = estimate_char_width (get_line_font_size d i) in
    if leb 4 i then 0 else if w == 0 then 0 else content_width d / w

abbrev pub set_line : (ℕ → Text) → ℕ → Text → ℕ → Text
set_line ls i t = λ j. if j == i then t else ls j

unfoldable pub puts : FourLine → ℕ → Text → FourLine
puts d i t = if leb 4 i then d else record d { lines = set_line d.lines i t }

pub get_text : FourLine → ℕ → Text
get_text d i = if leb 4 i then [] else d.lines i

unfoldable pub clear_all : FourLine → FourLine
clear_all d = record d { lines = no_lines }

pub clear_line : FourLine → ℕ → FourLine
clear_line d i = if ltb i 4 then record d { lines = set_line d.lines i [] } else d

-- The least and the greatest number in the list, if there is one.
abbrev pub widened : ℕ → Option (ℕ × ℕ) → Option (ℕ × ℕ)
widened n none = some (n, n)
widened n (some (low, high)) = some (if ltb n low then n else low, if ltb high n then n else high)

abbrev pub bounds : List ℕ → Option (ℕ × ℕ)
bounds [] = none
bounds (n ∷ ns) = widened n (bounds ns)

abbrev pub kept : (ℕ → Bool) → List ℕ → List ℕ
kept p [] = []
kept p (n ∷ ns) = if p n then n ∷ kept p ns else kept p ns

abbrev pub any : (ℕ → Bool) → List ℕ → Bool
any p [] = false
any p (n ∷ ns) = p n || any p ns

abbrev pub from_to : ℕ → ℕ → List ℕ
from_to low high = count_from low (high + 1 - low)

-- The rows and the columns of the buffer in which a pixel is set.
abbrev pub row_bounds : FourLine → List Byte → ℕ → ℕ → Option (ℕ × ℕ)
row_bounds d buffer y size =
    let low = y - size in
    let high = if ltb d.height (y + 2 * size) then d.height else y + 2 * size in
    bounds (
      kept
        (λ r.
          any (λ x. get_pixel buffer (content_width d) d.height (pos x) (pos r))
            (count_from 0 (content_width d)))
        (count_from low (high - low)))

abbrev pub column_bounds : FourLine → List Byte → ℕ × ℕ → Option (ℕ × ℕ)
column_bounds d buffer rows = bounds (
    kept
      (λ x.
        any (λ r. get_pixel buffer (content_width d) d.height (pos x) (pos r))
          (from_to rows.0 rows.1))
      (count_from 0 (content_width d)))

-- A row of pixels, moved to start at this column.
abbrev pub blit_row : FourLine → List Byte → ℕ → ℕ → ℕ → List ℕ → List Byte → List Byte
blit_row d buffer start low r [] fb = fb
blit_row d buffer start low r (x ∷ xs) fb = blit_row d buffer start low r xs (
    if get_pixel buffer (content_width d) d.height (pos x) (pos r)
    then set_pixel fb d.width d.height (pos (start + (x - low))) (pos r) true
    else fb)

abbrev pub blit_rows : FourLine → List Byte → ℕ → ℕ × ℕ → List ℕ → List Byte → List Byte
blit_rows d buffer start columns [] fb = fb
blit_rows d buffer start columns (r ∷ rs) fb =
    blit_rows d buffer start columns rs
      (blit_row d buffer start columns.0 r (from_to columns.0 columns.1) fb)

-- The drawn line, moved to the middle.
abbrev pub blit : FourLine → List Byte → ℕ × ℕ → Option (ℕ × ℕ) → List Byte → List Byte
blit d buffer rows none fb = fb
blit d buffer rows (some columns) fb =
    blit_rows d buffer (d.left_margin + (content_width d - (columns.1 - columns.0 + 1)) / 2) columns
      (from_to rows.0 rows.1) fb

abbrev pub blit_found : FourLine → List Byte → Option (ℕ × ℕ) → List Byte → List Byte
blit_found d buffer none fb = fb
blit_found d buffer (some rows) fb = blit d buffer rows (column_bounds d buffer rows) fb

abbrev pub show_drawn : FourLine → ℕ → Option (List Byte) → List Byte → List Byte
show_drawn d i none fb = fb
show_drawn d i (some buffer) fb =
    blit_found d buffer (row_bounds d buffer (get_line_y_position d i) (get_line_font_size d i)) fb

module _ (draw : Draw) where
  pub render_line : FourLine → ℕ → List Byte → List Byte
  unfolding set_pixel get_pixel
  render_line d i fb =
      if is_empty (d.lines i)
      then fb
      else if content_width d == 0
      then fb
      else if leb d.height (get_line_y_position d i)
      then fb
      else if get_line_font_size d i == 0
      then fb
      else show_drawn d i
          (draw (i == 1) (content_width d) d.height (get_line_y_position d i) (d.lines i)) fb

  abbrev pub render_lines : FourLine → List ℕ → List Byte → List Byte
  render_lines d [] fb = fb
  render_lines d (i ∷ is) fb = render_lines d is (render_line d i fb)

  -- The four lines before the margins are cleared.
  pub drawn : FourLine → List Byte
  unfolding render_line
  drawn d = render_lines d (0 ∷ 1 ∷ 2 ∷ 3 ∷ []) (blank_buffer d.width d.height)

abbrev pub clear_columns : ℕ → ℕ → List ℕ → List Byte → List Byte
clear_columns width page [] fb = fb
clear_columns width page (x ∷ xs) fb =
    clear_columns width page xs (put_byte (index width x page) blank fb)

-- The margins of the pages.
abbrev pub clear_pages : FourLine → List ℕ → List Byte → List Byte
clear_pages d [] fb = fb
clear_pages d (p ∷ ps) fb =
    let right_start = d.width - d.right_margin in
    let left_limit = if ltb d.width d.left_margin then d.width else d.left_margin in
    clear_pages d ps (
      clear_columns d.width p (count_from right_start (d.width - right_start))
        (clear_columns d.width p (count_from 0 left_limit) fb))

pub clear_horizontal_margins : FourLine → List Byte → List Byte
unfolding put_byte
clear_horizontal_margins d fb =
    if d.width == 0
    then fb
    else if d.height == 0
    then fb
    else if not (length fb == d.width * (d.height / 8))
    then fb
    else clear_pages d (count_from 0 (d.height / 8)) fb

unfoldable pub render : Draw → FourLine → FourLine
unfolding drawn clear_horizontal_margins
render draw d =
    if not d.initialized
    then d
    else record d { framebuffer = clear_horizontal_margins d (drawn draw d) }
