-- ===== src/FourLine/Fonts.antt =====
-- The fonts of src/display/four_line_display_impl.cpp: a line is drawn by FtText, with the large or
-- the small font, into a buffer of its own.
use fuelflux.Base.{true, if◌then◌else◌, pos}
use fuelflux.Pixels.{blank_buffer}
use fuelflux.FourLine.{Draw}
use fuelflux.FtText.{FtText, draw_utf8}

pub drawn_by : FtText → FtText → Draw
unfolding draw_utf8
drawn_by large small is_large width height y text =
    draw_utf8 (if is_large then large else small) (blank_buffer width height) width height (pos 0)
      (pos y) text true
