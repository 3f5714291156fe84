-- ===== src/Examples/Drawing.antt =====
-- The theorem on the four-line display, at a concrete input.
use fuelflux.Base.{◌*◌, ◌/◌, true, some, codes, replicate, []}
use fuelflux.FourLine.{Draw, FourLine}

-- A font that sets every pixel of the buffer.
abbrev pub ink : Draw
ink large width height y t = some (replicate (width * (height / 8)) (λ k. true))

abbrev small_display : FourLine
small_display = record {
  width = 6;
  height = 16;
  small_font_size = 4;
  large_font_size = 4;
  left_margin = 1;
  right_margin = 2;
  top_margin = 0;
  initialized = true;
  lines = λ i. codes "A";
  framebuffer = [];
}
