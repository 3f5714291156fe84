-- ===== src/HardwareDisplay.antt =====
-- src/display/hardware_display.cpp, st7565_display.cpp and ili9488_display.cpp: the four lines drawn
-- and sent to the panel by its driver.
pub mod Start
pub mod Ready
pub mod Shown
use fuelflux.Base.{
  ℕ, Bool, true, false, List, [], ◌∷◌, ◌++◌, Option, none, some, Text, ℤ, pos, take,
}
use fuelflux.FourLine
use fuelflux.FourLine.{Draw, FourLine, new_four_line}
use fuelflux.Panel.{Sent, LcdDriver}
use fuelflux.Panel.St7565.{st7565}
use fuelflux.Panel.Ili9488.{ili9488}

-- The arguments of the constructor that the drawing depends on.
pub record Settings : Type 0 where
  pub width : ℤ
  pub height : ℤ
  pub small_font_size : ℕ
  pub large_font_size : ℕ
  pub left_margin : ℤ
  pub right_margin : ℤ
  pub top_margin : ℤ

-- What createLcdDriver of a derived class does.
pub data Created : Type 0 where
  threw : Created
  no_driver : Created
  created : LcdDriver → Created

-- `sent` holds the actions on the wires so far.
pub record HardwareDisplay : Type 0 where
  pub settings : Settings
  pub create_lcd_driver : Created
  pub connected : Bool
  pub display_impl : Option FourLine
  pub lcd : Option LcdDriver
  pub sent : List Sent

-- How many of these actions are done before one throws; `none` if none throws.
abbrev pub Bus : Type 0
Bus = List Sent → Option ℕ

-- What the devices answer to initialize: whether the wires open, and whether the font loads.
pub record Setup : Type 0 where
  pub wires_open : Bool
  pub font_loads : Bool

abbrev pub st7565_settings : Settings
st7565_settings = record {
  width = pos 128;
  height = pos 64;
  small_font_size = 12;
  large_font_size = 28;
  left_margin = pos 2;
  right_margin = pos 2;
  top_margin = pos 0;
}

abbrev ili9488_settings : Settings
ili9488_settings = record {
  width = pos 480;
  height = pos 320;
  small_font_size = 40;
  large_font_size = 80;
  left_margin = pos 5;
  right_margin = pos 5;
  top_margin = pos 10;
}

abbrev pub new_display : Settings → Created → HardwareDisplay
new_display settings c = record {
  settings = settings;
  create_lcd_driver = c;
  connected = false;
  display_impl = none;
  lcd = none;
  sent = [];
}

unfoldable pub st7565_display : HardwareDisplay
unfolding st7565
st7565_display = new_display st7565_settings (created (st7565 128 64))

abbrev made : Option LcdDriver → Created
made none = threw
made (some driver) = created driver

pub ili9488_display : HardwareDisplay
unfolding ili9488
ili9488_display = new_display ili9488_settings (made (ili9488 480 320))

-- A result with whether it was reached without an exception.
abbrev pub send_some : HardwareDisplay → List Sent → Option ℕ → HardwareDisplay × Bool
send_some d ws none = (record d { sent = d.sent ++ ws }, true)
send_some d ws (some n) = (record d { sent = d.sent ++ take n ws }, false)

abbrev pub send : Bus → HardwareDisplay → List Sent → HardwareDisplay × Bool
send bus d ws = send_some d ws (bus ws)

abbrev pub send_any : Bus → HardwareDisplay → Option (List Sent) → HardwareDisplay × Bool
send_any bus d none = (d, false)
send_any bus d (some ws) = send bus d ws

abbrev update_with :
    Bus → Draw → HardwareDisplay → Option FourLine → Option LcdDriver → HardwareDisplay × Bool
update_with bus draw d (some f) (some lcd) =
    let f' = FourLine.render draw f in
    send_any bus (record d { display_impl = some f' }) (lcd.set_framebuffer f'.framebuffer)
update_with bus draw d none l = (d, true)
update_with bus draw d (some f) none = (d, true)

-- updateInternal
unfoldable pub update : Bus → Draw → HardwareDisplay → HardwareDisplay × Bool
update bus draw d = update_with bus draw d d.display_impl d.lcd

abbrev on_impl : HardwareDisplay → (FourLine → FourLine) → Option FourLine → HardwareDisplay
on_impl d f none = d
on_impl d f (some four) = record d { display_impl = some (f four) }

-- setLineInternal
pub set_line : HardwareDisplay → ℕ → Text → HardwareDisplay
set_line d i t = on_impl d (λ f. FourLine.puts f i t) d.display_impl

-- clearAllInternal
unfoldable pub clear_all : HardwareDisplay → HardwareDisplay
clear_all d = on_impl d FourLine.clear_all d.display_impl

abbrev line_of : ℕ → Option FourLine → Text
line_of i none = []
line_of i (some f) = FourLine.get_text f i

-- getLineInternal
pub get_line : HardwareDisplay → ℕ → Text
get_line d i = line_of i d.display_impl

abbrev length_of : ℕ → Option FourLine → ℕ
length_of i none = 0
length_of i (some f) = FourLine.line_length f i

pub get_max_line_length : HardwareDisplay → ℕ → ℕ
get_max_line_length d i = length_of i d.display_impl

abbrev backlight_with : Bus → HardwareDisplay → Bool → Option LcdDriver → HardwareDisplay × Bool
backlight_with bus d on none = (d, true)
backlight_with bus d on (some lcd) = send bus d (lcd.set_backlight on)

-- setBacklightInternal
pub set_backlight : Bus → HardwareDisplay → Bool → HardwareDisplay × Bool
set_backlight bus d on = backlight_with bus d on d.lcd
