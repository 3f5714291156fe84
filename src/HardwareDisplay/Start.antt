-- ===== src/HardwareDisplay/Start.antt =====
-- HardwareDisplay::initialize and shutdown.
use fuelflux.Base.{Bool, true, false, if◌then◌else◌, Option, none, some}
use fuelflux.FourLine
use fuelflux.FourLine.{Draw, FourLine, new_four_line}
use fuelflux.Panel.{LcdDriver}
use fuelflux.HardwareDisplay.{
  HardwareDisplay, Settings, Created, threw, no_driver, created, Bus, Setup, send, send_any, update,
  clear_all,
}

-- The catch of initialize.
abbrev failed : HardwareDisplay → HardwareDisplay × Bool
failed d = (record d { connected = false }, false)

abbrev pub first_update : HardwareDisplay × Bool → HardwareDisplay × Bool
first_update (d, true) = (d, true)
first_update (d, false) = failed d

-- std::make_unique<FourLineDisplayImpl>
abbrev pub new_impl : Settings → Option FourLine
new_impl s =
    new_four_line s.width s.height s.small_font_size s.large_font_size s.left_margin s.right_margin
      s.top_margin

module _ (bus : Bus) (draw : Draw) where
  abbrev pub with_fonts : HardwareDisplay → FourLine × Bool → HardwareDisplay × Bool
  with_fonts d (f, true) =
      first_update
        (update bus draw (clear_all (record d { connected = true; display_impl = some f })))
  with_fonts d (f, false) = (record d { display_impl = some f }, false)

  abbrev pub with_impl : HardwareDisplay → Bool → Option FourLine → HardwareDisplay × Bool
  with_impl d fonts none = failed d
  with_impl d fonts (some f) = with_fonts d (FourLine.initialize f fonts)

  abbrev pub after_init : Bool → HardwareDisplay × Bool → HardwareDisplay × Bool
  after_init fonts (d, false) = failed d
  after_init fonts (d, true) = with_impl d fonts (new_impl d.settings)

  abbrev pub after_reset : Bool → LcdDriver → HardwareDisplay × Bool → HardwareDisplay × Bool
  after_reset fonts lcd (d, false) = failed d
  after_reset fonts lcd (d, true) = after_init fonts (send bus d lcd.init)

  abbrev pub with_driver : HardwareDisplay → Bool → Created → HardwareDisplay × Bool
  with_driver d fonts threw = failed d
  with_driver d fonts no_driver = (record d { lcd = none }, false)
  with_driver d fonts (created lcd) =
      after_reset fonts lcd (send bus (record d { lcd = some lcd }) lcd.reset)

  unfoldable pub initialize : Setup → HardwareDisplay → HardwareDisplay × Bool
  unfolding update clear_all new_four_line
  initialize setup d =
      if setup.wires_open then with_driver d setup.font_loads d.create_lcd_driver else failed d

abbrev uninitialized : Option FourLine → Option FourLine
uninitialized none = none
uninitialized (some f) = some (FourLine.uninitialize f)

-- An exception ends the clearing of the panel only.
abbrev clear_panel : Bus → HardwareDisplay → Option LcdDriver → HardwareDisplay
clear_panel bus d none = d
clear_panel bus d (some lcd) = (send_any bus d lcd.clear).0

pub shutdown : Bus → HardwareDisplay → HardwareDisplay
shutdown bus d =
    let stopped =
      clear_panel bus (record d { display_impl = uninitialized d.display_impl }) d.lcd in
    if d.connected
    then record stopped { connected = false; display_impl = none; lcd = none }
    else record d { display_impl = none; lcd = none }
