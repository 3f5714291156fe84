-- ===== src/Devices/Display.antt =====
-- src/peripherals/display.cpp; `shown` holds the messages shown, the latest first.
use fuelflux.Base.{Bool, true, false, if◌then◌else◌, List, ◌∷◌}
use fuelflux.Types.{DisplayMessage}

pub record Display : Type 0 where
  pub present : Bool
  pub connected : Bool
  pub shown : List DisplayMessage

unfoldable pub initialize : Display → Display × Bool
initialize d =
    if d.connected
    then (d, true)
    else if d.present
    then (record d { connected = true }, true)
    else (d, false)

unfoldable pub shutdown : Display → Display
shutdown d = record d { connected = false }

unfoldable pub show_message : Display → DisplayMessage → Display
show_message d m = if d.connected then record d { shown = m ∷ d.shown } else d
