-- ===== src/Panel.antt =====
-- include/display/lcd_driver.h: what a driver of a display controller does, as the actions on its
-- wires in their order.
pub mod St7565
pub mod Rgb
pub mod Ili9488
use fuelflux.Base.{ℕ, Bool, List, Option}
use fuelflux.Pixels.{Byte}

-- `command` and `bytes` are cmd and data of the drivers: a write with the data/command line low, or
-- high. `columns` is data with bytes of a framebuffer. `reset_line` is the reset line, and `pause`
-- a wait in milliseconds.
pub data Sent : Type 0 where
  command : ℕ → Sent
  bytes : List ℕ → Sent
  columns : List Byte → Sent
  reset_line : Bool → Sent
  pause : ℕ → Sent

-- ILcdDriver; `none` is an exception.
pub record LcdDriver : Type 0 where
  pub reset : List Sent
  pub init : List Sent
  pub set_framebuffer : List Byte → Option (List Sent)
  pub clear : Option (List Sent)
  pub set_backlight : Bool → List Sent
  pub width : ℕ
  pub height : ℕ
