-- ===== src/Devices.antt =====
-- The peripherals behind the interfaces of include/peripherals/peripheral_interface.h, in the build
-- for the real hardware. Whether the hardware answers is a field (`present`, `relay_ok`) that the
-- environment sets. A callback is the second part of a result, for the controller to run.
pub mod Display
pub mod Keyboard
pub mod CardReader
pub mod Pump
pub mod FlowMeter
