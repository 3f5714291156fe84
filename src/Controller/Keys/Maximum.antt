-- ===== src/Controller/Keys/Maximum.antt =====
-- The key '*' in the volume entry, against the maximum that the display shows.
use fuelflux.Devices.Display
use fuelflux.Devices.Display.{Display}
use fuelflux.Services.{Services}
use fuelflux.Controller.{Controller}
