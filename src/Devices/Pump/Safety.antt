-- ===== src/Devices/Pump/Safety.antt =====
-- The relay follows the pump's own idea of whether it runs.
use fuelflux.Base.{◌≡◌, true, false, arith}
use fuelflux.Devices.Pump.{Pump, initialize, shutdown, start, stop}

-- A connected pump runs exactly if its relay is on, and only a connected pump runs.
pub record IsValid (p : Pump) : Type 0 where
  pub relay : p.connected ≡ true → p.relay_on ≡ p.running
  pub runs_connected : p.running ≡ true → p.connected ≡ true

pub initialize-IsValid : (p : Pump) → IsValid (initialize p).0
unfolding initialize
initialize-IsValid p = ground arith

pub shutdown-IsValid : (p : Pump) → IsValid p → IsValid (shutdown p)
unfolding shutdown
shutdown-IsValid p v = ground arith

pub start-IsValid : (p : Pump) → IsValid p → IsValid (start p).0
unfolding start
start-IsValid p v = ground arith

pub stop-IsValid : (p : Pump) → IsValid p → IsValid (stop p).0
unfolding stop
stop-IsValid p v = ground arith

-- With a relay that obeys, a stop leaves the pump and its relay off.
pub stop_off :
    (p : Pump)
    → IsValid p
    → p.connected ≡ true
    → p.relay_ok ≡ true
    → ((stop p).0.running ≡ false) × ((stop p).0.relay_on ≡ false)
unfolding stop
stop_off p v connected ok = ground arith
