-- ===== src/Emulator/Pump.antt =====
-- ConsolePump of src/console_emulator.cpp.
use fuelflux.Base.{Bool, true, false, not, if◌then◌else◌, Option, none, some, Text, codes}

pub record ConsolePump : Type 0 where
  pub connected : Bool
  pub running : Bool
  pub callback : Bool

-- The pump, what its callback is given, and what is logged.
pub record Change : Type 0 where
  pub pump : ConsolePump
  pub notified : Option Bool
  pub logged : Option Text

abbrev unchanged : ConsolePump → Change
unchanged p = record { pump = p; notified = none; logged = none }

abbrev changed : ConsolePump → Text → Change
changed p text = record {
  pump = p;
  notified = if p.callback then some p.running else none;
  logged = some text;
}

pub initialize : ConsolePump → ConsolePump × Bool
initialize p = (record p { connected = true; running = false }, true)

pub start : ConsolePump → Change
start p =
    if not p.connected
    then unchanged p
    else if p.running
    then unchanged p
    else changed (record p { running = true }) (codes "[Pump] Started")

pub stop : ConsolePump → Change
stop p =
    if p.running
    then changed (record p { running = false }) (codes "[Pump] Stopped")
    else unchanged p

pub shutdown : ConsolePump → Change
unfolding stop
shutdown p = let c = stop p in record c { pump = record c.pump { connected = false } }
