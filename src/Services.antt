-- ===== src/Services.antt =====
-- What the controller is given: a backend, and the parts of third-party libraries that it calls.
use fuelflux.Base.{ℕ, Text}
use fuelflux.Types.{TankNumber, Volume, IntakeDirection}
use fuelflux.Backend.{IBackend}

-- The JSON objects that reports are sent and stored as: TankNumber, FuelVolume or IntakeVolume and
-- Direction, TimeAt in milliseconds.
pub data ReportBody : Type 0 where
  refuel_body : TankNumber → Volume → ℕ → ReportBody
  intake_body : TankNumber → Volume → IntakeDirection → ℕ → ReportBody

pub record Services (B : Type 0) : Type 0 where
  pub backend : IBackend B
  pub open backend use *
  -- nlohmann::json::dump
  pub dump : ReportBody → Text
  -- std::put_time with "%H:%M %d.%m.%Y"
  pub time_string : ℕ → Text
