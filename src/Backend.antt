-- ===== src/Backend.antt =====
-- include/backend.h: the interface IBackend that the controller, the backlog worker and the cache
-- manager work against.
use fuelflux.Base.{ℕ, ℤ, Bool, List, Text}
use fuelflux.Types.{UserId, TankNumber, Volume, IntakeDirection}

pub record BackendTankInfo : Type 0 where
  pub id_tank : ℤ
  pub visual_number_tank : ℤ
  pub name_tank : Text
  pub volume : Volume

-- A user as the synchronization reads it.
pub record UserCard : Type 0 where
  pub uid : UserId
  pub role_id : ℤ
  pub allowance : Volume

-- A tank as the synchronization reads it.
pub record FuelTank : Type 0 where
  pub id_tank : ℤ
  pub visual_number_tank : ℤ
  pub name_tank : Text
  pub volume : Volume

-- `B` is the state of the implementation. A call returns the state after it.
pub record IBackend (B : Type 0) : Type 0 where
  pub authorize : B → UserId → B × Bool
  pub deauthorize : B → B × Bool
  pub refuel : B → TankNumber → Volume → B × Bool
  pub intake : B → TankNumber → Volume → IntakeDirection → B × Bool
  pub refuel_payload : B → Text → B × Bool
  pub intake_payload : B → Text → B × Bool
  pub is_authorized : B → Bool
  pub get_role_id : B → ℤ
  pub get_allowance : B → Volume
  pub get_price : B → Volume
  pub get_fuel_tanks : B → List BackendTankInfo
  pub is_network_error : B → Bool
  pub get_token : B → Text
  pub get_last_error : B → Text
  pub get_controller_uid : B → Text
  pub fetch_user_cards : B → ℕ → ℕ → B × List UserCard
  pub fetch_fuel_tanks : B → ℕ → ℕ → B × List FuelTank
