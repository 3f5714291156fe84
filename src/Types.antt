-- ===== src/Types.antt =====
-- include/types.h: the enums and structs that the components share.
use fuelflux.Base.{ℕ, ℤ, Text, Bool, true, false}

-- A finite double is a multiple of the least positive one, 2^-1074: a volume is that multiple.
abbrev pub Volume : Type 0
Volume = ℤ

abbrev pub UserId : Type 0
UserId = Text

-- C++ `int`.
abbrev pub TankNumber : Type 0
TankNumber = ℤ

pub data UserRole : Type 0 where
  unknown customer operator controller : UserRole

pub data IntakeDirection : Type 0 where
  in_tank out_of_tank : IntakeDirection

pub data SystemState : Type 0 where
  waiting : SystemState
  pin_entry : SystemState
  authorization : SystemState
  not_authorized : SystemState
  cannot_authorize : SystemState
  tank_selection : SystemState
  volume_entry : SystemState
  refueling : SystemState
  refuel_data_transmission : SystemState
  refueling_complete : SystemState
  intake_direction_selection : SystemState
  intake_volume_entry : SystemState
  intake_data_transmission : SystemState
  intake_complete : SystemState
  error : SystemState

pub data Event : Type 0 where
  card_presented : Event
  pin_entered : Event
  input_updated : Event
  authorization_success : Event
  authorization_denied : Event
  authorization_failed : Event
  tank_selected : Event
  volume_entered : Event
  amount_entered : Event
  refueling_started : Event
  refueling_stopped : Event
  data_transmission_complete : Event
  intake_selected : Event
  intake_direction_selected : Event
  intake_volume_entered : Event
  intake_completed : Event
  cancel_pressed : Event
  cancel_no_fuel : Event
  timeout : Event
  fault : Event
  error_recovery : Event
  display_reset : Event

-- `digit d` is the key with the character `d`, one of '0' to '9'.
pub data KeyCode : Type 0 where
  digit : ℕ → KeyCode
  key_max key_clear key_start key_stop key_display_reset : KeyCode

pub record UserInfo : Type 0 where
  pub uid : UserId
  pub role : UserRole
  pub allowance : Volume
  pub price : Volume

pub record TankInfo : Type 0 where
  pub number : TankNumber

pub record RefuelTransaction : Type 0 where
  pub user_id : UserId
  pub tank_number : TankNumber
  pub volume : Volume
  pub total_amount : Volume
  pub timestamp : ℕ

pub record IntakeTransaction : Type 0 where
  pub operator_id : UserId
  pub tank_number : TankNumber
  pub volume : Volume
  pub direction : IntakeDirection
  pub timestamp : ℕ

pub record DisplayMessage : Type 0 where
  pub line1 : Text
  pub line2 : Text
  pub line3 : Text
  pub line4 : Text

abbrev pub is_customer : UserRole → Bool
is_customer UserRole.customer = true
is_customer _ = false

abbrev pub is_operator : UserRole → Bool
is_operator UserRole.operator = true
is_operator _ = false
