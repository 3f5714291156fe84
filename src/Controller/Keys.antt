-- ===== src/Controller/Keys.antt =====
-- Controller::handleKeyPress, processNumericInput and handleCardPresented.
pub mod Maximum
use fuelflux.Base.{
  Bool, true, false, ◌&&◌, if◌then◌else◌, [], none, some, pos, Text, text_eq, codes, is_empty,
  ltb_ℤ,
}
use fuelflux.Types.{
  UserId, Volume, TankNumber, SystemState, waiting, pin_entry, tank_selection, volume_entry,
  refueling_complete, intake_direction_selection, intake_volume_entry, intake_complete, in_tank,
  out_of_tank, pin_entered, cancel_pressed, display_reset, card_presented, KeyCode, digit, key_max,
  key_clear, key_start, key_stop, key_display_reset, is_customer,
}
use fuelflux.Numbers.{stoi, stod}
use fuelflux.Services.{Services}
use fuelflux.Controller.{
  Controller, post_event, clear_input, add_digit_to_input, remove_last_digit, set_max_value,
}
use fuelflux.Controller.Session.{
  has_tank, select_tank, enter_volume, enter_intake_volume, select_intake_direction,
}

-- The exception of std::stoi gives 0.
unfoldable pub parse_tank : Text → TankNumber
parse_tank s = elim (stoi s) [ none ↦ pos 0 | some n ↦ n ]

-- The exception of std::stod gives 0.
unfoldable pub parse_volume : Text → Volume
parse_volume s = elim (stod s) [ none ↦ pos 0 | some v ↦ v ]

-- The states in which a first digit begins a new input.
abbrev pub starts_input : SystemState → Bool
starts_input waiting = true
starts_input refueling_complete = true
starts_input intake_complete = true
starts_input _ = false

abbrev pub is_volume_entry : SystemState → Bool
is_volume_entry volume_entry = true
is_volume_entry _ = false

module _ {B : Type 0} where
  unfoldable pub enter_tank : Controller B → Controller B
  unfolding clear_input
  enter_tank c =
      let tank = parse_tank c.current_input in
      if ltb_ℤ (pos 0) tank
      then (if has_tank tank c.available_tanks then select_tank c tank else clear_input c)
      else clear_input c

  unfoldable pub enter_direction : Controller B → Controller B
  unfolding clear_input
  enter_direction c =
      if text_eq c.current_input (codes "1")
      then select_intake_direction c in_tank
      else if text_eq c.current_input (codes "2")
      then select_intake_direction c out_of_tank
      else clear_input c

module _ {B : Type 0} (ops : Services B) where
  -- The `switch` on the state.
  unfoldable pub submit_in : SystemState → Controller B → Controller B
  unfolding enter_tank enter_direction clear_input post_event
  submit_in pin_entry c = post_event c pin_entered
  submit_in tank_selection c = enter_tank c
  submit_in intake_direction_selection c = enter_direction c
  submit_in volume_entry c =
      let v = parse_volume c.current_input in
      if ltb_ℤ (pos 0) v then enter_volume ops c v else clear_input c
  submit_in intake_volume_entry c =
      let v = parse_volume c.current_input in
      if ltb_ℤ (pos 0) v then enter_intake_volume c v else clear_input c
  submit_in _ c = c

  unfoldable pub process_numeric_input : Controller B → Controller B
  unfolding submit_in
  process_numeric_input c = if is_empty c.current_input then c else submit_in c.state c

  -- The `switch` on the key.
  unfoldable pub press : KeyCode → Controller B → Controller B
  unfolding process_numeric_input add_digit_to_input remove_last_digit set_max_value post_event
  press (digit d) c =
      add_digit_to_input (if starts_input c.state then record c { current_input = [] } else c) d
  press key_max c =
      if is_volume_entry c.state && is_customer c.current_user.role then set_max_value c else c
  press key_clear c = remove_last_digit c
  press key_start c = process_numeric_input c
  press key_stop c = post_event c cancel_pressed
  press key_display_reset c = post_event c display_reset

  unfoldable pub handle_key_press : Controller B → KeyCode → Controller B
  unfolding press
  handle_key_press c key = press key (record c { last_activity_time = c.clock })

module _ {B : Type 0} where
  unfoldable pub handle_card_presented : Controller B → UserId → Controller B
  unfolding post_event
  handle_card_presented c uid = post_event (record c { current_input = uid }) card_presented
