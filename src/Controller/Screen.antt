-- ===== src/Controller/Screen.antt =====
-- StateMachine::getDisplayMessage, and the calls that show a message on the display.
use fuelflux.Base.{
  Bool, true, false, if◌then◌else◌, List, [], ◌∷◌, ◌++◌, none, some, pos, Text, codes, length,
  replicate, ltb_ℤ, min_ℤ,
}
use fuelflux.Types.{
  Volume, SystemState, waiting, pin_entry, authorization, not_authorized, cannot_authorize,
  tank_selection, volume_entry, refueling, refuel_data_transmission, refueling_complete,
  intake_direction_selection, intake_volume_entry, intake_data_transmission, intake_complete, error,
  DisplayMessage, TankInfo, IntakeDirection, in_tank, out_of_tank, is_customer,
}
use fuelflux.Numbers.{to_string, format_volume}
use fuelflux.Devices.Display
use fuelflux.Services.{Services}
use fuelflux.Controller.{Controller}
use fuelflux.Controller.Session.{get_tank_volume}
use fuelflux.Controller.Authorization.{show_message}

abbrev pub lines : Text → Text → Text → Text → DisplayMessage
lines a b c d = record { line1 = a; line2 = b; line3 = c; line4 = d }

-- The numbers of the tanks, each followed by a blank.
pub tank_numbers : List TankInfo → Text
tank_numbers [] = []
tank_numbers (t ∷ ts) = to_string t.number ++ b' ' ∷ tank_numbers ts

abbrev pub direction_text : IntakeDirection → Text → Text → Text
direction_text in_tank a b = a
direction_text out_of_tank a b = b

module _ {B : Type 0} (ops : Services B) where
  -- The least of the allowance and the volume of the tank, where that is given.
  unfoldable pub max_volume : Controller B → Volume
  max_volume c =
      let tank = get_tank_volume ops c c.selected_tank in
      if ltb_ℤ (pos 0) tank then min_ℤ c.current_user.allowance tank else c.current_user.allowance

  unfoldable pub message_in : SystemState → Controller B → DisplayMessage
  unfolding max_volume tank_numbers
  message_in waiting c =
      lines (codes "Добро пожаловать") [] (codes "Для заправки") (codes "приложите карту")
  message_in pin_entry c =
      lines (codes "Введите PIN") (replicate (length c.current_input) b'*') []
        (codes "Ввод(A)/Отмена(B)")
  message_in authorization c = lines (codes "Проверка...") [] [] (codes "Ожидайте")
  message_in not_authorized c =
      lines (codes "Доступ запрещён") [] (codes "Для новой заправки") (codes "приложите карту")
  message_in cannot_authorize c =
      lines (codes "Ошибка связи") [] (codes "Для новой заправки") (codes "приложите карту")
  message_in tank_selection c =
      lines (codes "Выберите цистерну") c.current_input (tank_numbers c.available_tanks)
        (codes "Ввод(A)/Отмена(B)")
  message_in volume_entry c =
      lines (codes "Введите объём") c.current_input
        (if is_customer c.current_user.role
          then format_volume (max_volume c) ++ codes " макс(*)"
          else [])
        (codes "Старт(A)/Отмена(B)")
  message_in refueling c =
      lines (codes "Заправка " ++ format_volume c.entered_volume)
        (format_volume c.current_refuel_volume) [] (codes "Стоп(B)")
  message_in refuel_data_transmission c =
      lines (codes "Передача данных...") (format_volume c.current_refuel_volume) []
        (codes "Ожидайте")
  message_in refueling_complete c =
      lines (codes "Заправка выполнена на") (format_volume c.current_refuel_volume)
        (codes "Для новой заправки") (codes "приложите карту")
  message_in intake_direction_selection c =
      lines (codes "1 - Приём / 2 - Слив") c.current_input
        (codes "Цистерна " ++ to_string c.selected_tank) (codes "Ввод(A)/Отмена(B)")
  message_in intake_volume_entry c =
      lines (codes "Введите объём") c.current_input
        (codes "Цистерна "
          ++ (to_string c.selected_tank
              ++ direction_text c.selected_intake_direction (codes " приём") (codes " слив")))
        (codes "Ввод(A)/Отмена(B)")
  message_in intake_data_transmission c =
      lines (codes "Передача данных...") (format_volume c.entered_volume) [] (codes "Ожидайте")
  message_in intake_complete c =
      lines
        (codes "Цистерна "
          ++ (to_string c.selected_tank
              ++ direction_text c.selected_intake_direction (codes " приём на") (codes " cлив на")))
        (format_volume c.entered_volume) (codes "Для новой операции") (codes "приложите карту")
  message_in error c = lines [] (codes "ОШИБКА") c.last_error_message (codes "Сброс(B)")

  unfoldable pub get_display_message : Controller B → DisplayMessage
  unfolding message_in
  get_display_message c = message_in c.state c

  unfoldable pub update_display : Controller B → Controller B
  unfolding get_display_message show_message
  update_display c = show_message c (get_display_message c)

  abbrev pub shown_again : Controller B → Display.Display × Bool → Controller B
  shown_again c (d, true) = update_display (record c { display = some d })
  shown_again c (d, false) = record c { display = some d }

  unfoldable pub reinitialize_display : Controller B → Controller B
  unfolding update_display
  reinitialize_display c = elim c.display [
    | none ↦ c
    | some d ↦ shown_again c (Display.initialize (Display.shutdown d))
  ]
