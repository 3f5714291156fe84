-- ===== src/Examples/Runs.antt =====
-- The theorems on the machine, the flow and the run of the loop, at concrete inputs.
use fuelflux.Base.{is_some, ◌⊎◌, ◌≡◌, refl, arith, true, false, List, [], ◌∷◌, some}
use fuelflux.Types.{
  error, authorization_denied, timeout, tank_selection, waiting, volume_entry, refueling,
  volume_entered, authorization_success, tank_selected, digit, key_start,
}
use fuelflux.System.{Input, key, card, round, step, steps, handled, handle_event, run_once}
use fuelflux.System.Stages.{read, steps-path, steps-refueling}
use fuelflux.Machine.Table.{transition, on_timeout, no_op}
use fuelflux.Machine.Process.{is_timeout_enabled, process_event, take_transition}
use fuelflux.Machine.Actions.{run_action}
use fuelflux.Controller.Keys.{handle_key_press, handle_card_presented, parse_tank, parse_volume}
use fuelflux.Controller.Authorization.{request_authorization}
use fuelflux.Controller.Screen.{update_display}
use fuelflux.Controller.Peripherals.{enable_card_reading}
use fuelflux.Controller.Session.{select_tank, enter_volume, volume_allowed, get_tank_volume}
use fuelflux.Numbers.{stoi, stod}
use fuelflux.Controller.Keys.{handle_key_press, handle_card_presented, parse_tank, parse_volume}
use fuelflux.Controller.Authorization.{request_authorization, role_of_int}
use fuelflux.Controller.Screen.{update_display}
use fuelflux.Controller.Peripherals.{enable_card_reading}
use fuelflux.Controller.Session.{
  select_tank, enter_volume, volume_allowed, get_tank_volume, volume_of_tank,
}
use fuelflux.Controller.{discard_pending_input_updated}
use fuelflux.Controller.Flow.{start_refueling, start_pump, pump_started}
use fuelflux.Devices.Pump.{start}
use fuelflux.Numbers.{stoi, stod, leading_digits, value, round_double, litre}
use fuelflux.Machine.Graph.{path, Embeds, transition_defined, timeout_moves}
use fuelflux.Machine.Step.{process_event-state}
use fuelflux.Controller.Flow.{handle_flow_update, stop_pump, stop_pump_within}
use fuelflux.Controller.Flow.Target.{target_stops_pump}
use fuelflux.Controller.Flow.Depth.{stop_pump_within-enough}
use fuelflux.Controller.Session.{end_current_session}
use fuelflux.Base.{pos}
use fuelflux.Controller.Flow.Metered.{metered}
use fuelflux.Controller.Session.End.{
  IsClosed, end_current_session-pump, end_current_session-IsClosed,
}
use fuelflux.Devices.Pump.{Pump}
use fuelflux.Examples.{services, idle, ivan, session_at, flowing, litres, running_pump}

-- A card, a tank, a volume: with the rounds of the loop between them.
abbrev refueling_run : List Input
refueling_run =
    card ivan
    ∷ round
    ∷ round
    ∷ round
    ∷ key (digit b'1')
    ∷ key key_start
    ∷ round
    ∷ round
    ∷ round
    ∷ round
    ∷ key (digit b'9')
    ∷ key key_start
    ∷ round
    ∷ round
    ∷ round
    ∷ []

steps-refueling_example :
    Embeds
      (authorization_success ∷ tank_selected ∷ volume_entered ∷ [])
      (read (handled (services true) idle refueling_run))
unfolding steps step run_once handle_event process_event take_transition transition run_action
    handle_card_presented request_authorization update_display enable_card_reading handle_key_press
    parse_tank stoi parse_volume stod select_tank enter_volume volume_allowed get_tank_volume
    leading_digits value discard_pending_input_updated role_of_int round_double litre volume_of_tank
    start_refueling start_pump start pump_started
steps-refueling_example = steps-refueling (services true) idle refueling_run refl refl

steps-path_example :
    (steps (services true) idle refueling_run).state
    ≡ path waiting (read (handled (services true) idle refueling_run))
steps-path_example = steps-path (services true) idle refueling_run

process_event-state_example :
    ((process_event (services true) (session_at volume_entry) volume_entered).0.state ≡ refueling)
    × ((process_event (services true) (session_at volume_entry) volume_entered).1 ≡ true)
unfolding transition
process_event-state_example =
    process_event-state (services true) (session_at volume_entry) volume_entered

transition_defined_example : is_some (transition error authorization_denied) ≡ false
transition_defined_example = transition_defined error authorization_denied

timeout_moves_example :
    ((is_timeout_enabled tank_selection ≡ true)
      × ((transition tank_selection timeout ≡ some (waiting, on_timeout))
          ⊎ (tank_selection ≡ error)))
    ⊎ ((is_timeout_enabled tank_selection ≡ false)
        × (transition tank_selection timeout ≡ some (tank_selection, no_op)))
timeout_moves_example = timeout_moves tank_selection

target_stops_pump_example :
    (q : Pump) × ((handle_flow_update flowing (litres 10)).pump ≡ some q)
    × (q.running ≡ false)
    × (q.relay_on ≡ false)
unfolding litre
target_stops_pump_example =
    target_stops_pump flowing (litres 10) running_pump refl
      (record { relay = λ h. refl; runs_connected = λ h. refl }) refl refl (ground arith)
      (ground arith)

stop_pump_within_example : stop_pump_within 5 flowing ≡ stop_pump flowing
stop_pump_within_example = stop_pump_within-enough 3 flowing

end_current_session-pump_example :
    (q : Pump) × ((end_current_session (services true) flowing).pump ≡ some q)
    × (q.running ≡ false)
    × (q.relay_on ≡ false)
end_current_session-pump_example =
    end_current_session-pump (services true) flowing running_pump refl
      (record { relay = λ h. refl; runs_connected = λ h. refl }) refl refl

end_current_session_example :
    IsClosed (end_current_session (services true) flowing)
    × ((end_current_session (services true) flowing).current_refuel_volume
        ≡ metered (pos 0) flowing.flow_meter)
    × ((end_current_session (services true) flowing).state ≡ refueling)
end_current_session_example = end_current_session-IsClosed (services true) flowing
