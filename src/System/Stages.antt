-- ===== src/System/Stages.antt =====
-- In any interleaving of the threads the machine follows its table, event by event.
use fuelflux.Base.{
  ◌≡◌, refl, sym, ◌∙◌, ap, arith, Bool, true, false, List, [], ◌∷◌, ◌++◌, map, some, if◌then◌else◌,
}
use fuelflux.Types.{
  Volume, SystemState, waiting, refueling, Event, authorization_success, tank_selected,
  volume_entered, display_reset, KeyCode, key_start, tank_selection, volume_entry,
  intake_direction_selection,
}
use fuelflux.Devices.Display
use fuelflux.Devices.FlowMeter
use fuelflux.Services.{Services}
use fuelflux.Controller.{
  Controller, post_event, clear_input, add_digit_to_input, remove_last_digit, set_max_value,
}
use fuelflux.Controller.Keep.{if_keeps, option_keeps}
use fuelflux.Controller.Flow.Frame.{run_flow_callback-Frame_any}
use fuelflux.Controller.Session.{
  select_tank, enter_volume, enter_intake_volume, select_intake_direction,
}
use fuelflux.Controller.Keys.{
  parse_volume, enter_tank, enter_direction, submit_in, process_numeric_input, press,
  handle_key_press, handle_card_presented,
}
use fuelflux.Controller.Screen.{reinitialize_display, shown_again}
use fuelflux.Machine.Process.{poll_timeout, effective_event}
use fuelflux.Machine.Table.{transition}
use fuelflux.Machine.Graph.{next_state, path, Embeds, refueling_needs_stages}
use fuelflux.Machine.Step.{process_event-state, update_display-state}
use fuelflux.System.{
  Input, key, card, pulses, elapse, poll_inactivity, poll_flow, round, handle_event, run_once, step,
  steps, taken, handled, poll_no_flow, no_flow, is_refueling, hears_keys, hears_cards, first_of,
  take_event,
}

-- The machine reads CancelNoFuel as CancelPressed.
abbrev pub read : List Event → List Event
read es = map effective_event es

module _ {B : Type 0} (ops : Services B) where
  enter_tank-state : (c : Controller B) → (enter_tank c).state ≡ c.state
  unfolding enter_tank select_tank clear_input post_event
  enter_tank-state c = ground arith

  enter_direction-state : (c : Controller B) → (enter_direction c).state ≡ c.state
  unfolding enter_direction select_intake_direction clear_input post_event
  enter_direction-state c = ground arith

  enter_volume-state : (c : Controller B) (v : Volume) → (enter_volume ops c v).state ≡ c.state
  unfolding enter_volume clear_input post_event
  enter_volume-state c v = ground arith

  submit_in-state : (s : SystemState) (c : Controller B) → (submit_in ops s c).state ≡ c.state
  unfolding submit_in enter_intake_volume clear_input post_event
  submit_in-state tank_selection c = enter_tank-state c
  submit_in-state intake_direction_selection c = enter_direction-state c
  submit_in-state volume_entry c =
      if_keeps c.state _ _ _ (enter_volume-state c (parse_volume c.current_input)) refl
  submit_in-state _ c = ground arith

  press-state : (k : KeyCode) (c : Controller B) → (press ops k c).state ≡ c.state
  unfolding press add_digit_to_input remove_last_digit set_max_value post_event
      process_numeric_input
  press-state key_start c = if_keeps c.state _ _ _ refl (submit_in-state c.state c)
  press-state _ c = ground arith

  handle_key_press-state :
      (c : Controller B) (k : KeyCode) → (handle_key_press ops c k).state ≡ c.state
  unfolding handle_key_press
  handle_key_press-state c k = press-state k (record c { last_activity_time = c.clock })

  shown_again-state :
      (c : Controller B) (r : Display.Display × Bool) → (shown_again ops c r).state ≡ c.state
  shown_again-state c (d, true) = update_display-state ops (record c { display = some d })
  shown_again-state c (d, false) = refl

  reinitialize_display-state : (c : Controller B) → (reinitialize_display ops c).state ≡ c.state
  unfolding reinitialize_display
  reinitialize_display-state c =
      option_keeps c.state c.display _ _ refl
        (λ d. shown_again-state c (Display.initialize (Display.shutdown d)))

  reset_stays : (s : SystemState) → next_state s display_reset ≡ s
  unfolding transition
  reset_stays waiting = refl
  reset_stays _ = refl

  handle_event-state :
      (e : Event) (c : Controller B)
      → (handle_event ops e c).state ≡ next_state c.state (effective_event e)
  unfolding handle_event
  handle_event-state display_reset c = reinitialize_display-state c ∙ sym (reset_stays c.state)
  handle_event-state e c = (process_event-state ops c e).0

  take_event-state :
      (es : List Event) (c : Controller B)
      → (take_event ops es c).state ≡ path c.state (read (first_of es))
  unfolding path
  take_event-state [] c = refl
  take_event-state (e ∷ es) c = handle_event-state e (record c { event_queue = es })

  run_once-state :
      (c : Controller B) → (run_once ops c).state ≡ path c.state (read (taken ops c round))
  unfolding run_once path
  run_once-state c = at c.is_running
    where
      at :
          (b : Bool)
          → (if b then take_event ops c.event_queue c else c).state
            ≡ path c.state (read (if b then first_of c.event_queue else []))
      at true = take_event-state c.event_queue c
      at false = refl

  step-state :
      (c : Controller B) (i : Input) → (step ops c i).state ≡ path c.state (read (taken ops c i))
  unfolding step path handle_card_presented post_event poll_timeout poll_no_flow
  step-state c (key k) =
      if_keeps c.state (hears_keys c.keyboard) _ _ (handle_key_press-state c k) refl
  step-state c (card uid) = if_keeps c.state (hears_cards c.card_reader) _ _ refl refl
  step-state c (pulses n) = option_keeps c.state c.flow_meter _ _ refl (λ m.
      (run_flow_callback-Frame_any (record c { flow_meter = some (FlowMeter.count_pulses m n).0 })
        (FlowMeter.count_pulses m n).1).state)
  step-state c (elapse n) = refl
  step-state c poll_inactivity = if_keeps c.state _ _ _ refl refl
  step-state c poll_flow =
      if_keeps c.state (no_flow c) _ _ (if_keeps c.state (is_refueling c.state) _ _ refl refl) refl
  step-state c round = run_once-state c

  path-append : (s : SystemState) (xs ys : List Event) → path s (xs ++ ys) ≡ path (path s xs) ys
  unfolding path
  path-append s [] ys = refl
  path-append s (x ∷ xs) ys = path-append (next_state s x) xs ys

  read-append : (xs ys : List Event) → read (xs ++ ys) ≡ read xs ++ read ys
  read-append [] ys = refl
  read-append (x ∷ xs) ys = ap (λ es. effective_event x ∷ es) (read-append xs ys)

  -- However the threads interleave, the machine is where its table leads from the state it was in,
  -- over the events that the main loop has handled, CancelNoFuel read as CancelPressed.
  pub steps-path :
      (c : Controller B) (is : List Input)
      → (steps ops c is).state ≡ path c.state (read (handled ops c is))
  unfolding steps handled path
  steps-path c [] = refl
  steps-path c (i ∷ is) =
      let t = taken ops c i in
      let later = handled ops (step ops c i) is in
      steps-path (step ops c i) is
      ∙ (ap (λ s. path s (read later)) (step-state c i)
          ∙ (sym (path-append c.state (read t) (read later))
              ∙ ap (path c.state) (sym (read-append t later))))

  -- In any interleaving of keys, cards, pulses, time and rounds of the loop, a controller that
  -- waited refuels only after the loop has handled a successful authorization, then the choice of a
  -- tank, then a volume that was taken.
  pub steps-refueling :
      (c : Controller B) (is : List Input)
      → c.state ≡ waiting
      → (steps ops c is).state ≡ refueling
      → Embeds
          (authorization_success ∷ tank_selected ∷ volume_entered ∷ [])
          (read (handled ops c is))
  steps-refueling c is start now =
      refueling_needs_stages (read (handled ops c is))
        (ap (λ s. path s (read (handled ops c is))) (sym start) ∙ (sym (steps-path c is) ∙ now))
