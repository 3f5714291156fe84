-- ===== src/System/Lifecycle.antt =====
-- Controller::initialize and Controller::shutdown, with the cache manager that they start and stop.
use fuelflux.Base.{◌≡◌, refl, ◌∙◌, ap, Bool, true, false, if◌then◌else◌, [], Option, none, some}
use fuelflux.Types.{waiting, error, fault}
use fuelflux.Services.{Services}
use fuelflux.Controller.{Controller}
use fuelflux.Controller.Peripherals.{
  initialize_peripherals, setup_peripheral_callbacks, shutdown_peripherals,
}
use fuelflux.CacheManager
use fuelflux.CacheManager.{CacheManager}
use fuelflux.Machine.Process.{process_event, reset, effective_event}
use fuelflux.Machine.Graph.{next_state}
use fuelflux.Machine.Table.{transition}
use fuelflux.Machine.Step.{process_event-state, reset-state}

-- The controller with its cache manager, and whether the no-flow monitor runs.
pub record Station (B S : Type 0) : Type 0 where
  pub controller : Controller B
  pub cache_manager : Option (CacheManager S)
  pub monitor_running : Bool

abbrev pub start_manager : {S : Type 0} → Option (CacheManager S) → Option (CacheManager S)
start_manager none = none
start_manager (some m) = some (CacheManager.start m).0

abbrev pub stop_manager : {S : Type 0} → Option (CacheManager S) → Option (CacheManager S)
stop_manager none = none
stop_manager (some m) = some (CacheManager.stop m)

-- The controller after its peripherals: it runs, in the error state where they failed.
abbrev pub began : {B : Type 0} → Services B → Controller B × Bool → Controller B × Bool
began ops (c, ok) =
    let c' = record (reset ops (setup_peripheral_callbacks c)) { is_running = true } in
    (if ok then c' else (process_event ops c' fault).0, ok)

module _ {B S : Type 0} (ops : Services B) where
  unfoldable pub initialize : Station B S → Station B S × Bool
  initialize s =
      let (c, ok) =
        began ops (initialize_peripherals (record s.controller { last_error_message = [] })) in
      (
        record s {
          controller = c;
          cache_manager = start_manager s.cache_manager;
          monitor_running = true;
        },
        ok,
      )

  -- A controller that was initialized runs, waits if its peripherals are there and is in the error
  -- state if they are not, and says so; the no-flow monitor runs.
  initialize-state :
      (s : Station B S)
      → let (s', ok) = initialize s in
        (s'.controller.state ≡ (if ok then waiting else error)) × (s'.monitor_running ≡ true)
  unfolding initialize transition
  initialize-state s =
      of_result (initialize_peripherals (record s.controller { last_error_message = [] }))
    where
      of_result :
          (r : Controller B × Bool)
          → ((began ops r).0.state ≡ (if (began ops r).1 then waiting else error)) × (true ≡ true)
      of_result (c, true) = (reset-state ops (setup_peripheral_callbacks c), refl)
      of_result (c, false) =
          let c' = record (reset ops (setup_peripheral_callbacks c)) { is_running = true } in
          (
            (process_event-state ops c' fault).0
                ∙ ap (λ st. next_state st (effective_event fault))
                    (reset-state ops (setup_peripheral_callbacks c)),
            refl,
          )

  -- The wait for the main loop, which leaves by itself, is not a step of this one.
  unfoldable pub shutdown : Station B S → Station B S
  shutdown s =
      let s' = record s { cache_manager = stop_manager s.cache_manager } in
      if s.controller.is_running
      then record s' {
        controller = shutdown_peripherals (record s.controller { is_running = false });
        monitor_running = false;
      }
      else s'
