-- ===== src/Controller/Session.antt =====
-- The session: its end, the choice of a tank, and the entry of volumes.
pub mod Limits
pub mod End
use fuelflux.Base.{
  Bool, true, false, not, ◌&&◌, if◌then◌else◌, List, [], ◌∷◌, none, some, pos, ltb_ℤ, leb_ℤ, eqb_ℤ,
}
use fuelflux.Types.{
  Volume, TankNumber, TankInfo, IntakeDirection, intake_selected, tank_selected, volume_entered,
  intake_volume_entered, intake_direction_selected, is_customer, is_operator,
}
use fuelflux.Backend.{BackendTankInfo}
use fuelflux.Services.{Services}
use fuelflux.Controller.{
  Controller, post_event, clear_input, clear_input_silent, reset_session_data,
}
use fuelflux.Controller.Flow.{stop_pump, stop_meter}

-- The loop of Controller::isTankValid.
pub has_tank : TankNumber → List TankInfo → Bool
has_tank n [] = false
has_tank n (t ∷ ts) = if eqb_ℤ t.number n then true else has_tank n ts

-- The loops of Controller::getTankVolume.
unfoldable pub volume_of_tank : TankNumber → List BackendTankInfo → Volume
volume_of_tank n [] = pos 0
volume_of_tank n (t ∷ ts) = if eqb_ℤ t.visual_number_tank n then t.volume else volume_of_tank n ts

module _ {B : Type 0} (ops : Services B) where
  -- if (!sessionAuthorizedFromCache_ && backend_ && backend_->IsAuthorized()) Deauthorize
  unfoldable pub close_backend_session : Controller B → Controller B
  close_backend_session c = elim c.backend [
    | none ↦ c
    | some b ↦
        if not c.session_authorized_from_cache && ops.is_authorized b
        then record c { backend = some (ops.deauthorize b).0 }
        else c
  ]

  -- The pump is stopped if it is running; `stop` itself tests that too.
  pub end_current_session : Controller B → Controller B
  unfolding close_backend_session clear_input_silent reset_session_data
  end_current_session c =
      close_backend_session (stop_meter (stop_pump (clear_input_silent (reset_session_data c))))

  unfoldable pub get_tank_volume : Controller B → TankNumber → Volume
  get_tank_volume c n =
      if c.session_authorized_from_cache
      then volume_of_tank n c.cached_fuel_tanks
      else elim c.backend [ none ↦ pos 0 | some b ↦ volume_of_tank n (ops.get_fuel_tanks b) ]

  -- The tests of Controller::enterVolume.
  unfoldable pub volume_allowed : Controller B → Volume → Bool
  unfolding get_tank_volume
  volume_allowed c v =
      if leb_ℤ v (pos 0)
      then false
      else if ltb_ℤ (pos 0) (get_tank_volume c c.selected_tank)
          && ltb_ℤ (get_tank_volume c c.selected_tank) v
      then false
      else if is_customer c.current_user.role && ltb_ℤ c.current_user.allowance v
      then false
      else true

  unfoldable pub enter_volume : Controller B → Volume → Controller B
  unfolding volume_allowed post_event clear_input
  enter_volume c v =
      if volume_allowed c v
      then post_event (record c { entered_volume = v; target_refuel_volume = v }) volume_entered
      else clear_input c

module _ {B : Type 0} where
  unfoldable pub select_tank : Controller B → TankNumber → Controller B
  unfolding has_tank post_event
  select_tank c n =
      if has_tank n c.available_tanks
      then post_event (record c { selected_tank = n })
          (if is_operator c.current_user.role then intake_selected else tank_selected)
      else c

  pub start_fuel_intake : Controller B → Controller B
  start_fuel_intake c = post_event c intake_selected

  unfoldable pub enter_intake_volume : Controller B → Volume → Controller B
  unfolding post_event clear_input
  enter_intake_volume c v =
      if leb_ℤ v (pos 0)
      then clear_input c
      else post_event (record c { entered_volume = v }) intake_volume_entered

  unfoldable pub select_intake_direction : Controller B → IntakeDirection → Controller B
  unfolding post_event clear_input
  select_intake_direction c d =
      post_event (clear_input (record c { selected_intake_direction = d }))
        intake_direction_selected
