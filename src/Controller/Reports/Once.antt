-- ===== src/Controller/Reports/Once.antt =====
-- A completed operation is reported once: to the backend in an online session, and to the backlog
-- in a session from the cache.
use fuelflux.Base.{◌≡◌, true, false, arith, [], ◌∷◌, ◌++◌, some, if◌then◌else◌}
use fuelflux.Storage.{MessageStorage, refuel, intake, add_backlog, method_to_string}
use fuelflux.Storage.Laws.{reports, reports-add_backlog}
use fuelflux.Services.{Services, refuel_body, intake_body}
use fuelflux.Controller.{Controller}
use fuelflux.Controller.Session.{close_backend_session}
use fuelflux.Controller.Reports.{
  complete_refueling, complete_intake_operation, log_refuel_transaction, log_refuel_offline,
  log_refuel_online, deduct_cached,
}

module _ {B : Type 0} (ops : Services B) (c : Controller B) where
  -- In an online session the backend is told tank and volume and the session is closed; the backlog
  -- stays as it is.
  pub complete_refueling_online :
      (b : B)
      → c.backend ≡ some b
      → c.session_authorized_from_cache ≡ false
      → let told = (ops.refuel b c.selected_tank c.current_refuel_volume).0 in
        ((complete_refueling ops c).backend
          ≡ some (if ops.is_authorized told then (ops.deauthorize told).0 else told))
        × ((complete_refueling ops c).message_storage ≡ c.message_storage)
  unfolding complete_refueling log_refuel_transaction log_refuel_online deduct_cached
      close_backend_session
  complete_refueling_online b held online = ground arith

  -- In a session from the cache the report goes to the end of the backlog, with the user, the tank,
  -- the volume and the time, and the backend is not called; the database is open and does the
  -- statement.
  pub complete_refueling_offline :
      (s : MessageStorage)
      → c.message_storage ≡ some s
      → c.session_authorized_from_cache ≡ true
      → (s.db.is_open ≡ true)
      → s.db.works s.db.executed ≡ true
      → (s' : MessageStorage) × ((complete_refueling ops c).message_storage ≡ some s')
        × (reports s'.backlog
            ≡ reports s.backlog
              ++ (
                c.current_user.uid,
                method_to_string refuel,
                ops.dump (refuel_body c.selected_tank c.current_refuel_volume c.wall_clock),
              )
                ∷ [])
        × ((complete_refueling ops c).backend ≡ c.backend)
  unfolding complete_refueling log_refuel_transaction log_refuel_offline deduct_cached
      close_backend_session
  complete_refueling_offline s held offline is_open works =
      let body = ops.dump (refuel_body c.selected_tank c.current_refuel_volume c.wall_clock) in
      (
        (add_backlog s c.current_user.uid refuel body).0,
        ground arith,
        reports-add_backlog s c.current_user.uid refuel body (unfold add_backlog in ground arith),
        ground arith,
      )

  -- In a session from the cache the report of an intake goes to the end of the backlog too, with the
  -- user, the tank, the volume, the direction and the time, and the backend is not called; the
  -- database is open and does the statement.
  pub complete_intake_offline :
      (s : MessageStorage)
      → c.message_storage ≡ some s
      → c.session_authorized_from_cache ≡ true
      → s.db.is_open ≡ true
      → s.db.works s.db.executed ≡ true
      → (s' : MessageStorage) × ((complete_intake_operation ops c).message_storage ≡ some s')
        × (reports s'.backlog
            ≡ reports s.backlog
              ++ (
                c.current_user.uid,
                method_to_string intake,
                ops.dump (
                    intake_body c.selected_tank c.entered_volume c.selected_intake_direction
                      c.wall_clock),
              )
                ∷ [])
        × ((complete_intake_operation ops c).backend ≡ c.backend)
  unfolding complete_intake_operation
  complete_intake_offline s held offline is_open works =
      let body =
        ops.dump
          (intake_body c.selected_tank c.entered_volume c.selected_intake_direction c.wall_clock) in
      (
        (add_backlog s c.current_user.uid intake body).0,
        ground arith,
        reports-add_backlog s c.current_user.uid intake body (unfold add_backlog in ground arith),
        ground arith,
      )
