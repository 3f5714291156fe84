-- ===== src/Controller/Reports.antt =====
-- The reports of completed operations: to the backend, or to the backlog in a session that was
-- opened from the cache.
pub mod Once
pub mod Keep
use fuelflux.Base.{◌&&◌, if◌then◌else◌, none, some}
use fuelflux.Types.{UserId, Volume, RefuelTransaction, IntakeTransaction, is_customer}
use fuelflux.Numbers.{mul_double}
use fuelflux.Storage.{MessageStorage, refuel, intake, add_backlog}
use fuelflux.UserCache.{deduct_allowance}
use fuelflux.Services.{Services, refuel_body, intake_body}
use fuelflux.Controller.{Controller}
use fuelflux.Controller.Session.{close_backend_session}

module _ {B : Type 0} where
  -- if (cacheManager_ && role == Customer) cacheManager_->DeductAllowance
  pub deduct_cached : Controller B → UserId → Volume → Controller B
  deduct_cached c uid v = elim c.user_cache [
    | none ↦ c
    | some u ↦
        if c.cache_manager && is_customer c.current_user.role
        then record c { user_cache = some (deduct_allowance u uid v).0 }
        else c
  ]

module _ {B : Type 0} (ops : Services B) where
  -- The branch of a session from the cache; the storage is there.
  pub log_refuel_offline : Controller B → MessageStorage → RefuelTransaction → Controller B
  unfolding deduct_cached
  log_refuel_offline c s t =
      let body = ops.dump (refuel_body t.tank_number t.volume t.timestamp) in
      deduct_cached (record c { message_storage = some (add_backlog s t.user_id refuel body).0 })
        t.user_id t.volume

  pub log_refuel_online : Controller B → RefuelTransaction → Controller B
  unfolding deduct_cached
  log_refuel_online c t = elim c.backend [
    | none ↦ c
    | some b ↦
        deduct_cached (record c { backend = some (ops.refuel b t.tank_number t.volume).0 })
          t.user_id t.volume
  ]

  pub log_refuel_transaction : Controller B → RefuelTransaction → Controller B
  unfolding log_refuel_offline log_refuel_online
  log_refuel_transaction c t = elim c.message_storage [
    | none ↦ log_refuel_online c t
    | some s ↦
        if c.session_authorized_from_cache then log_refuel_offline c s t else log_refuel_online c t
  ]

  abbrev pub refuel_transaction : Controller B → RefuelTransaction
  refuel_transaction c = record {
    user_id = c.current_user.uid;
    tank_number = c.selected_tank;
    volume = c.current_refuel_volume;
    total_amount = mul_double c.current_refuel_volume c.current_user.price;
    timestamp = c.wall_clock;
  }

  pub complete_refueling : Controller B → Controller B
  unfolding log_refuel_transaction close_backend_session
  complete_refueling c = close_backend_session ops (log_refuel_transaction c (refuel_transaction c))

  pub log_intake_offline : Controller B → MessageStorage → IntakeTransaction → Controller B
  log_intake_offline c s t =
      let body = ops.dump (intake_body t.tank_number t.volume t.direction t.timestamp) in
      record c { message_storage = some (add_backlog s t.operator_id intake body).0 }

  pub log_intake_online : Controller B → IntakeTransaction → Controller B
  log_intake_online c t = elim c.backend [
    | none ↦ c
    | some b ↦ record c { backend = some (ops.intake b t.tank_number t.volume t.direction).0 }
  ]

  pub log_intake_transaction : Controller B → IntakeTransaction → Controller B
  unfolding log_intake_offline log_intake_online
  log_intake_transaction c t = elim c.message_storage [
    | none ↦ log_intake_online c t
    | some s ↦
        if c.session_authorized_from_cache then log_intake_offline c s t else log_intake_online c t
  ]

  abbrev pub intake_transaction : Controller B → IntakeTransaction
  intake_transaction c = record {
    operator_id = c.current_user.uid;
    tank_number = c.selected_tank;
    volume = c.entered_volume;
    direction = c.selected_intake_direction;
    timestamp = c.wall_clock;
  }

  pub complete_intake_operation : Controller B → Controller B
  unfolding log_intake_transaction
  complete_intake_operation c = log_intake_transaction c (intake_transaction c)
