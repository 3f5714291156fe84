-- ===== src/Controller/Reports/Keep.antt =====
-- A report leaves the state of the machine alone.
use fuelflux.Base.{◌≡◌, ◌∙◌, refl, arith, some}
use fuelflux.Controller.Keep.{if_keeps, option_keeps}
use fuelflux.Types.{UserId, Volume, RefuelTransaction}
use fuelflux.Services.{Services, refuel_body}
use fuelflux.Controller.{Controller}
use fuelflux.Storage.{refuel, add_backlog}
use fuelflux.Controller.Session.{close_backend_session}
use fuelflux.Controller.Reports.{
  complete_refueling, complete_intake_operation, log_refuel_transaction, log_refuel_offline,
  log_refuel_online, log_intake_transaction, log_intake_offline, log_intake_online, deduct_cached,
  refuel_transaction,
}

module _ {B : Type 0} (ops : Services B) where
  deduct_cached-state :
      (c : Controller B) (uid : UserId) (v : Volume) → (deduct_cached c uid v).state ≡ c.state
  unfolding deduct_cached
  deduct_cached-state c uid v = ground arith

  close_backend_session-state : (c : Controller B) → (close_backend_session ops c).state ≡ c.state
  unfolding close_backend_session
  close_backend_session-state c = ground arith

  log_refuel_online-state :
      (c : Controller B) (t : RefuelTransaction) → (log_refuel_online ops c t).state ≡ c.state
  unfolding log_refuel_online
  log_refuel_online-state c t = option_keeps c.state c.backend _ _ refl (λ b.
      deduct_cached-state (record c { backend = some (ops.refuel b t.tank_number t.volume).0 })
        t.user_id t.volume)

  log_refuel_transaction-state :
      (c : Controller B) (t : RefuelTransaction) → (log_refuel_transaction ops c t).state ≡ c.state
  unfolding log_refuel_transaction log_refuel_offline
  log_refuel_transaction-state c t =
      option_keeps c.state c.message_storage _ _ (log_refuel_online-state c t) (λ s.
        if_keeps c.state c.session_authorized_from_cache _ _
          (deduct_cached-state
            (record c {
              message_storage =
                  some
                    (add_backlog s t.user_id refuel
                      (ops.dump (refuel_body t.tank_number t.volume t.timestamp))).0;
            })
            t.user_id t.volume)
          (log_refuel_online-state c t))

  pub complete_refueling-state : (c : Controller B) → (complete_refueling ops c).state ≡ c.state
  unfolding complete_refueling
  complete_refueling-state c =
      close_backend_session-state (log_refuel_transaction ops c (refuel_transaction ops c))
      ∙ log_refuel_transaction-state c (refuel_transaction ops c)

  pub complete_intake_operation-state :
      (c : Controller B) → (complete_intake_operation ops c).state ≡ c.state
  unfolding complete_intake_operation log_intake_transaction log_intake_offline log_intake_online
  complete_intake_operation-state c = ground arith
