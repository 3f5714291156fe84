-- ===== src/Examples/Session.antt =====
-- The theorems on a session, at concrete inputs.
use fuelflux.Base.{◌≡◌, refl, true, false, Bool, [], ◌∷◌, some, codes}
use fuelflux.Types.{volume_entry, refueling}
use fuelflux.Storage.{MessageStorage, refuel, method_to_string}
use fuelflux.Storage.Laws.{reports}
use fuelflux.Controller.Session.{volume_of_tank, volume_of_tank}
use fuelflux.Controller.Authorization.{request_authorization}
use fuelflux.Controller.Authorization.Decision.{decision, request_authorization-queue}
use fuelflux.Controller.Reports.{complete_refueling}
use fuelflux.Controller.Reports.Once.{complete_refueling_online, complete_refueling_offline}
use fuelflux.Controller.{Controller}
use fuelflux.Examples.{services, session_at, idle, offline, ivan, backlogged}

request_authorization-queue_example :
    (request_authorization (services false) idle ivan).event_queue
    ≡ decision (services false) idle ivan ∷ []
request_authorization-queue_example = request_authorization-queue (services false) idle ivan

complete_refueling_online_example :
    ((complete_refueling (services true) (session_at refueling)).backend ≡ some false)
    × ((complete_refueling (services true) (session_at refueling)).message_storage
        ≡ some (backlogged []))
complete_refueling_online_example =
    complete_refueling_online (services true) (session_at refueling) true refl refl

complete_refueling_offline_example :
    (s' : MessageStorage) × ((complete_refueling (services false) offline).message_storage
      ≡ some s')
    × (reports s'.backlog ≡ (ivan, method_to_string refuel, codes "{}") ∷ [])
    × ((complete_refueling (services false) offline).backend ≡ some true)
complete_refueling_offline_example =
    complete_refueling_offline (services false) offline (backlogged []) refl refl refl refl

-- The session with a display.
abbrev with_display : Controller Bool
with_display = record (session_at volume_entry) {
  display = some (record { present = true; connected = true; shown = [] });
}
