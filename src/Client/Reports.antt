-- ===== src/Client/Reports.antt =====
-- BackendBase::Refuel, Intake, RefuelPayload and IntakePayload.
use fuelflux.Base.{
  ℤ, pos, Bool, true, eqb_ℤ, ltb_ℤ, not, if◌then◌else◌, List, [], ◌∷◌, Option, none, some, Text,
  codes, is_empty,
}
use fuelflux.Types.{Volume, TankNumber, IntakeDirection, in_tank, out_of_tank}
use fuelflux.Numbers.{sub_double}
use fuelflux.Backend.{BackendTankInfo}
use fuelflux.Storage.{MessageStorage, MessageMethod, refuel, intake, add_backlog, add_dead_message}
use fuelflux.Json.{
  Json, integer, float, object, end, member, Attempt, ok, fail, throws, ◌>>=◌, attempt,
  is_number_integer, find_member, set_member, value_int,
}
use fuelflux.Client.{Client, std_controller_error, failed_with, failed_by_exception}
use fuelflux.Client.Http.{Network, http_request, error_response, http_request_wrapper_error_code}

-- std::find_if on visualNumberTank
unfoldable pub find_tank : TankNumber → List BackendTankInfo → Option BackendTankInfo
find_tank n [] = none
find_tank n (t ∷ ts) = if eqb_ℤ t.visual_number_tank n then some t else find_tank n ts

-- static_cast<int>(UserRole) and static_cast<int>(IntakeDirection)
abbrev pub customer_role : ℤ
customer_role = pos 1

abbrev pub operator_role : ℤ
operator_role = pos 2

abbrev pub direction_number : IntakeDirection → ℤ
direction_number in_tank = pos 1
direction_number out_of_tank = pos 2

abbrev pub refuel_request : BackendTankInfo → Volume → Client → Json
refuel_request t v c = object (
    member (codes "FuelVolume") (float v) (
      member (codes "TankNumber") (integer t.id_tank)
        (member (codes "TimeAt") (integer (pos c.clock)) end)))

abbrev pub intake_request : BackendTankInfo → Volume → IntakeDirection → Client → Json
intake_request t v d c = object (
    member (codes "Direction") (integer (direction_number d)) (
      member (codes "IntakeVolume") (float v) (
        member (codes "TankNumber") (integer t.id_tank)
          (member (codes "TimeAt") (integer (pos c.clock)) end))))

abbrev pub endpoint_of : MessageMethod → Text
endpoint_of refuel = codes "/api/pump/refuel"
endpoint_of intake = codes "/api/pump/fuel-intake"

module _ (net : Network) where
  -- What a failed report leaves in the storage: in the backlog if the error is the wrapper's own, in
  -- the dead messages otherwise.
  abbrev pub store_text : Client → MessageStorage → MessageMethod → ℤ → Text → Client
  store_text c s method code text =
      if eqb_ℤ code http_request_wrapper_error_code
      then record c { storage = some (add_backlog s c.authorized_uid method text).0 }
      else record c { storage = some (add_dead_message s c.authorized_uid method text).0 }

  abbrev pub store_report : Client → MessageStorage → MessageMethod → Json → Json → Attempt Client
  store_report c s method body response =
      value_int net.json response (codes "CodeError") (pos 0) >>= λ code.
      attempt (net.dump body) >>= λ text. ok (store_text c s method code text)

  unfoldable pub store_failed : Client → MessageMethod → Json → Json → Attempt Client
  store_failed c method body response = elim c.storage [
    | none ↦ ok c
    | some s ↦ if is_empty c.authorized_uid then ok c else store_report c s method body response
  ]

  abbrev pub rejected : Client → Text → Attempt Client → Client × Bool
  rejected c e (ok c') = failed_with c' e
  rejected c e (fail t) = failed_by_exception c
  rejected c e throws = failed_by_exception c

  -- An accepted refueling lowers the allowance, an accepted intake changes nothing.
  abbrev pub accepted : MessageMethod → Volume → Client → Client
  accepted refuel v c =
      let rest = sub_double c.allowance v in
      record c { allowance = if ltb_ℤ rest (pos 0) then pos 0 else rest; last_error = [] }
  accepted intake v c = record c { last_error = [] }

  abbrev pub settle :
      Client → MessageMethod → Volume → Json → Json → Attempt (Option Text) → Client × Bool
  settle c method v body response (ok none) = (accepted method v c, true)
  settle c method v body response (ok (some e)) = rejected c e (store_failed c method body response)
  settle c method v body response (fail t) = failed_by_exception c
  settle c method v body response throws = failed_by_exception c

  abbrev pub settled : MessageMethod → Volume → Json → Client × Json → Client × Bool
  settled method v body (c, response) =
      settle c method v body response (error_response net response)

  -- A report with this body, and what becomes of it.
  unfoldable pub send_report : Client → MessageMethod → Volume → Json → Client × Bool
  unfolding store_failed
  send_report c method v body =
      settled method v body (http_request net c (endpoint_of method) body true)

  -- The checks that Refuel makes before it sends.
  abbrev pub refuel_tank : Client → TankNumber → Volume → Option BackendTankInfo
  refuel_tank c n v =
      if not c.is_authorized
      then none
      else if not (eqb_ℤ c.role_id customer_role)
      then none
      else elim (find_tank n c.fuel_tanks) [
        | none ↦ none
        | some t ↦ if ltb_ℤ v (pos 0) then none else if ltb_ℤ c.allowance v then none else some t
      ]

  unfoldable pub refuel_report : Client → TankNumber → Volume → Client × Bool
  unfolding send_report
  refuel_report c n v = elim (refuel_tank c n v) [
    | none ↦ failed_with c std_controller_error
    | some t ↦ send_report c refuel v (refuel_request t v c)
  ]

  abbrev pub intake_tank : Client → TankNumber → Volume → Option BackendTankInfo
  intake_tank c n v =
      if not c.is_authorized
      then none
      else if not (eqb_ℤ c.role_id operator_role)
      then none
      else elim (find_tank n c.fuel_tanks) [
        | none ↦ none
        | some t ↦ if ltb_ℤ v (pos 0) then none else some t
      ]

  unfoldable pub intake_report : Client → TankNumber → Volume → IntakeDirection → Client × Bool
  unfolding send_report
  intake_report c n v d = elim (intake_tank c n v) [
    | none ↦ failed_with c std_controller_error
    | some t ↦ send_report c intake v (intake_request t v d c)
  ]

  abbrev pub mapped_number : List BackendTankInfo → Json → Option ℤ → Json
  mapped_number ts body none = body
  mapped_number ts body (some n) = elim (find_tank n ts) [
    | none ↦ body
    | some t ↦ set_member (codes "TankNumber") (integer t.id_tank) body
  ]

  -- ApplyVisualTankMapping
  unfoldable pub map_tank : List BackendTankInfo → Json → Json
  map_tank ts body = elim (find_member (codes "TankNumber") body) [
    | none ↦ body
    | some j ↦ if is_number_integer j then mapped_number ts body (net.get_int j) else body
  ]

  abbrev pub settle_payload : Client → Attempt (Option Text) → Client × Bool
  settle_payload c (ok none) = (record c { last_error = [] }, true)
  settle_payload c (ok (some e)) = failed_with c e
  settle_payload c (fail t) = failed_by_exception c
  settle_payload c throws = failed_by_exception c

  abbrev pub settled_payload : Client × Json → Client × Bool
  settled_payload (c, response) = settle_payload c (error_response net response)

  -- RefuelPayload and IntakePayload
  unfoldable pub send_stored : MessageMethod → Client → Text → Client × Bool
  unfolding map_tank
  send_stored method c payload =
      if not c.is_authorized then failed_with c std_controller_error else elim (net.parse payload) [
        | none ↦ failed_with c std_controller_error
        | some body ↦
            settled_payload
              (http_request net c (endpoint_of method) (map_tank c.fuel_tanks body) true)
      ]
