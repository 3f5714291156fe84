-- ===== src/Client/Resend.antt =====
-- A report that the network did not take, from Refuel to its resending from the backlog.
use fuelflux.Base.{
  negsuc, ◌≡◌, refl, ◌∙◌, ap, arith, true, false, [], ◌∷◌, ◌++◌, Option, none, some, Text, is_empty,
  codes,
}
use fuelflux.Types.{Volume, TankNumber}
use fuelflux.Backend.{BackendTankInfo}
use fuelflux.Storage.{MessageStorage, refuel, method_to_string}
use fuelflux.Storage.Laws.{reports}
use fuelflux.Json.{Json, integer, Attempt, ok, fail, throws}
use fuelflux.Client.{Client, Request, Answer, no_handle, no_transfer, answered}
use fuelflux.Client.Http.{
  Network, http_request, receive, is_handed, handed, bearer_of, error_response,
}
use fuelflux.Client.Reports.{
  find_tank, refuel_tank, refuel_request, refuel_report, send_stored, settle_payload, endpoint_of,
  map_tank,
}
use fuelflux.Client.Delivery.{send_report-network, map_tank-refuel_request}

module _ (net : Network) where
  receive-sent : (c : Client) (a : Answer) → (receive net c a).0.sent ≡ c.sent
  unfolding receive
  receive-sent c no_handle = refl
  receive-sent c no_transfer = refl
  receive-sent c (answered status body) = ground arith

  settle_payload-sent :
      (c : Client) (r : Attempt (Option Text)) → (settle_payload net c r).0.sent ≡ c.sent
  settle_payload-sent c (ok none) = refl
  settle_payload-sent c (ok (some e)) = refl
  settle_payload-sent c (fail t) = ground arith
  settle_payload-sent c throws = ground arith

  -- A refueling report in this request.
  abbrev pub refuel_message : Client → Text → Request
  refuel_message c text = record {
    endpoint = codes "/api/pump/refuel";
    body = text;
    bearer = bearer_of net c true;
  }

  http_request-sent :
      (c : Client) (body : Json) (text : Text)
      → net.dump body ≡ some text
      → is_handed (net.transfer c.attempts (refuel_message c text)) ≡ true
      → (http_request net c (endpoint_of refuel) body true).0.sent
        ≡ c.sent ++ refuel_message c text ∷ []
  unfolding http_request
  http_request-sent c body text printed there =
      let c' = record c { network_error = false } in
      let a = net.transfer c.attempts (refuel_message c text) in
      rw printed (receive-sent (handed c' (refuel_message c text) a) a ∙ rw there refl)

  send_stored-sent :
      (c : Client) (payload text : Text) (body : Json)
      → c.is_authorized ≡ true
      → net.parse payload ≡ some body
      → net.dump (map_tank net c.fuel_tanks body) ≡ some text
      → is_handed (net.transfer c.attempts (refuel_message c text)) ≡ true
      → (send_stored net refuel c payload).0.sent ≡ c.sent ++ refuel_message c text ∷ []
  unfolding send_stored
  send_stored-sent c payload text body open_session parsed printed there =
      let (d, response) =
        http_request net c (endpoint_of refuel) (map_tank net c.fuel_tanks body) true in
      rw (open_session, parsed)
        (settle_payload-sent d (error_response net response)
          ∙ http_request-sent c (map_tank net c.fuel_tanks body) text printed there)

  -- Refuel of a volume from the tank with a number; the network fails, and the report waits in the
  -- storage, at the end of the backlog, under the identifier of that tank. When a client with an
  -- open session sends what is stored, this identifier is mapped once more, as if it were a number:
  -- if the session has a tank with that number, the report that goes to the portal names the
  -- identifier of that tank. What nlohmann::json prints of the first body it parses back, both
  -- bodies can be printed, and an identifier and the error code -1 are read as they are; the
  -- database is open and does the statement, and libcurl has a handle for the second report.
  pub resend-refuel :
      (c c' : Client) (n : TankNumber) (v : Volume) (t u : BackendTankInfo) (text text' : Text)
      (s : MessageStorage)
      → refuel_tank net c n v ≡ some t
      → find_tank t.id_tank c'.fuel_tanks ≡ some u
      → net.get_int (integer (negsuc 0)) ≡ some (negsuc 0)
      → net.get_int (integer t.id_tank) ≡ some t.id_tank
      → net.dump (refuel_request t v c) ≡ some text
      → net.parse text ≡ some (refuel_request t v c)
      → net.dump (refuel_request u v c) ≡ some text'
      → c.storage ≡ some s
      → is_empty c.authorized_uid ≡ false
      → s.db.is_open ≡ true
      → s.db.works s.db.executed ≡ true
      → (http_request net c (endpoint_of refuel) (refuel_request t v c) true).0.network_error ≡ true
      → c'.is_authorized ≡ true
      → is_handed (net.transfer c'.attempts (refuel_message c' text')) ≡ true
      → (s' : MessageStorage) × ((refuel_report net c n v).0.storage ≡ some s')
        × (reports s'.backlog
            ≡ reports s.backlog ++ (c.authorized_uid, method_to_string refuel, text) ∷ [])
        × ((send_stored net refuel c' text).0.sent ≡ c'.sent ++ refuel_message c' text' ∷ [])
  unfolding refuel_report
  resend-refuel c c' n v t u text text' s tank other law id printed parsed printed' held named
        is_open works lost open_session there =
      let (s', kept, _, waiting, _) =
        send_report-network net c refuel v (refuel_request t v c) text s law printed held named
          is_open works lost in
      let mapped = map_tank-refuel_request net c c'.fuel_tanks t u v id other in
      (
        s',
        rw (tank, refuel_report) kept,
        waiting,
        send_stored-sent c' text text' (refuel_request t v c) open_session parsed
            (ap net.dump mapped ∙ printed') there,
      )
