-- ===== src/Client/Delivery.antt =====
-- What becomes of a report: on a network failure, with a volume above the allowance, and of its body
-- when the tank is mapped once more.
use fuelflux.Base.{
  negsuc, ◌≡◌, refl, ◌∙◌, ap, arith, true, false, List, [], ◌∷◌, ◌++◌, some, Text, is_empty, ◌<ℤ◌,
  codes,
}
use fuelflux.Types.{Volume, TankNumber}
use fuelflux.Backend.{BackendTankInfo}
use fuelflux.Storage.{MessageStorage, MessageMethod, add_backlog, method_to_string}
use fuelflux.Storage.Laws.{reports, reports-add_backlog}
use fuelflux.Json.{Json, integer, ok}
use fuelflux.Client.{Client, std_controller_error}
use fuelflux.Client.Http.{Network, http_request, error_response, wrapper_error}
use fuelflux.Client.Reports.{
  find_tank, refuel_request, send_report, settle, settled, store_failed, refuel_report, map_tank,
  mapped_number, endpoint_of,
}
use fuelflux.Client.Laws.{http_request-Same, http_request-network}

module _ (net : Network) where
  wrapper_error-text :
      net.get_int (integer (negsuc 0)) ≡ some (negsuc 0)
      → error_response net wrapper_error ≡ ok (some (codes "Ошибка связи с сервером"))
  unfolding error_response
  wrapper_error-text law = rw law refl

  settle-network :
      (d : Client) (method : MessageMethod) (v : Volume) (body : Json) (text : Text)
      (s : MessageStorage)
      → net.get_int (integer (negsuc 0)) ≡ some (negsuc 0)
      → net.dump body ≡ some text
      → d.storage ≡ some s
      → is_empty d.authorized_uid ≡ false
      → let r = settle net d method v body wrapper_error (error_response net wrapper_error) in
        (r.1 ≡ false) × (r.0.storage ≡ some (add_backlog s d.authorized_uid method text).0)
  unfolding store_failed
  settle-network d method v body text s law printed held named =
      rw (wrapper_error-text law) (ground (arith, law, printed, held, named))

  -- If the network fails while a report is sent, the call fails, and the storage that the client was
  -- given holds the report at the end of its backlog, with the user of the session and the printed
  -- body; the dead messages stay. The error code -1 is read as -1, the body can be printed, and the
  -- database is open and does the statement.
  pub send_report-network :
      (c : Client) (method : MessageMethod) (v : Volume) (body : Json) (text : Text)
      (s : MessageStorage)
      → net.get_int (integer (negsuc 0)) ≡ some (negsuc 0)
      → net.dump body ≡ some text
      → c.storage ≡ some s
      → is_empty c.authorized_uid ≡ false
      → s.db.is_open ≡ true
      → s.db.works s.db.executed ≡ true
      → (http_request net c (endpoint_of method) body true).0.network_error ≡ true
      → (s' : MessageStorage) × ((send_report net c method v body).0.storage ≡ some s')
        × ((send_report net c method v body).1 ≡ false)
        × (reports s'.backlog
            ≡ reports s.backlog ++ (c.authorized_uid, method_to_string method, text) ∷ [])
        × (s'.dead_messages ≡ s.dead_messages)
  unfolding send_report
  send_report-network c method v body text s law printed held named is_open works lost =
      let sending = http_request net c (endpoint_of method) body true in
      let (same, rest) = http_request-Same net c (endpoint_of method) body true in
      let response = http_request-network net c (endpoint_of method) body true lost in
      let (refused, kept) =
        settle-network sending.0 method v body text s law printed (rest.storage ∙ held)
          (ap is_empty same.authorized_uid ∙ named) in
      let done : (add_backlog s c.authorized_uid method text).1 ≡ true =
        unfold add_backlog in ground arith in
      (
        (add_backlog s c.authorized_uid method text).0,
        ap (λ j. (settled net method v body (sending.0, j)).0.storage) response
            ∙ (kept ∙ ap (λ uid. some (add_backlog s uid method text).0) same.authorized_uid),
        ap (λ j. (settled net method v body (sending.0, j)).1) response ∙ refused,
        reports-add_backlog s c.authorized_uid method text done,
        unfold add_backlog in ground arith,
      )

  -- Mapping a refueling body once more: if the tank's identifier in it is the number of another
  -- tank, the body then names that tank's identifier.
  pub map_tank-refuel_request :
      (c : Client) (ts : List BackendTankInfo) (t u : BackendTankInfo) (v : Volume)
      → net.get_int (integer t.id_tank) ≡ some t.id_tank
      → find_tank t.id_tank ts ≡ some u
      → map_tank net ts (refuel_request t v c) ≡ refuel_request u v c
  unfolding map_tank
  map_tank-refuel_request c ts t u v law found =
      ap (mapped_number net ts (refuel_request t v c)) law ∙ rw (found, mapped_number) refl

  -- A refueling above the allowance, as it is when fuel flows on after the target, is not sent and
  -- not stored: only the error changes.
  pub refuel_report-above :
      (c : Client) (n : TankNumber) (v : Volume)
      → c.allowance <ℤ v
      → refuel_report net c n v ≡ (record c { last_error = std_controller_error }, false)
  unfolding refuel_report
  refuel_report-above c n v above = ground arith
