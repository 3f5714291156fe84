-- ===== src/Client/Interface.antt =====
-- The backend client as an implementation of IBackend.
use fuelflux.Storage.{refuel, intake}
use fuelflux.Backend.{IBackend}
use fuelflux.Client.{Client}
use fuelflux.Client.Http.{Network}
use fuelflux.Client.Session.{authorize, deauthorize}
use fuelflux.Client.Reports.{refuel_report, intake_report, send_stored}
use fuelflux.Client.Fetch.{fetch_user_cards, fetch_fuel_tanks}

abbrev pub client_backend : Network → IBackend Client
client_backend net = record {
  authorize = authorize net;
  deauthorize = deauthorize net;
  refuel = refuel_report net;
  intake = intake_report net;
  refuel_payload = send_stored net refuel;
  intake_payload = send_stored net intake;
  is_authorized = λ c. c.is_authorized;
  get_role_id = λ c. c.role_id;
  get_allowance = λ c. c.allowance;
  get_price = λ c. c.price;
  get_fuel_tanks = λ c. c.fuel_tanks;
  is_network_error = λ c. c.network_error;
  get_token = λ c. c.token;
  get_last_error = λ c. c.last_error;
  get_controller_uid = λ c. c.controller_uid;
  fetch_user_cards = fetch_user_cards net;
  fetch_fuel_tanks = fetch_fuel_tanks net;
}
