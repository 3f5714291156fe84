-- ===== src/Examples/Network.antt =====
-- The theorems on the backend client, the executor and the URLs, at concrete inputs.
use fuelflux.Base.{
  if◌then◌else◌, ℕ, ◌≤◌, ◌≡◌, refl, arith, true, false, inr, List, [], ◌∷◌, ◌++◌, Option, none,
  some, codes, pos, ℤ, length,
}
use fuelflux.Storage.{MessageStorage, refuel, method_to_string}
use fuelflux.Storage.Laws.{reports}
use fuelflux.Backend.{BackendTankInfo}
use fuelflux.Executor.{new_executor}
use fuelflux.Executor.Bounded.{
  Call, submit_task, work_round, shutdown_call, apply_calls, accepted, apply_calls_lem,
}
use fuelflux.Url.{extract_host}
use fuelflux.Url.RoundTrip.{Url, literal, IsUrl, print_url, host_text, extract_host-print}
use fuelflux.Json.{Json, integer, float, string, object, end, member}
use fuelflux.Client.{Client, Answer, no_transfer, answered}
use fuelflux.Client.Http.{Network, http_request, receive, deauthorize_request}
use fuelflux.Client.Session.{deauthorize}
use fuelflux.Numbers.{litre}
use fuelflux.Client.Resend.{refuel_message, resend-refuel}
use fuelflux.Client.Background.{is_asked, run_worker, deauthorize-run_worker}
use fuelflux.Client.Reports.{send_report, refuel_report, send_stored, refuel_request, find_tank}
use fuelflux.Client.Delivery.{send_report-network}
use fuelflux.Client.Closed
use fuelflux.Client.Closed.{
  IsClosed, IsConsistent, authorize_card, deauthorize_card, report_refuel, resend,
  apply_calls-IsConsistent,
}
use fuelflux.Examples.{ivan, litres, two_tanks, backlogged}

abbrev read_int : Json → Option ℤ
read_int (integer n) = some n
read_int j = none

abbrev read_double : Json → Option ℤ
read_double (float v) = some v
read_double j = none

-- A network that gives every request the same answer, and a parser that reads every text alike.
abbrev pub network : Json → Answer → Network
network j a = record {
  json = record {
    get_int = read_int;
    get_double = read_double;
    dump = λ j. some (codes "{}");
    parse = λ t. some j;
    read_double = λ t. none;
  };
  transfer = λ n r. a;
}

abbrev pub down : Network
down = network (object end) no_transfer

abbrev pub grants : Network
grants =
    network
      (object (
        member (codes "Token") (string (codes "t"))
          (member (codes "RoleId") (integer (pos 3)) end)))
      (answered 200 (codes "{}"))

abbrev pub logged_out_client : Client
logged_out_client = record {
  controller_uid = codes "C1";
  authorized_uid = [];
  token = [];
  is_authorized = false;
  role_id = pos 0;
  allowance = pos 0;
  price = pos 0;
  fuel_tanks = [];
  last_error = [];
  network_error = false;
  storage = some (backlogged []);
  executor = new_executor 2 10;
  sent = [];
  attempts = 0;
  shared = true;
  clock = 5;
}

abbrev customer_client : Client
customer_client = record logged_out_client {
  authorized_uid = ivan;
  token = codes "t";
  is_authorized = true;
  role_id = pos 1;
  allowance = litres 50;
  fuel_tanks = two_tanks;
}

abbrev tank_one : BackendTankInfo
tank_one = record {
  id_tank = pos 2;
  visual_number_tank = pos 1;
  name_tank = codes "A";
  volume = pos 0;
}

abbrev tank_two : BackendTankInfo
tank_two = record {
  id_tank = pos 9;
  visual_number_tank = pos 2;
  name_tank = codes "B";
  volume = pos 0;
}

send_report-network_example :
    (s' : MessageStorage) × ((send_report down customer_client refuel
        (litres 5)
        (object end)).0.storage
      ≡ some s')
    × ((send_report down customer_client refuel (litres 5) (object end)).1 ≡ false)
    × (reports s'.backlog ≡ reports [] ++ (ivan, method_to_string refuel, codes "{}") ∷ [])
    × (s'.dead_messages ≡ [])
unfolding http_request receive
send_report-network_example =
    send_report-network down customer_client refuel (litres 5) (object end) (codes "{}")
      (backlogged []) refl refl refl refl refl refl refl

abbrev waiter : Client
waiter = record customer_client { fuel_tanks = tank_one ∷ tank_two ∷ [] }

-- A network without a transfer, over a parser that gives back the report of the first tank.
abbrev lossy : Network
lossy = network (refuel_request tank_one (litres 5) customer_client) no_transfer

resend_example :
    (s' : MessageStorage) × ((refuel_report lossy waiter (pos 1) (litres 5)).0.storage ≡ some s')
    × (reports s'.backlog ≡ reports [] ++ (ivan, method_to_string refuel, codes "{}") ∷ [])
    × ((send_stored lossy refuel waiter (codes "{}")).0.sent
        ≡ [] ++ refuel_message lossy waiter (codes "{}") ∷ [])
unfolding find_tank http_request receive litre
resend_example =
    resend-refuel lossy waiter waiter (pos 1) (litres 5) tank_one tank_two (codes "{}") (codes "{}")
      (backlogged []) refl refl refl refl refl refl refl refl refl refl refl refl refl refl

abbrev a_shift : List Closed.Call
a_shift =
    authorize_card ivan
    ∷ report_refuel (pos 1) (litres 5)
    ∷ deauthorize_card
    ∷ resend refuel (codes "{}")
    ∷ []

logged_out_client-IsConsistent : IsConsistent logged_out_client
logged_out_client-IsConsistent = inr (ground arith)

apply_calls_example : IsConsistent (Closed.apply_calls grants logged_out_client a_shift)
apply_calls_example =
    apply_calls-IsConsistent grants logged_out_client a_shift logged_out_client-IsConsistent

abbrev a_day : List (Call ℕ)
a_day = submit_task 3 ∷ submit_task 4 ∷ work_round ∷ submit_task 5 ∷ shutdown_call ∷ work_round ∷ []

executor_example :
    let e = apply_calls (new_executor 1 1) a_day in
    (length e.tasks ≤ 1) × (e.taken ++ e.tasks ≡ accepted (new_executor 1 1) a_day)
executor_example = apply_calls_lem 1 1 a_day

abbrev portal_url : Url
portal_url = record {
  scheme = codes "https";
  userinfo = some (codes "pump:secret");
  host = literal (codes "fe80::1");
  port = some (codes "8443");
  path = some (codes "api/pump");
}

portal_url-IsUrl : IsUrl portal_url
portal_url-IsUrl = ground arith

extract_host_example : extract_host (print_url portal_url) ≡ host_text portal_url.host
extract_host_example = extract_host-print portal_url portal_url-IsUrl

deauthorize-run_worker_example :
    let d = run_worker down true (deauthorize down customer_client).0 in
    IsClosed (deauthorize down customer_client).0
    × IsClosed d
    × (d.is_authorized ≡ false)
    × (d.sent ≡ (
        if is_asked down true customer_client
        then [] ++ deauthorize_request (codes "t") ∷ []
        else []))
unfolding new_executor
deauthorize-run_worker_example =
    deauthorize-run_worker down true customer_client refl refl (omega arith)
