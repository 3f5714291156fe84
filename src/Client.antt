-- ===== src/Client.antt =====
-- src/backend_base.cpp with the session of include/session.h, and Backend::HttpRequestWrapper of
-- src/backend.cpp: the backend client, which implements IBackend over JSON requests.
pub mod Http
pub mod Session
pub mod Reports
pub mod Fetch
pub mod Interface
pub mod Laws
pub mod Delivery
pub mod Resend
pub mod Settled
pub mod Closed
pub mod Background
use fuelflux.Base.{
  ℕ, ℤ, pos, Bool, true, false, not, if◌then◌else◌, List, [], ◌∷◌, ◌++◌, Option, none, some, Text,
  codes, is_empty,
}
use fuelflux.Types.{UserId, Volume}
use fuelflux.Backend.{BackendTankInfo}
use fuelflux.Storage.{MessageStorage}
use fuelflux.Executor.{Executor}
use fuelflux.Json.{Json}

abbrev pub std_controller_error : Text
std_controller_error = codes "Ошибка контроллера"

abbrev pub std_backend_error : Text
std_backend_error = codes "Ошибка портала"

-- A request as it is handed to libcurl: the path, the printed body and the bearer token, if any.
pub record Request : Type 0 where
  pub endpoint : Text
  pub body : Text
  pub bearer : Option Text

-- What libcurl makes of a request: it is not handed over, for want of a handle or for an exception,
-- or there is no transfer, or a status with a body.
pub data Answer : Type 0 where
  no_handle : Answer
  no_transfer : Answer
  answered : ℕ → Text → Answer

-- `sent` holds the requests that were handed to libcurl, the latest last, and `attempts` counts
-- those that were begun; the tasks of the executor are the tokens that are to be closed. `shared`
-- says that a shared_ptr manages the client. `clock` is system_clock::now() in milliseconds.
pub record Client : Type 0 where
  pub controller_uid : Text
  pub authorized_uid : UserId
  pub token : Text
  pub is_authorized : Bool
  pub role_id : ℤ
  pub allowance : Volume
  pub price : Volume
  pub fuel_tanks : List BackendTankInfo
  pub last_error : Text
  pub network_error : Bool
  pub storage : Option MessageStorage
  pub executor : Executor Text
  pub sent : List Request
  pub attempts : ℕ
  pub shared : Bool
  pub clock : ℕ

-- Session::Clear, and the fields that Deauthorize clears with it.
abbrev pub clear_session : Client → Client
clear_session c = record c {
  token = [];
  is_authorized = false;
  role_id = pos 0;
  allowance = pos 0;
  price = pos 0;
  fuel_tanks = [];
  authorized_uid = [];
}

-- A call that fails with a text.
abbrev pub failed_with : Client → Text → Client × Bool
failed_with c e = (record c { last_error = e }, false)

-- The handler of an exception: an error that is set already is kept.
abbrev pub failed_by_exception : Client → Client × Bool
failed_by_exception c =
    if is_empty c.last_error then failed_with c std_backend_error else (c, false)
