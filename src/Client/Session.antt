-- ===== src/Client/Session.antt =====
-- BackendBase::Authorize, with the tanks of its answer, and BackendBase::Deauthorize.
use fuelflux.Base.{
  ℤ, pos, Bool, true, false, eqb_ℤ, not, if◌then◌else◌, List, [], ◌∷◌, Option, none, some, Text,
  codes,
}
use fuelflux.Types.{UserId, Volume}
use fuelflux.Backend.{BackendTankInfo}
use fuelflux.Executor.{submit}
use fuelflux.Json.{
  Json, boolean, integer, float, string, array, object, Items, nil, cons, end, member, Attempt, ok,
  fail, throws, ◌>>=◌, ◌>>◌, guard, attempt, is_object, is_null, is_string, is_number_integer,
  find_member, get_string, value_int, value_text,
}
use fuelflux.Client.{Client, std_controller_error, std_backend_error, clear_session, failed_with}
use fuelflux.Client.Http.{Network, http_request, error_response, send_async_deauthorize}

-- What a successful authorization reads from the response.
pub record Grant : Type 0 where
  pub token : Text
  pub role_id : ℤ
  pub allowance : Volume
  pub price : Volume
  pub fuel_tanks : List BackendTankInfo

-- A member that must be there and of the right kind.
abbrev pub required : Option Json → (Json → Bool) → Attempt Json
required none test = fail std_backend_error
required (some j) test = if test j then ok j else fail std_backend_error

module _ (net : Network) where
  -- A member that may be absent or null: 0 then.
  abbrev pub optional_double : Option Json → Attempt Volume
  optional_double none = ok (pos 0)
  optional_double (some j) = if is_null j then ok (pos 0) else attempt (net.get_double j)

  -- isCheckEnoughFuel: a boolean, or an integer that is not 0.
  abbrev pub check_enough_fuel : Option Json → Attempt Bool
  check_enough_fuel (some (boolean b)) = ok b
  check_enough_fuel (some (integer n)) =
      attempt (net.get_int (integer n)) >>= λ k. ok (not (eqb_ℤ k (pos 0)))
  check_enough_fuel j = ok false

  -- allowanceTank: a text that std::stod reads, with 0 where it does not, or a number.
  abbrev pub tank_limit : Option Json → Attempt Volume
  tank_limit (some (string t)) = ok (elim (net.read_double t) [ none ↦ pos 0 | some v ↦ v ])
  tank_limit (some (integer n)) = attempt (net.get_double (integer n))
  tank_limit (some (float v)) = attempt (net.get_double (float v))
  tank_limit j = ok (pos 0)

  pub read_tank : Json → Attempt BackendTankInfo
  read_tank tank = do
    id ← value_int net.json tank (codes "idTank") (pos 0)
    number ← value_int net.json tank (codes "visualNumberTank") (pos 0)
    name ← value_text tank (codes "nameTank") []
    checked ← check_enough_fuel (find_member (codes "isCheckEnoughFuel") tank)
    limit ← (if checked then tank_limit (find_member (codes "allowanceTank") tank) else ok (pos 0))
    ok (record { id_tank = id; visual_number_tank = number; name_tank = name; volume = limit })

  pub read_tanks : Items → Attempt (List BackendTankInfo)
  unfolding read_tank
  read_tanks nil = ok []
  read_tanks (cons j js) = do t ← read_tank j; ts ← read_tanks js; ok (t ∷ ts)

  abbrev pub tanks_member : Option Json → Attempt (List BackendTankInfo)
  tanks_member (some (array js)) = read_tanks js
  tanks_member j = ok []

  -- An error response ends a call with its text.
  abbrev pub not_error : Json → Attempt (Unit {0})
  not_error response =
      error_response net response >>= λ e. elim e [ none ↦ ok tt | some t ↦ fail t ]

  pub read_grant : Json → Attempt Grant
  unfolding read_tanks
  read_grant response = do
    not_error response
    guard (is_object response) (codes "Invalid response format")
    token ← (required (find_member (codes "Token") response) is_string >>= get_string)
    role ←
        (required (find_member (codes "RoleId") response) is_number_integer >>= λ j.
        attempt (net.get_int j))
    allowance ← optional_double (find_member (codes "Allowance") response)
    price ← optional_double (find_member (codes "Price") response)
    tanks ← tanks_member (find_member (codes "fuelTanks") response)
    ok (record {
      token = token;
      role_id = role;
      allowance = allowance;
      price = price;
      fuel_tanks = tanks;
    })

  abbrev pub authorization_body : Client → UserId → Json
  authorization_body c uid = object (
      member (codes "CardUid") (string uid)
        (member (codes "PumpControllerUid") (string c.controller_uid) end))

  -- The session that the grant opens.
  abbrev pub granted : Client → UserId → Grant → Client
  granted c uid g = record c {
    token = g.token;
    is_authorized = true;
    role_id = g.role_id;
    allowance = g.allowance;
    price = g.price;
    fuel_tanks = g.fuel_tanks;
    authorized_uid = uid;
    last_error = [];
  }

  abbrev pub conclude : Client → UserId → Attempt Grant → Client × Bool
  conclude c uid (ok g) = (granted c uid g, true)
  conclude c uid (fail e) = failed_with c e
  conclude c uid throws = failed_with c std_controller_error

  abbrev pub authorize_with : UserId → Client × Json → Client × Bool
  authorize_with uid (c, response) = conclude c uid (read_grant response)

  unfoldable pub authorize : Client → UserId → Client × Bool
  unfolding read_grant
  authorize c uid =
      if c.is_authorized
      then failed_with c std_controller_error
      else authorize_with uid
          (http_request net c (codes "/api/pump/authorize") (authorization_body c uid) false)

  -- The request of Deauthorize is left to the executor, which may drop it; where no shared_ptr
  -- manages the client it is made at once.
  abbrev pub close_at_portal : Client → Text → Client
  close_at_portal c token =
      if c.shared
      then record c { executor = (submit c.executor token).0 }
      else send_async_deauthorize net c token

  -- Deauthorize: the state is cleared at once.
  unfoldable pub deauthorize : Client → Client × Bool
  unfolding send_async_deauthorize
  deauthorize c =
      if not c.is_authorized
      then failed_with c std_controller_error
      else (close_at_portal (record (clear_session c) { last_error = [] }) c.token, true)
