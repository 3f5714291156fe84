-- ===== src/Client/Fetch.antt =====
-- BackendBase::FetchUserCards and FetchFuelTanks.
use fuelflux.Base.{
  ℕ, ℤ, pos, true, if◌then◌else◌, List, [], ◌∷◌, ◌++◌, Option, none, some, Text, codes,
}
use fuelflux.Types.{Volume}
use fuelflux.Numbers.{to_string}
use fuelflux.Backend.{UserCard, FuelTank}
use fuelflux.Json.{
  Json, integer, string, array, object, Items, nil, cons, end, member, Attempt, ok, fail, throws,
  ◌>>=◌, attempt, find_member, is_object, is_null, is_number, is_number_integer,
}
use fuelflux.Client.{Client, std_backend_error, failed_with, failed_by_exception}
use fuelflux.Client.Http.{Network, http_request, error_response}

-- A page of items as far as it was read, and how the reading ended.
pub data End : Type 0 where
  finished malformed thrown : End

-- What becomes of one item: it is skipped, kept, or ends the reading.
pub data Item (A : Type 0) : Type 0 where
  skip : Item A
  keep : A → Item A
  stop : End → Item A

abbrev pub attempted : {A : Type 0} → Attempt A → Item A
attempted (ok a) = keep a
attempted (fail e) = stop malformed
attempted throws = stop thrown

module _ (net : Network) where
  -- A member that is an integer, or 0.
  abbrev pub int_member : Option Json → Attempt ℤ
  int_member none = ok (pos 0)
  int_member (some j) = if is_number_integer j then attempt (net.get_int j) else ok (pos 0)

  -- A member that is absent, null or a number; any other kind is a malformed item.
  abbrev pub number_member : Option Json → Attempt Volume
  number_member none = ok (pos 0)
  number_member (some j) =
      if is_null j
      then ok (pos 0)
      else if is_number j
      then attempt (net.get_double j)
      else fail std_backend_error

  abbrev pub text_member : Option Json → Text
  text_member (some (string t)) = t
  text_member j = []

  abbrev pub card_of : Json → Text → Attempt UserCard
  card_of j uid = do
    role ← int_member (find_member (codes "RoleId") j)
    allowance ← number_member (find_member (codes "Allowance") j)
    ok (record { uid = uid; role_id = role; allowance = allowance })

  -- An item without a Uid is skipped.
  pub read_card : Json → Item UserCard
  read_card j = elim (find_member (codes "Uid") j) [
    | some (string uid) ↦ attempted (card_of j uid)
    | _ ↦ skip
  ]

  abbrev pub tank_of : Json → ℤ → Attempt FuelTank
  tank_of j number = do
    id ← int_member (find_member (codes "IdTank") j)
    volume ← number_member (find_member (codes "Volume") j)
    ok (record {
      id_tank = id;
      visual_number_tank = number;
      name_tank = text_member (find_member (codes "NameTank") j);
      volume = volume;
    })

  -- An item without a VisualNumberTank is skipped.
  pub read_fuel_tank : Json → Item FuelTank
  read_fuel_tank j = elim (find_member (codes "VisualNumberTank") j) [
    | some (integer n) ↦ attempted (attempt (net.get_int (integer n)) >>= tank_of j)
    | _ ↦ skip
  ]

  abbrev pub after_item : {A : Type 0} → Item A → List A × End → List A × End
  after_item skip rest = rest
  after_item (keep a) rest = (a ∷ rest.0, rest.1)
  after_item (stop e) rest = ([], e)

  pub read_page : {A : Type 0} → (Json → Item A) → Items → List A × End
  read_page read nil = ([], finished)
  read_page read (cons j js) =
      let rest = read_page read js in if is_object j then after_item (read j) rest else rest

  -- The page that is returned, with the error that is left behind.
  abbrev pub ended : {A : Type 0} → Client → List A → End → (List A → List A) → Client × List A
  ended c xs finished cut = (record c { last_error = [] }, xs)
  ended c xs malformed cut = ((failed_with c std_backend_error).0, cut xs)
  ended c xs thrown cut = ((failed_by_exception c).0, xs)

  abbrev pub page_of :
      {A : Type 0} → (Json → Item A) → (List A → List A) → Client → Json → Client × List A
  page_of read cut c (array js) = ended c (read_page read js).0 (read_page read js).1 cut
  page_of read cut c j = ((failed_with c std_backend_error).0, [])

  abbrev pub fetched :
      {A : Type 0}
      → (Json → Item A)
      → (List A → List A)
      → Client
      → Json
      → Attempt (Option Text)
      → Client × List A
  fetched read cut c response (ok none) = page_of read cut c response
  fetched read cut c response (ok (some e)) = ((failed_with c e).0, [])
  fetched read cut c response (fail e) = ((failed_by_exception c).0, [])
  fetched read cut c response throws = ((failed_by_exception c).0, [])

  abbrev pub page_endpoint : Text → ℕ → ℕ → Text
  page_endpoint path first number =
      path ++ (to_string (pos first) ++ (codes "&number=" ++ to_string (pos number)))

  abbrev pub page_body : Client → Json
  page_body c = object (member (codes "PumpControllerUid") (string c.controller_uid) end)

  abbrev pub fetch_from :
      {A : Type 0} → (Json → Item A) → (List A → List A) → Client × Json → Client × List A
  fetch_from read cut (c, response) = fetched read cut c response (error_response net response)

  -- A malformed card ends the page: the cards before it are returned.
  unfoldable pub fetch_user_cards : Client → ℕ → ℕ → Client × List UserCard
  unfolding read_page read_card
  fetch_user_cards c first number =
      fetch_from read_card (λ xs. xs)
        (http_request net c (page_endpoint (codes "/api/pump/cards?first=") first number)
          (page_body c) true)

  -- A malformed tank ends the page: no tank is returned.
  unfoldable pub fetch_fuel_tanks : Client → ℕ → ℕ → Client × List FuelTank
  unfolding read_page read_fuel_tank
  fetch_fuel_tanks c first number =
      fetch_from read_fuel_tank (λ xs. [])
        (http_request net c (page_endpoint (codes "/api/pump/tanks?first=") first number)
          (page_body c) true)
