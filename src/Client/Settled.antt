-- ===== src/Client/Settled.antt =====
-- What becomes of a report leaves the session open or closed as it was.
use fuelflux.Base.{
  ◌≡◌, refl, ◌∙◌, arith, Bool, true, false, not, Option, none, some, Text, pos, codes,
  if◌then◌else◌, ℤ, is_empty,
}
use fuelflux.Types.{Volume}
use fuelflux.Storage.{MessageStorage, MessageMethod, refuel, intake}
use fuelflux.Json.{Json, Attempt, ok, fail, throws, ◌>>=◌, attempt, value_int}
use fuelflux.Client.{Client, failed_by_exception, failed_with, std_controller_error}
use fuelflux.Client.Http.{Network, http_request, error_response}
use fuelflux.Client.Reports.{
  send_report, send_stored, settle, rejected, store_failed, settled_payload, settle_payload,
  map_tank, endpoint_of, store_text, store_report,
}
use fuelflux.Client.Laws.{SameSession, http_request-Same}

module _ (net : Network) where
  pub exception-SameSession : (c : Client) → SameSession c (failed_by_exception c).0
  exception-SameSession c = ground arith

  -- Where the storing of a report gives a client, it has the same session state.
  abbrev Keeps : Client → Attempt Client → Type 0
  Keeps c (ok d) = d.is_authorized ≡ c.is_authorized
  Keeps c (fail e) = Unit {0}
  Keeps c throws = Unit {0}

  >>=-Keeps :
      {A : Type 0} (c : Client) (m : Attempt A) (f : A → Attempt Client)
      → ((a : A) → Keeps c (f a))
      → Keeps c (m >>= f)
  >>=-Keeps c (ok a) f h = h a
  >>=-Keeps c (fail e) f h = tt
  >>=-Keeps c throws f h = tt

  if-Keeps :
      (c : Client) (b : Bool) (x y : Attempt Client)
      → Keeps c x
      → Keeps c y
      → Keeps c (if b then x else y)
  if-Keeps c true x y h k = h
  if-Keeps c false x y h k = k

  rejected-authorized :
      (c : Client) (e : Text) (a : Attempt Client)
      → Keeps c a
      → (rejected net c e a).0.is_authorized ≡ c.is_authorized
  rejected-authorized c e (ok d) h = h
  rejected-authorized c e (fail t) h = (exception-SameSession c).is_authorized
  rejected-authorized c e throws h = (exception-SameSession c).is_authorized

  store_text-authorized :
      (c : Client) (s : MessageStorage) (method : MessageMethod) (code : ℤ) (text : Text)
      → (store_text net c s method code text).is_authorized ≡ c.is_authorized
  store_text-authorized c s method code text = ground arith

  store_failed-authorized :
      (c : Client) (method : MessageMethod) (body response : Json) (e : Text)
      → (rejected net c e (store_failed net c method body response)).0.is_authorized
        ≡ c.is_authorized
  unfolding store_failed
  store_failed-authorized c method body response e =
      rejected-authorized c e (store_failed net c method body response) (of_storage c.storage)
    where
      of_storage :
          (o : Option MessageStorage)
          → Keeps c (elim o as (λ x. Attempt Client) [
            | none ↦ ok c
            | some s ↦
                if is_empty c.authorized_uid
                then ok c
                else store_report net c s method body response
          ])
      of_storage none = refl
      of_storage (some s) =
          if-Keeps c (is_empty c.authorized_uid) (ok c) (store_report net c s method body response)
            refl
            (>>=-Keeps c (value_int net.json response (codes "CodeError") (pos 0)) _ (λ code.
              >>=-Keeps c (attempt (net.dump body)) _
                (λ text. store_text-authorized c s method code text)))

  settle-authorized :
      (c : Client) (method : MessageMethod) (v : Volume) (body response : Json)
      (r : Attempt (Option Text))
      → (settle net c method v body response r).0.is_authorized ≡ c.is_authorized
  settle-authorized c refuel v body response (ok none) = refl
  settle-authorized c intake v body response (ok none) = refl
  settle-authorized c method v body response (ok (some e)) =
      store_failed-authorized c method body response e
  settle-authorized c method v body response (fail t) = (exception-SameSession c).is_authorized
  settle-authorized c method v body response throws = (exception-SameSession c).is_authorized

  pub send_report-authorized :
      (c : Client) (method : MessageMethod) (v : Volume) (body : Json)
      → (send_report net c method v body).0.is_authorized ≡ c.is_authorized
  unfolding send_report
  send_report-authorized c method v body =
      let (d, response) = http_request net c (endpoint_of method) body true in
      settle-authorized d method v body response (error_response net response)
      ∙ (http_request-Same net c (endpoint_of method) body true).0.is_authorized

  settle_payload-SameSession :
      (c : Client) (r : Attempt (Option Text)) → SameSession c (settle_payload net c r).0
  settle_payload-SameSession c (ok none) = ground arith
  settle_payload-SameSession c (ok (some e)) = ground arith
  settle_payload-SameSession c (fail t) = exception-SameSession c
  settle_payload-SameSession c throws = exception-SameSession c

  SameSession-trans : (c d e : Client) → SameSession c d → SameSession d e → SameSession c e
  SameSession-trans c d e p q = ground arith

  pub send_stored-SameSession :
      (method : MessageMethod) (c : Client) (text : Text)
      → SameSession c (send_stored net method c text).0
  unfolding send_stored
  send_stored-SameSession method c text = of_session c.is_authorized (net.parse text)
    where
      of_session :
          (b : Bool) (o : Option Json)
          → SameSession c
              (if not b
                then failed_with c std_controller_error
                else elim o as (λ x. Client × Bool) [
                  | none ↦ failed_with c std_controller_error
                  | some body ↦ settled_payload net (
                      http_request net c (endpoint_of method) (map_tank net c.fuel_tanks body) true)
                ]).0
      of_session false o = ground arith
      of_session true none = ground arith
      of_session true (some body) =
          let (d, response) =
            http_request net c (endpoint_of method) (map_tank net c.fuel_tanks body) true in
          SameSession-trans c d (settle_payload net d (error_response net response)).0
            (http_request-Same net c (endpoint_of method) (map_tank net c.fuel_tanks body) true).0
            (settle_payload-SameSession d (error_response net response))
