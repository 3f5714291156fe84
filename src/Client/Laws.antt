-- ===== src/Client/Laws.antt =====
-- The session of the client: what Authorize and Deauthorize do to it, and what no call leaves behind.
use fuelflux.Base.{
  ◌≡◌, refl, arith, Bool, true, false, ◌⊎◌, inl, inr, Bool-cases, [], Option, none, some, Text,
  codes,
}
use fuelflux.Types.{UserId}
use fuelflux.Json.{Json, Attempt, ok, fail, throws}
use fuelflux.Client.{Client, Request, Answer, no_handle, no_transfer, answered}
use fuelflux.Client.Http.{
  Network, http_request, handed, receive, wrapper_error, send_text, bearer_of,
}
use fuelflux.Client.Session.{
  Grant, authorize, authorize_with, conclude, read_grant, authorization_body,
}

-- Everything but the network error, the requests and their count, the last error and the executor is
-- the same.
pub record SameSession (c d : Client) : Type 0 where
  pub controller_uid : d.controller_uid ≡ c.controller_uid
  pub authorized_uid : d.authorized_uid ≡ c.authorized_uid
  pub token : d.token ≡ c.token
  pub is_authorized : d.is_authorized ≡ c.is_authorized
  pub role_id : d.role_id ≡ c.role_id
  pub allowance : d.allowance ≡ c.allowance
  pub price : d.price ≡ c.price
  pub fuel_tanks : d.fuel_tanks ≡ c.fuel_tanks
  pub clock : d.clock ≡ c.clock

-- The storage and the error that a call starts from are the same.
pub record SameRest (c d : Client) : Type 0 where
  pub storage : d.storage ≡ c.storage
  pub executor : d.executor ≡ c.executor
  pub last_error : d.last_error ≡ c.last_error

module _ (net : Network) where
  handed-Same :
      (c : Client) (r : Request) (a : Answer)
      → SameSession c (handed c r a) × SameRest c (handed c r a)
  handed-Same c r a = ground arith

  receive-Same :
      (c : Client) (a : Answer) → SameSession c (receive net c a).0 × SameRest c (receive net c a).0
  unfolding receive
  receive-Same c no_handle = ground arith
  receive-Same c no_transfer = ground arith
  receive-Same c (answered status body) = ground arith

  receive-network :
      (c : Client) (a : Answer)
      → c.network_error ≡ false
      → (receive net c a).0.network_error ≡ true
      → (receive net c a).1 ≡ wrapper_error
  unfolding receive
  receive-network c no_handle q h = refl
  receive-network c no_transfer q h = refl
  receive-network c (answered status body) q h = ground arith

  send_text-Same :
      (c : Client) (endpoint : Text) (bearer text : Option Text)
      → SameSession c (send_text net c endpoint bearer text).0
        × SameRest c (send_text net c endpoint bearer text).0
  send_text-Same c endpoint bearer none = ground arith
  send_text-Same c endpoint bearer (some text) =
      let r : Request = record { endpoint = endpoint; body = text; bearer = bearer } in
      ground
        (arith, receive-Same (handed c r (net.transfer c.attempts r)) (net.transfer c.attempts r))

  pub http_request-Same :
      (c : Client) (endpoint : Text) (body : Json) (bearer : Bool)
      → SameSession c (http_request net c endpoint body bearer).0
        × SameRest c (http_request net c endpoint body bearer).0
  unfolding http_request
  http_request-Same c endpoint body bearer = ground (
    arith,
    send_text-Same (record c { network_error = false }) endpoint (bearer_of net c bearer)
        (net.dump body),
  )

  -- Where the network failed, the response is the wrapper's own error.
  pub http_request-network :
      (c : Client) (endpoint : Text) (body : Json) (bearer : Bool)
      → (http_request net c endpoint body bearer).0.network_error ≡ true
      → (http_request net c endpoint body bearer).1 ≡ wrapper_error
  unfolding http_request
  http_request-network c endpoint body bearer h = of_text (net.dump body) h
    where
      c' : Client
      c' = record c { network_error = false }

      of_text :
          (t : Option Text)
          → (send_text net c' endpoint (bearer_of net c bearer) t).0.network_error ≡ true
          → (send_text net c' endpoint (bearer_of net c bearer) t).1 ≡ wrapper_error
      of_text none k = refl
      of_text (some text) k =
          let r : Request = record {
            endpoint = endpoint;
            body = text;
            bearer = bearer_of net c bearer;
          } in
          receive-network (handed c' r (net.transfer c.attempts r)) (net.transfer c.attempts r) refl
            k

  authorize_with-lem :
      (c : Client) (uid : UserId) (r : Client × Json)
      → SameSession c r.0
      → SameRest c r.0
      → let (d, done) = authorize_with net uid r in
        ((done ≡ true)
          × (d.is_authorized ≡ true)
          × (d.authorized_uid ≡ uid)
          × (d.last_error ≡ [])
          × (d.storage ≡ c.storage))
        ⊎ ((done ≡ false) × SameSession c d × (d.storage ≡ c.storage))
  authorize_with-lem c uid (d, response) same rest = of_grant (read_grant net response)
    where
      of_grant :
          (g : Attempt Grant)
          → let (e, done) = conclude net d uid g in
            ((done ≡ true)
              × (e.is_authorized ≡ true)
              × (e.authorized_uid ≡ uid)
              × (e.last_error ≡ [])
              × (e.storage ≡ c.storage))
            ⊎ ((done ≡ false) × SameSession c e × (e.storage ≡ c.storage))
      of_grant (ok g) = inl (refl, refl, refl, refl, rest.storage)
      of_grant (fail t) = inr (refl, ground arith, rest.storage)
      of_grant throws = inr (refl, ground arith, rest.storage)

  -- Authorize opens a session for the card and leaves no error, or fails and leaves the session,
  -- open or not, with its token, role, allowance and tanks as it was; the storage is not touched.
  pub authorize_lem :
      (c : Client) (uid : UserId)
      → let (d, done) = authorize net c uid in
        ((done ≡ true)
          × (d.is_authorized ≡ true)
          × (d.authorized_uid ≡ uid)
          × (d.last_error ≡ [])
          × (d.storage ≡ c.storage))
        ⊎ ((done ≡ false) × SameSession c d × (d.storage ≡ c.storage))
  unfolding authorize
  authorize_lem c uid = elim (Bool-cases c.is_authorized) [
    | inl open_session ↦ inr (ground arith, ground arith, ground arith)
    | inr closed ↦
        let same =
          http_request-Same c (codes "/api/pump/authorize") (authorization_body net c uid) false in
        ground (
          arith,
          authorize_with-lem c uid
              (http_request net c (codes "/api/pump/authorize") (authorization_body net c uid)
                false)
              same.0 same.1,
        )
  ]
