-- ===== src/Client/Http.antt =====
-- Backend::HttpRequestWrapper in the build without a modem, and IsErrorResponse.
use fuelflux.Base.{
  ◌+◌, ℕ, ℤ, ◌≡◌, refl, Bool-cases, inl, inr, pos, negsuc, Bool, true, false, ◌&&◌, not, leb, ltb,
  eqb_ℤ, if◌then◌else◌, [], ◌∷◌, ◌++◌, Option, none, some, Text, codes, text_eq, is_empty,
}
use fuelflux.Json.{
  Json, null, integer, string, object, end, member, JsonLib, Attempt, ok, ◌>>=◌, is_number_integer,
  find_member, value_text, attempt,
}
use fuelflux.Client.{Client, Request, Answer, no_handle, no_transfer, answered}

abbrev pub http_request_wrapper_error_code : ℤ
http_request_wrapper_error_code = negsuc 0

-- BuildWrapperErrorResponse
abbrev pub wrapper_error : Json
wrapper_error = object (
    member (codes "CodeError") (integer http_request_wrapper_error_code)
      (member (codes "TextError") (string (codes "Ошибка связи с сервером")) end))

-- The libraries below the client: JSON, and libcurl's answer to the n-th attempt.
pub record Network : Type 0 where
  pub json : JsonLib
  pub open json use *
  pub transfer : ℕ → Request → Answer

abbrev pub is_handed : Answer → Bool
is_handed no_handle = false
is_handed no_transfer = true
is_handed (answered status body) = true

abbrev pub handed : Client → Request → Answer → Client
handed c r a = record c {
  attempts = c.attempts + 1;
  sent = if is_handed a then c.sent ++ r ∷ [] else c.sent;
}

abbrev pub deauthorize_request : Text → Request
deauthorize_request token = record {
  endpoint = codes "/api/pump/deauthorize";
  body = codes "{}";
  bearer = if is_empty token then none else some token;
}

module _ (net : Network) where
  -- The body of a 2xx answer; `none` is a body that cannot be parsed.
  abbrev pub read_body : Text → Option Json
  read_body body =
      if is_empty body
      then some null
      else if text_eq body (codes "null")
      then some null
      else net.parse body

  abbrev pub network_failed : Client → Client × Json
  network_failed c = (record c { network_error = true }, wrapper_error)

  unfoldable pub receive : Client → Answer → Client × Json
  receive c no_handle = network_failed c
  receive c no_transfer = network_failed c
  receive c (answered status body) =
      if leb 200 status && ltb status 300
      then elim (read_body body) [ none ↦ network_failed c | some j ↦ (c, j) ]
      else network_failed c

  abbrev pub bearer_of : Client → Bool → Option Text
  bearer_of c use_bearer_token =
      if use_bearer_token && not (is_empty c.token) then some c.token else none

  -- The answer is that to the attempt with this number.
  abbrev pub perform : Client → Request → Client × Json
  perform c r = receive (handed c r (net.transfer c.attempts r)) (net.transfer c.attempts r)

  -- SendAsyncDeauthorize and SendAsyncDeauthorizeRequest; whatever libcurl answers is ignored.
  unfoldable pub send_async_deauthorize : Client → Text → Client
  send_async_deauthorize c token =
      handed c (deauthorize_request token) (net.transfer c.attempts (deauthorize_request token))

  -- The request, if its body can be printed.
  abbrev pub send_text : Client → Text → Option Text → Option Text → Client × Json
  send_text c endpoint bearer none = network_failed c
  send_text c endpoint bearer (some text) =
      perform c (record { endpoint = endpoint; body = text; bearer = bearer })

  -- HttpRequestWrapper(endpoint, "POST", body, use_bearer_token)
  unfoldable pub http_request : Client → Text → Json → Bool → Client × Json
  unfolding receive
  http_request c endpoint body use_bearer_token =
      send_text (record c { network_error = false }) endpoint (bearer_of c use_bearer_token)
        (net.dump body)

  abbrev pub error_text : Json → ℤ → Attempt (Option Text)
  error_text response code =
      if eqb_ℤ code (pos 0)
      then ok none
      else value_text response (codes "TextError") (codes "Неизвестная ошибка") >>= λ t. ok (some t)

  -- IsErrorResponse: the text of the error, if the response is one.
  unfoldable pub error_response : Json → Attempt (Option Text)
  error_response response = elim (find_member (codes "CodeError") response) [
    | none ↦ ok none
    | some code ↦
        if is_number_integer code
        then attempt (net.get_int code) >>= error_text response
        else ok none
  ]

  -- HttpRequestWrapper(endpoint, "POST", body, token): the overload that is given the token.
  pub http_request_with_token : Client → Text → Json → Text → Client × Json
  unfolding receive
  http_request_with_token c endpoint body token =
      send_text (record c { network_error = false }) endpoint
        (if is_empty token then none else some token) (net.dump body)

  -- The two overloads of the request agree: with the bearer token in use the first sends and
  -- returns what the second does with the token of the session, and without it what the second
  -- does with an empty token.
  pub http_request-http_request_with_token :
      (c : Client) (endpoint : Text) (body : Json) (use_bearer_token : Bool)
      → http_request c endpoint body use_bearer_token
        ≡ http_request_with_token c endpoint body (if use_bearer_token then c.token else [])
  unfolding http_request http_request_with_token
  http_request-http_request_with_token c endpoint body true = elim (Bool-cases (is_empty c.token)) [
    | inl e ↦ rw e refl
    | inr e ↦ rw e refl
  ]
  http_request-http_request_with_token c endpoint body false = refl
