-- ===== src/Client/Closed.antt =====
-- A client without a session keeps nothing of an earlier one, whatever it is asked.
use fuelflux.Base.{
  ℕ, ◌≡◌, refl, ◌∙◌, sym, arith, Bool, true, false, List, [], ◌∷◌, Option, none, some, Text, pos,
  inl, inr, ◌⊎◌, codes, Bool-cases,
}
use fuelflux.Types.{UserId, Volume, TankNumber, IntakeDirection}
use fuelflux.Storage.{MessageMethod, refuel, intake}
use fuelflux.Json.{Json, Attempt, ok, fail, throws, array}
use fuelflux.Executor.{submit}
use fuelflux.Client.{Client, failed_with, std_controller_error}
use fuelflux.Client.Http.{Network, http_request, error_response, send_async_deauthorize}
use fuelflux.Client.Session.{authorize, deauthorize}
use fuelflux.Client.Reports.{
  refuel_report, intake_report, send_report, send_stored, refuel_tank, intake_tank, refuel_request,
  intake_request,
}
use fuelflux.Client.Fetch.{
  fetch_user_cards, fetch_fuel_tanks, fetch_from, fetched, ended, read_page, Item, End, finished,
  malformed, thrown, page_endpoint, page_body, read_card, read_fuel_tank,
}
use fuelflux.Client.Laws.{SameSession, http_request-Same, authorize_lem}
use fuelflux.Client.Settled.{exception-SameSession, send_report-authorized, send_stored-SameSession}

-- What a client without a session holds.
pub record IsClosed (c : Client) : Type 0 where
  pub no_token : c.token ≡ []
  pub no_role : c.role_id ≡ pos 0
  pub no_allowance : c.allowance ≡ pos 0
  pub no_tanks : c.fuel_tanks ≡ []
  pub nobody : c.authorized_uid ≡ []

-- Without a session nothing is kept.
abbrev pub Closes : Client → Type 0
Closes c = c.is_authorized ≡ false → IsClosed c

-- The invariant of a client: a session is open, or nothing is kept of one.
abbrev pub IsConsistent : Client → Type 0
IsConsistent c = (c.is_authorized ≡ true) ⊎ IsClosed c

IsConsistent-Closes : (c : Client) → IsConsistent c → Closes c
IsConsistent-Closes c (inl open_session) = λ closed. ground (arith, open_session, closed)
IsConsistent-Closes c (inr h) = λ closed. h

Closes-IsConsistent : (c : Client) → Closes c → IsConsistent c
Closes-IsConsistent c h = elim (Bool-cases c.is_authorized) [
  | inl open_session ↦ inl open_session
  | inr closed ↦ inr (h closed)
]

-- The calls of the interface that change the client.
pub data Call : Type 0 where
  authorize_card : UserId → Call
  deauthorize_card : Call
  report_refuel : TankNumber → Volume → Call
  report_intake : TankNumber → Volume → IntakeDirection → Call
  resend : MessageMethod → Text → Call
  fetch_cards : ℕ → ℕ → Call
  fetch_tanks : ℕ → ℕ → Call

SameSession-Closes : (c d : Client) → SameSession c d → Closes c → Closes d
SameSession-Closes c d same v closed = ground (arith, v (ground arith))

module _ (net : Network) where
  pub apply_call : Client → Call → Client
  apply_call c (authorize_card uid) = (authorize net c uid).0
  apply_call c deauthorize_card = (deauthorize net c).0
  apply_call c (report_refuel n v) = (refuel_report net c n v).0
  apply_call c (report_intake n v d) = (intake_report net c n v d).0
  apply_call c (resend method text) = (send_stored net method c text).0
  apply_call c (fetch_cards first number) = (fetch_user_cards net c first number).0
  apply_call c (fetch_tanks first number) = (fetch_fuel_tanks net c first number).0

  unfoldable pub apply_calls : Client → List Call → Client
  apply_calls c [] = c
  apply_calls c (k ∷ ks) = apply_calls (apply_call c k) ks

  pub deauthorize-Closes : (c : Client) → Closes c → Closes (deauthorize net c).0
  unfolding deauthorize send_async_deauthorize submit
  deauthorize-Closes c v = elim (Bool-cases c.is_authorized) [
    | inl open_session ↦ λ closed. ground arith
    | inr none_open ↦ λ closed. ground (arith, v none_open)
  ]

  -- What a report leaves is consistent where the report is sent in an open session only.
  reported-Closes :
      {A : Type 0} (c : Client) (o : Option A) (r : A → Client × Bool)
      → Closes c
      → (c.is_authorized ≡ false → o ≡ none)
      → ((a : A) → (r a).0.is_authorized ≡ c.is_authorized)
      → Closes
          (elim o as (λ x. Client × Bool) [
            | none ↦ failed_with c std_controller_error
            | some a ↦ r a
          ]).0
  reported-Closes c none r k unsent h = λ closed. ground (arith, k closed)
  reported-Closes c (some a) r k unsent h = λ closed. ground (arith, unsent (sym (h a) ∙ closed))

  refuel_report-Closes :
      (c : Client) (n : TankNumber) (v : Volume) → Closes c → Closes (refuel_report net c n v).0
  unfolding refuel_report
  refuel_report-Closes c n v k =
      reported-Closes c (refuel_tank net c n v)
        (λ t. send_report net c refuel v (refuel_request t v c)) k (λ closed. rw closed refl)
        (λ t. send_report-authorized net c refuel v (refuel_request t v c))

  intake_report-Closes :
      (c : Client) (n : TankNumber) (v : Volume) (d : IntakeDirection)
      → Closes c
      → Closes (intake_report net c n v d).0
  unfolding intake_report
  intake_report-Closes c n v d k =
      reported-Closes c (intake_tank net c n v)
        (λ t. send_report net c intake v (intake_request t v d c)) k (λ closed. rw closed refl)
        (λ t. send_report-authorized net c intake v (intake_request t v d c))

  fetch_from-SameSession :
      {A : Type 0} (read : Json → Item A) (cut : List A → List A) (c : Client) (r : Client × Json)
      → SameSession c r.0
      → SameSession c (fetch_from net read cut r).0
  fetch_from-SameSession {A} read cut c (d, response) same =
      of_error (error_response net response) response
    where
      of_end : (xs : List A) (e : End) → SameSession c (ended net d xs e cut).0
      of_end xs finished = ground arith
      of_end xs malformed = ground arith
      of_end xs thrown = ground (arith, exception-SameSession net d)

      of_error :
          (e : Attempt (Option Text)) (j : Json) → SameSession c (fetched net read cut d j e).0
      of_error (ok none) (array js) = of_end (read_page net read js).0 (read_page net read js).1
      of_error (ok none) _ = ground arith
      of_error (ok (some t)) j = ground arith
      of_error (fail t) j = ground (arith, exception-SameSession net d)
      of_error throws j = ground (arith, exception-SameSession net d)

  pub fetch_cards-Closes :
      (c : Client) (first number : ℕ) → Closes c → Closes (fetch_user_cards net c first number).0
  unfolding fetch_user_cards
  fetch_cards-Closes c first number k =
      let r =
        http_request net c (page_endpoint net (codes "/api/pump/cards?first=") first number)
          (page_body net c) true in
      SameSession-Closes c (fetch_from net (read_card net) (λ xs. xs) r).0
        (fetch_from-SameSession (read_card net) (λ xs. xs) c r
          (http_request-Same net c (page_endpoint net (codes "/api/pump/cards?first=") first number)
            (page_body net c) true).0)
        k

  pub fetch_tanks-Closes :
      (c : Client) (first number : ℕ) → Closes c → Closes (fetch_fuel_tanks net c first number).0
  unfolding fetch_fuel_tanks
  fetch_tanks-Closes c first number k =
      let r =
        http_request net c (page_endpoint net (codes "/api/pump/tanks?first=") first number)
          (page_body net c) true in
      SameSession-Closes c (fetch_from net (read_fuel_tank net) (λ xs. []) r).0
        (fetch_from-SameSession (read_fuel_tank net) (λ xs. []) c r
          (http_request-Same net c (page_endpoint net (codes "/api/pump/tanks?first=") first number)
            (page_body net c) true).0)
        k

  pub authorize-Closes : (c : Client) (uid : UserId) → Closes c → Closes (authorize net c uid).0
  authorize-Closes c uid k = elim (authorize_lem net c uid) [
    | inl h ↦ λ closed. ground (arith, h, closed)
    | inr h ↦ SameSession-Closes c (authorize net c uid).0 h.1 k
  ]

  apply_call-Closes : (c : Client) (k : Call) → Closes c → Closes (apply_call c k)
  unfolding apply_call
  apply_call-Closes c (authorize_card uid) = authorize-Closes c uid
  apply_call-Closes c deauthorize_card = deauthorize-Closes c
  apply_call-Closes c (report_refuel n v) = refuel_report-Closes c n v
  apply_call-Closes c (report_intake n v d) = intake_report-Closes c n v d
  apply_call-Closes c (resend method text) =
      SameSession-Closes c (send_stored net method c text).0
        (send_stored-SameSession net method c text)
  apply_call-Closes c (fetch_cards first number) = fetch_cards-Closes c first number
  apply_call-Closes c (fetch_tanks first number) = fetch_tanks-Closes c first number

  apply_all-Closes : (c : Client) (ks : List Call) → Closes c → Closes (apply_calls c ks)
  unfolding apply_calls
  apply_all-Closes c [] h = h
  apply_all-Closes c (k ∷ ks) h = apply_all-Closes (apply_call c k) ks (apply_call-Closes c k h)

  -- Whatever calls are made, with whatever the network answers: from a client that holds nothing
  -- while it has no session, none ends in a client without a session that holds a token, a role, an
  -- allowance, tanks or a card of an earlier one.
  pub apply_calls-IsConsistent :
      (c : Client) (ks : List Call) → IsConsistent c → IsConsistent (apply_calls c ks)
  apply_calls-IsConsistent c ks v =
      Closes-IsConsistent (apply_calls c ks) (apply_all-Closes c ks (IsConsistent-Closes c v))
