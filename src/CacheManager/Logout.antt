-- ===== src/CacheManager/Logout.antt =====
-- The population with the backend client: the session that it opens, it closes.
use fuelflux.Base.{
  ℕ, ◌+◌, ◌≡◌, refl, Bool, true, false, not, eqb_ℤ, some, is_empty, Bool-cases, inl, inr, arith,
  subst,
}
use fuelflux.UserCache.{UserCache, begin_population, commit_population}
use fuelflux.Client.{Client}
use fuelflux.Client.Http.{Network, send_async_deauthorize}
use fuelflux.Client.Session.{authorize, deauthorize}
use fuelflux.Client.Laws.{authorize_lem}
use fuelflux.Client.Interface.{client_backend}
use fuelflux.Client.Closed.{
  IsClosed, Closes, deauthorize-Closes, authorize-Closes, fetch_cards-Closes, fetch_tanks-Closes,
}
use fuelflux.CacheManager.{synchronization_role}
use fuelflux.CacheManager.Population.{
  Sync, add_card, add_tank, fetch_cards, fetch_tanks, committed, finish, fill, in_session,
  populate_cache, continue_with,
}
use fuelflux.CacheManager.Outcome.{Outcome, continue_with-Outcome, Kept, fetch_pages-Outcome}

-- No session, and nothing kept of one.
pub record IsOut (c : Client) : Type 0 where
  pub no_session : c.is_authorized ≡ false
  pub closed : IsClosed c

module _ (net : Network) (runs : ℕ → Bool) where
  InSession : Sync Client → Type 0
  InSession s = Closes s.backend

  Out : Sync Client → Type 0
  Out s = IsOut s.backend

  deauthorize-IsOut : (c : Client) → Closes c → IsOut (deauthorize net c).0
  deauthorize-IsOut c h =
      let out : (deauthorize net c).0.is_authorized ≡ false =
        unfold deauthorize send_async_deauthorize in ground arith in
      record { no_session = out; closed = deauthorize-Closes net c h out }

  authorize-IsOut :
      (c : Client) (uid : _)
      → IsOut c
      → (authorize net c uid).1 ≡ false
      → IsOut (authorize net c uid).0
  authorize-IsOut c uid h refusal =
      let out : (authorize net c uid).0.is_authorized ≡ false =
        ground (arith, authorize_lem net c uid, h.no_session, refusal) in
      record { no_session = out; closed = authorize-Closes net c uid (λ _. h.closed) out }

  cards-Kept :
      Kept (client_backend net) runs InSession Out (client_backend net).fetch_user_cards add_card
  unfolding InSession Out
  cards-Kept = record {
    reads = λ s n h. h;
    fetched = λ s first h. fetch_cards-Closes net s.backend first 100 h;
    added = λ s a h. h;
    failed = λ s h. deauthorize-IsOut s.backend h;
  }

  tanks-Kept :
      Kept (client_backend net) runs InSession Out (client_backend net).fetch_fuel_tanks add_tank
  unfolding InSession Out
  tanks-Kept = record {
    reads = λ s n h. h;
    fetched = λ s first h. fetch_tanks-Closes net s.backend first 100 h;
    added = λ s a h. h;
    failed = λ s h. deauthorize-IsOut s.backend h;
  }

  finish-Out :
      (s : Sync Client) → InSession s → Outcome Out Out (finish (client_backend net) runs s)
  unfolding finish InSession Out
  finish-Out s h = elim (Bool-cases (runs s.reads)) [
    | inl on ↦ rw on (of_commit (commit_population s.cache))
    | inr off ↦ rw off (deauthorize-IsOut s.backend h)
  ]
    where
      of_commit :
          (r : UserCache × Bool)
          → Outcome Out Out
              (some (committed (client_backend net) runs (record s { reads = s.reads + 1 }) r))
      of_commit (c, true) = deauthorize-IsOut s.backend h
      of_commit (c, false) = deauthorize-IsOut s.backend h

  fill-Out :
      (fuel : ℕ) (s : Sync Client) (r : UserCache × Bool)
      → InSession s
      → Outcome Out Out (fill (client_backend net) runs fuel s r)
  unfolding InSession Out
  fill-Out fuel s (c, false) h = deauthorize-IsOut s.backend h
  fill-Out fuel s (c, true) h =
      let ops = client_backend net in
      let cards = fetch_cards ops runs fuel (record s { cache = c }) in
      continue_with-Outcome InSession Out Out (finish ops runs)
        (continue_with (fetch_tanks ops runs fuel) cards) finish-Out
        (continue_with-Outcome InSession InSession Out (fetch_tanks ops runs fuel) cards
          (λ s' k.
            fetch_pages-Outcome ops runs InSession Out ops.fetch_fuel_tanks add_tank
              (λ b. not (is_empty (ops.get_last_error b))) tanks-Kept fuel 0 s' k)
          (fetch_pages-Outcome ops runs InSession Out ops.fetch_user_cards add_card (λ b. false)
            cards-Kept fuel 0 (record s { cache = c }) h))

  in_session-Out :
      (fuel : ℕ) (s : Sync Client) (b : Bool)
      → InSession s
      → (b ≡ false → Out s)
      → Outcome Out Out (in_session (client_backend net) runs fuel s b)
  unfolding InSession Out
  in_session-Out fuel s false h k = k refl
  in_session-Out fuel s true h k =
      elim (Bool-cases (eqb_ℤ s.backend.role_id synchronization_role)) [
        | inl right ↦ rw right (fill-Out fuel s (begin_population s.cache) h)
        | inr wrong ↦ rw wrong (deauthorize-IsOut s.backend h)
      ]

  populate_cache-Out :
      (fuel : ℕ) (s : Sync Client)
      → IsOut s.backend
      → Outcome Out Out (populate_cache (client_backend net) runs fuel s)
  unfolding populate_cache InSession Out
  populate_cache-Out fuel s h = elim (Bool-cases (is_empty s.backend.controller_uid)) [
    | inl unnamed ↦ rw unnamed h
    | inr named ↦
        let r = authorize net s.backend s.backend.controller_uid in
        rw named (
          in_session-Out fuel (record s { backend = r.0 }) r.1
            (authorize-Closes net s.backend s.backend.controller_uid (λ _. h.closed))
            (authorize-IsOut s.backend s.backend.controller_uid h))
  ]

  -- A population over the backend client, which succeeds or fails anywhere, whatever the network
  -- answers and whenever the manager is stopped, ends without a session and with nothing kept of the
  -- one that it opened, if it began so.
  pub populate_cache-IsOut :
      (fuel : ℕ) (s s' : Sync Client) (done : Bool)
      → IsOut s.backend
      → populate_cache (client_backend net) runs fuel s ≡ some (s', done)
      → (s'.backend.is_authorized ≡ false) × IsClosed s'.backend
  unfolding Out
  populate_cache-IsOut fuel s s' done h e =
      let out = either done (subst (Outcome Out Out) e (populate_cache-Out fuel s h)) in
      (out.no_session, out.closed)
    where
      either : (b : Bool) → Outcome Out Out (some (s', b)) → IsOut s'.backend
      either true k = k
      either false k = k
