-- ===== src/Controller/Authorization/Decision.antt =====
-- The outcome of an authorization request, on every branch.
use fuelflux.Base.{
  ◌≡◌, true, false, if◌then◌else◌, arith, [], ◌∷◌, ◌++◌, map, Option, none, some, is_some,
  Option-cases, Bool-cases, inl, inr, codes, ◌⊎◌, Text,
}
use fuelflux.Types.{
  UserId, Event, authorization_success, authorization_denied, authorization_failed,
}
use fuelflux.UserCache.{UserCacheEntry, get_entry}
use fuelflux.Services.{Services}
use fuelflux.Controller.{Controller, post_event}
use fuelflux.Controller.Authorization.{
  request_authorization, authorized_online, not_authorized_online, network_failure, ask_cache,
  authorized_from_cache, update_cache_entry, show_error, show_message, tank_info, role_of_int,
}

-- The cached user, where the cache may be asked.
abbrev pub cached_user : {B : Type 0} → Controller B → UserId → Option UserCacheEntry
cached_user c uid = elim c.user_cache [
  | none ↦ none
  | some u ↦ if is_some c.message_storage then (get_entry u uid).1 else none
]

-- The decision: the backend's word, the cache's where the backend cannot be reached.
abbrev pub decision : {B : Type 0} → Services B → Controller B → UserId → Event
decision ops c uid = elim c.backend [
  | none ↦ authorization_failed
  | some b ↦
      if (ops.authorize b uid).1
      then authorization_success
      else if ops.is_network_error (ops.authorize b uid).0
      then (if is_some (cached_user c uid) then authorization_success else authorization_failed)
      else authorization_denied
]

module _ {B : Type 0} (ops : Services B) (c : Controller B) (uid : UserId) where
  network_failure-queue :
      (d : Controller B)
      → (network_failure ops d uid).event_queue
        ≡ d.event_queue
          ++ (if is_some (cached_user d uid) then authorization_success else authorization_failed)
            ∷ []
  unfolding network_failure ask_cache authorized_from_cache post_event
  network_failure-queue d = ground arith

  authorized_online-queue :
      (d : Controller B) (b : B)
      → (authorized_online ops d uid b).event_queue ≡ d.event_queue ++ authorization_success ∷ []
  unfolding authorized_online update_cache_entry post_event
  authorized_online-queue d b = ground arith

  show_error-queue : (message : Text) → (show_error ops c message).event_queue ≡ c.event_queue
  unfolding show_error show_message
  show_error-queue message = ground arith

  -- A request is answered by exactly one event, at the end of the queue: success if the backend
  -- grants it, or if the backend cannot be reached and the cache knows the user; denied if the
  -- backend refuses it; failed if the backend cannot be reached, or is not there, and the cache
  -- does not help.
  pub request_authorization-queue :
      (request_authorization ops c uid).event_queue ≡ c.event_queue ++ decision ops c uid ∷ []
  unfolding request_authorization not_authorized_online post_event
  request_authorization-queue = elim (Option-cases c.backend) [
    | inl missing ↦ ground (arith, missing, show_error-queue (codes "Backend unavailable"))
    | inr (b, held) ↦
        let after = (ops.authorize b uid).0 in
        ground (
          arith,
          held,
          authorized_online-queue c after,
          network_failure-queue (record c { backend = some after }),
        )
  ]

  authorized_online-user :
      (d : Controller B) (b : B)
      → let e = authorized_online ops d uid b in
        (e.session_authorized_from_cache ≡ false)
        × (e.current_user.uid ≡ uid)
        × (e.current_user.role ≡ role_of_int (ops.get_role_id b))
        × (e.current_user.allowance ≡ ops.get_allowance b)
        × (e.available_tanks ≡ map tank_info (ops.get_fuel_tanks b))
  unfolding authorized_online update_cache_entry post_event
  authorized_online-user d b = ground arith

  network_failure-user :
      (d : Controller B) (u : UserCacheEntry)
      → cached_user d uid ≡ some u
      → let e = network_failure ops d uid in
        (e.session_authorized_from_cache ≡ true)
        × (e.current_user.uid ≡ u.uid)
        × (e.current_user.role ≡ role_of_int u.role_id)
        × (e.current_user.allowance ≡ u.allowance)
  unfolding network_failure ask_cache authorized_from_cache post_event
  network_failure-user d u known = ground arith

  -- The session after a success is that of the user: from the backend's answer, and online, or from
  -- the cache's entry, and offline, where the backend refused for a network error.
  pub request_authorization-session :
      (b : B)
      → c.backend ≡ some b
      → decision ops c uid ≡ authorization_success
      → let d = request_authorization ops c uid in
        let after = (ops.authorize b uid).0 in
        (((ops.authorize b uid).1 ≡ true)
          × (d.session_authorized_from_cache ≡ false)
          × (d.current_user.uid ≡ uid)
          × (d.current_user.role ≡ role_of_int (ops.get_role_id after))
          × (d.current_user.allowance ≡ ops.get_allowance after)
          × (d.available_tanks ≡ map tank_info (ops.get_fuel_tanks after)))
        ⊎ ((e : UserCacheEntry) × ((ops.authorize b uid).1 ≡ false)
            × (ops.is_network_error after ≡ true)
            × (cached_user c uid ≡ some e)
            × (d.session_authorized_from_cache ≡ true)
            × (d.current_user.uid ≡ e.uid)
            × (d.current_user.role ≡ role_of_int e.role_id)
            × (d.current_user.allowance ≡ e.allowance))
  unfolding request_authorization not_authorized_online
  request_authorization-session b held success =
      let after = (ops.authorize b uid).0 in
      elim (Bool-cases (ops.authorize b uid).1) [
        | inl granted ↦ inl (ground (arith, authorized_online-user c after))
        | inr refused ↦ elim (Option-cases (cached_user c uid)) [
          | inl unknown_card ↦ absurd (ground arith)
          | inr (e, known) ↦ inr (
            e,
            refused,
            ground arith,
            known,
            ground (arith, network_failure-user (record c { backend = some after }) e),
            ground (arith, network_failure-user (record c { backend = some after }) e),
            ground (arith, network_failure-user (record c { backend = some after }) e),
            ground (arith, network_failure-user (record c { backend = some after }) e),
          )
        ]
      ]
