-- ===== src/Controller/Authorization/Keep.antt =====
-- An authorization request leaves the state of the machine alone.
use fuelflux.Base.{◌≡◌, refl, arith, some, none, Option, Text, codes}
use fuelflux.Controller.Keep.{if_keeps, option_keeps}
use fuelflux.Types.{UserId, Volume}
use fuelflux.UserCache.{UserCache, UserCacheEntry}
use fuelflux.Base.{ℤ}
use fuelflux.Services.{Services}
use fuelflux.Controller.{Controller, post_event}
use fuelflux.Controller.Authorization.{
  request_authorization, authorized_online, not_authorized_online, network_failure, ask_cache,
  authorized_from_cache, update_cache_entry, show_error, show_message,
}

module _ {B : Type 0} (ops : Services B) where
  update_cache_entry-state :
      (c : Controller B) (uid : UserId) (v : Volume) (r : ℤ)
      → (update_cache_entry ops c uid v r).state ≡ c.state
  unfolding update_cache_entry
  update_cache_entry-state c uid v r = ground arith

  authorized_online-state :
      (c : Controller B) (uid : UserId) (b : B) → (authorized_online ops c uid b).state ≡ c.state
  unfolding authorized_online post_event
  authorized_online-state c uid b =
      update_cache_entry-state _ uid (ops.get_allowance b) (ops.get_role_id b)

  ask_cache-state :
      (c : Controller B) (r : UserCache × Option UserCacheEntry)
      → (ask_cache ops c r).state ≡ c.state
  unfolding ask_cache authorized_from_cache post_event
  ask_cache-state c (u, none) = refl
  ask_cache-state c (u, some e) = refl

  network_failure-state :
      (c : Controller B) (uid : UserId) → (network_failure ops c uid).state ≡ c.state
  unfolding network_failure post_event
  network_failure-state c uid = ground (arith, ask_cache-state c)

  not_authorized_online-state :
      (c : Controller B) (uid : UserId) (b : B)
      → (not_authorized_online ops c uid b).state ≡ c.state
  unfolding not_authorized_online post_event
  not_authorized_online-state c uid b =
      let c' = record c { backend = some b } in
      if_keeps c.state (ops.is_network_error b) _ _ (network_failure-state c' uid) refl

  show_error-state : (c : Controller B) (t : Text) → (show_error ops c t).state ≡ c.state
  unfolding show_error show_message
  show_error-state c t = ground arith

  pub request_authorization-state :
      (c : Controller B) (uid : UserId) → (request_authorization ops c uid).state ≡ c.state
  unfolding request_authorization post_event
  request_authorization-state c uid =
      option_keeps c.state c.backend _ _ (show_error-state c (codes "Backend unavailable")) (λ b.
        if_keeps c.state (ops.authorize b uid).1 _ _
          (authorized_online-state c uid (ops.authorize b uid).0)
          (not_authorized_online-state c uid (ops.authorize b uid).0))
