-- ===== src/Controller/Authorization.antt =====
-- Controller::requestAuthorization, with its fallback to the user cache.
pub mod Decision
pub mod Keep
use fuelflux.Base.{
  true, false, if◌then◌else◌, map, Option, none, some, pos, ℤ, negsuc, Text, codes, is_some, ◌==◌,
}
use fuelflux.Types.{
  UserId, UserRole, customer, operator, controller, unknown, TankInfo, DisplayMessage, Volume,
  authorization_success, authorization_denied, authorization_failed,
}
use fuelflux.Devices.Display
use fuelflux.UserCache.{
  UserCache, UserCacheEntry, TankCacheEntry, get_entry, get_tanks, update_entry,
}
use fuelflux.Backend.{BackendTankInfo}
use fuelflux.Services.{Services}
use fuelflux.Controller.{Controller, post_event}

-- static_cast<UserRole>(int); a number that names no role is one that no test of the code knows.
unfoldable pub role_of_int : ℤ → UserRole
role_of_int (pos n) =
    if n == 1 then customer else if n == 2 then operator else if n == 3 then controller else unknown
role_of_int (negsuc n) = unknown

abbrev pub tank_info : BackendTankInfo → TankInfo
tank_info t = record { number = t.visual_number_tank }

abbrev pub cached_tank_info : TankCacheEntry → BackendTankInfo
cached_tank_info t = record {
  id_tank = t.id_tank;
  visual_number_tank = t.visual_number_tank;
  name_tank = t.name_tank;
  volume = t.volume;
}

module _ {B : Type 0} where
  -- Controller::showMessage(DisplayMessage)
  unfoldable pub show_message : Controller B → DisplayMessage → Controller B
  show_message c m = elim c.display [
    | none ↦ c
    | some d ↦ record c { display = some (Display.show_message d m) }
  ]

  -- Controller::showMessage of four lines
  pub show_lines : Controller B → Text → Text → Text → Text → Controller B
  unfolding show_message
  show_lines c line1 line2 line3 line4 =
      show_message c (record { line1 = line1; line2 = line2; line3 = line3; line4 = line4 })

module _ {B : Type 0} (ops : Services B) where
  pub show_error : Controller B → Text → Controller B
  unfolding show_message
  show_error c message =
      show_message (record c { last_error_message = message })
        (record {
          line1 = codes "ОШИБКА";
          line2 = message;
          line3 = codes "Нажмите ОТМЕНА (B)";
          line4 = ops.time_string c.wall_clock;
        })

  -- cacheManager_->UpdateCacheEntry, where there is a cache manager.
  pub update_cache_entry : Controller B → UserId → Volume → ℤ → Controller B
  update_cache_entry c uid allowance role_id = elim c.user_cache [
    | none ↦ c
    | some u ↦
        if c.cache_manager
        then record c { user_cache = some (update_entry u uid allowance role_id).0 }
        else c
  ]

  -- The session that the backend has opened.
  pub authorized_online : Controller B → UserId → B → Controller B
  unfolding update_cache_entry post_event
  authorized_online c uid b =
      let c' = record c {
        backend = some b;
        session_authorized_from_cache = false;
        current_user = record {
          uid = uid;
          role = role_of_int (ops.get_role_id b);
          allowance = ops.get_allowance b;
          price = ops.get_price b;
        };
        available_tanks = map tank_info (ops.get_fuel_tanks b);
        cached_fuel_tanks = ops.get_fuel_tanks b;
      } in
      post_event (update_cache_entry c' uid (ops.get_allowance b) (ops.get_role_id b))
        authorization_success

  -- The session of a cached user, with the cached tanks.
  pub authorized_from_cache : Controller B → UserCache → UserCacheEntry → Controller B
  unfolding post_event
  authorized_from_cache c u e =
      let tanks = (get_tanks u).1 in
      post_event
        (record c {
          session_authorized_from_cache = true;
          user_cache = some (get_tanks u).0;
          current_user = record {
            uid = e.uid;
            role = role_of_int e.role_id;
            allowance = e.allowance;
            price = pos 0;
          };
          available_tanks = map tank_info (map cached_tank_info tanks);
          cached_fuel_tanks = map cached_tank_info tanks;
        })
        authorization_success

  -- With a network error and both databases, the user cache is asked.
  pub ask_cache : Controller B → UserCache × Option UserCacheEntry → Controller B
  unfolding authorized_from_cache post_event
  ask_cache c (u, none) = post_event (record c { user_cache = some u }) authorization_failed
  ask_cache c (u, some e) = authorized_from_cache c u e

  pub network_failure : Controller B → UserId → Controller B
  unfolding ask_cache post_event
  network_failure c uid = elim c.user_cache [
    | none ↦ post_event c authorization_failed
    | some u ↦
        if is_some c.message_storage
        then ask_cache c (get_entry u uid)
        else post_event c authorization_failed
  ]

  pub not_authorized_online : Controller B → UserId → B → Controller B
  unfolding network_failure post_event
  not_authorized_online c uid b =
      let c' = record c { backend = some b } in
      if ops.is_network_error b then network_failure c' uid else post_event c' authorization_denied

  unfoldable pub request_authorization : Controller B → UserId → Controller B
  unfolding authorized_online not_authorized_online show_error post_event
  request_authorization c uid = elim c.backend [
    | none ↦ post_event (show_error c (codes "Backend unavailable")) authorization_failed
    | some b ↦
        if (ops.authorize b uid).1
        then authorized_online c uid (ops.authorize b uid).0
        else not_authorized_online c uid (ops.authorize b uid).0
  ]
