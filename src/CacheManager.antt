-- ===== src/CacheManager.antt =====
-- src/cache_manager.cpp: the population of the user cache from the portal, and the thread that
-- schedules it.
pub mod Population
pub mod Outcome
pub mod Untouched
pub mod Logout
pub mod Loop
pub mod Complete
pub mod Rows
pub mod Busy
pub mod Schedule
pub mod Due
use fuelflux.Base.{ℕ, ℤ, pos, Bool, true, false, if◌then◌else◌, Option, none, some}
use fuelflux.Types.{UserId, Volume}
use fuelflux.UserCache.{UserCache, update_entry, deduct_allowance}

abbrev pub synchronization_role : ℤ
synchronization_role = pos 3

abbrev pub fetch_batch_size : ℕ
fetch_batch_size = 100

-- Times are in milliseconds; `last_population_time` is `none` for time_point::min(). A null pointer
-- is `none`. `has_worker` says that the thread runs.
pub record CacheManager (B : Type 0) : Type 0 where
  pub cache : Option UserCache
  pub backend : Option B
  pub running : Bool
  pub has_worker : Bool
  pub trigger_population : Bool
  pub last_population_success : Bool
  pub last_population_time : Option ℕ
  pub next_scheduled_update : ℕ

module _ {B : Type 0} where
  unfoldable pub start : CacheManager B → CacheManager B × Bool
  start m =
      if m.running
      then (m, false)
      else (record m { running = true; has_worker = true; trigger_population = true }, true)

  -- The thread is joined.
  unfoldable pub stop : CacheManager B → CacheManager B
  stop m = if m.running then record m { running = false; has_worker = false } else m

  pub trigger : CacheManager B → CacheManager B
  trigger m = record m { trigger_population = true }

  abbrev pub of_cache : CacheManager B → UserCache × Bool → CacheManager B × Bool
  of_cache m (c, done) = (record m { cache = some c }, done)

  unfoldable pub update_cache_entry : CacheManager B → UserId → Volume → ℤ → CacheManager B × Bool
  update_cache_entry m uid allowance role_id = elim m.cache [
    | none ↦ (m, false)
    | some c ↦ of_cache m (update_entry c uid allowance role_id)
  ]

  unfoldable pub deduct_cached : CacheManager B → UserId → Volume → CacheManager B × Bool
  deduct_cached m uid amount = elim m.cache [
    | none ↦ (m, false)
    | some c ↦ of_cache m (deduct_allowance c uid amount)
  ]
