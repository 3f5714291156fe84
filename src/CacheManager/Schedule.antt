-- ===== src/CacheManager/Schedule.antt =====
-- CacheManager::CalculateNextDailyUpdate and WorkerThread.
use fuelflux.Base.{ℕ, ◌+◌, ◌*◌, Bool, false, not, ◌||◌, leb, if◌then◌else◌, Option, none, some}
use fuelflux.Backend.{IBackend}
use fuelflux.CacheManager.{CacheManager}
use fuelflux.CacheManager.Population.{Sync, populate_cache}

-- std::chrono::hours(24) and std::chrono::minutes(kRetryIntervalMinutes)
abbrev pub day : ℕ
day = 24 * 3600000

abbrev pub retry_interval : ℕ
retry_interval = 60 * 60000

-- `today_at` is localtime_r and mktime: 2 o'clock on the day of a time, or `none` where localtime_r
-- fails.
abbrev pub daily_update : ℕ → Option ℕ → ℕ
daily_update now none = now + day
daily_update now (some target) = if leb target now then target + day else target

unfoldable pub calculate_next_daily_update : (ℕ → Option ℕ) → ℕ → ℕ
calculate_next_daily_update today_at now = daily_update now (today_at now)

module _ {B : Type 0} (ops : IBackend B) (today_at : ℕ → Option ℕ) where
  -- What WorkerThread notes when PopulateCache has returned, at `later`.
  abbrev pub noted : CacheManager B → ℕ → Bool → CacheManager B
  noted m later success = record m {
    last_population_time = some later;
    last_population_success = success;
    next_scheduled_update =
        if success then calculate_next_daily_update today_at later else later + retry_interval;
  }

  abbrev pub with_sync : CacheManager B → Sync B → CacheManager B
  with_sync m s = record m { cache = some s.cache; backend = some s.backend }

  abbrev pub noted_sync : CacheManager B → ℕ → Option (Sync B × Bool) → Option (CacheManager B)
  noted_sync m later none = none
  noted_sync m later (some (s, success)) = some (noted (with_sync m s) later success)

  -- PopulateCache with the null checks, and what is noted after it.
  abbrev pub populated : (ℕ → Bool) → ℕ → CacheManager B → ℕ → Option (CacheManager B)
  populated runs fuel m later = elim m.cache [
    | none ↦ some (noted m later false)
    | some c ↦ elim m.backend [
      | none ↦ some (noted m later false)
      | some b ↦
          noted_sync m later
            (populate_cache ops runs fuel (record { cache = c; backend = b; reads = 0 }))
    ]
  ]

  -- A round of WorkerThread after its wait: at `now` the thread looks what is due, at `later` a
  -- population is over.
  unfoldable pub worker_round : (ℕ → Bool) → ℕ → CacheManager B → ℕ → ℕ → Option (CacheManager B)
  unfolding calculate_next_daily_update
  worker_round runs fuel m now later =
      if not m.running
      then some m
      else if m.trigger_population || leb m.next_scheduled_update now
      then populated runs fuel (record m { trigger_population = false }) later
      else some m
