-- ===== src/CacheManager/Due.antt =====
-- When the thread of the cache manager populates again.
use fuelflux.Base.{
  ℕ, ◌+◌, ◌≤◌, ◌<◌, ◌≡◌, ◌⊎◌, refl, ap, subst, arith, Bool, true, false, Option, none, some,
}
use fuelflux.Backend.{IBackend}
use fuelflux.UserCache.{UserCache}
use fuelflux.CacheManager.{CacheManager}
use fuelflux.CacheManager.Population.{Sync, populate_cache}
use fuelflux.CacheManager.Schedule.{
  day, daily_update, calculate_next_daily_update, noted, noted_sync, populated, worker_round,
}

-- 2 o'clock on the day of a time is less than a day away, whatever the clock shift of that day.
abbrev pub IsToday : (ℕ → Option ℕ) → ℕ → Type 0
IsToday today_at now =
    (target : ℕ) → today_at now ≡ some target → (now < target + day) × (target ≤ now + day)

daily_update-later :
    (now : ℕ) (t : Option ℕ)
    → ((target : ℕ) → t ≡ some target → (now < target + day) × (target ≤ now + day))
    → (now < daily_update now t) × (daily_update now t ≤ now + day)
daily_update-later now none law = ground arith
daily_update-later now (some target) law = ground (arith, law target refl)

-- What a round that has populated leaves.
pub record IsNoted {B : Type 0} (later : ℕ) (m : CacheManager B) : Type 0 where
  pub not_triggered : m.trigger_population ≡ false
  pub time : m.last_population_time ≡ some later
  pub next_later : later < m.next_scheduled_update
  pub next_soon : m.next_scheduled_update ≤ later + day

module _ {B : Type 0} (ops : IBackend B) (today_at : ℕ → Option ℕ) where
  noted-IsNoted :
      (m : CacheManager B) (later : ℕ) (success : Bool)
      → m.trigger_population ≡ false
      → IsToday today_at later
      → IsNoted later (noted ops today_at m later success)
  unfolding calculate_next_daily_update
  noted-IsNoted m later true q law = ground (arith, daily_update-later later (today_at later) law)
  noted-IsNoted m later false q law = ground arith

  noted-result :
      (m m' : CacheManager B) (later : ℕ) (success : Bool)
      → m.trigger_population ≡ false
      → IsToday today_at later
      → some (noted ops today_at m later success) ≡ some m'
      → IsNoted later m'
  noted-result m m' later success q law h =
      subst (IsNoted later) (ap (λ o. elim o as (λ x. CacheManager B) [ none ↦ m | some n ↦ n ]) h)
        (noted-IsNoted m later success q law)

  populated-IsNoted :
      (runs : ℕ → Bool) (fuel : ℕ) (m m' : CacheManager B) (later : ℕ)
      → m.trigger_population ≡ false
      → IsToday today_at later
      → populated ops today_at runs fuel m later ≡ some m'
      → IsNoted later m'
  populated-IsNoted runs fuel m m' later q law = of_cache m.cache m.backend
    where
      of_sync :
          (r : Option (Sync B × Bool))
          → noted_sync ops today_at m later r ≡ some m'
          → IsNoted later m'
      of_sync none h = cc
      of_sync (some (s, success)) h =
          noted-result (record m { cache = some s.cache; backend = some s.backend }) m' later
            success q law h

      of_cache :
          (o : Option UserCache) (p : Option B)
          → (elim o as (λ x. Option (CacheManager B)) [
            | none ↦ some (noted ops today_at m later false)
            | some c ↦ elim p as (λ x. Option (CacheManager B)) [
              | none ↦ some (noted ops today_at m later false)
              | some b ↦
                  noted_sync ops today_at m later
                    (populate_cache ops runs fuel (record { cache = c; backend = b; reads = 0 }))
            ]
          ])
            ≡ some m'
          → IsNoted later m'
      of_cache none p h = noted-result m m' later false q law h
      of_cache (some c) none h = noted-result m m' later false q law h
      of_cache (some c) (some b) h =
          of_sync (populate_cache ops runs fuel (record { cache = c; backend = b; reads = 0 })) h

  -- A round of the running thread does nothing unless a population was asked for or the time has
  -- come. A round that populates, with whatever result, takes the request, notes the time, and puts
  -- the next population later than that, by a day at most. The time that
  -- mktime gives for 2 o'clock is less than a day before, and at most a day after, the time it was
  -- asked for.
  pub worker_round_lem :
      (runs : ℕ → Bool) (fuel : ℕ) (m m' : CacheManager B) (now later : ℕ)
      → m.running ≡ true
      → IsToday today_at later
      → worker_round ops today_at runs fuel m now later ≡ some m'
      → ((m.trigger_population ≡ false) × (now < m.next_scheduled_update) × (m' ≡ m))
        ⊎ (((m.trigger_population ≡ true) ⊎ (m.next_scheduled_update ≤ now)) × IsNoted later m')
  unfolding worker_round
  worker_round_lem runs fuel m m' now later on law h = ground (
    arith,
    populated-IsNoted runs fuel (record m { trigger_population = false }) m' later refl law,
  )
