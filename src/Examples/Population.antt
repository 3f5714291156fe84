-- ===== src/Examples/Population.antt =====
-- The theorems on the cache manager, at concrete inputs.
use fuelflux.Base.{
  ℕ, ◌+◌, ◌≤◌, ◌<◌, ◌≡◌, refl, arith, Bool, true, false, ◌⊎◌, List, [], ◌∷◌, Option, none, some,
  Text, codes, pos, take, drop, ltb,
}
use fuelflux.Types.{UserId}
use fuelflux.Backend.{IBackend, UserCard, FuelTank}
use fuelflux.UserCache.{
  active, find_user, begin_population, commit_population, add_population_entry, add_population_tank,
  abort_population,
}
use fuelflux.Client.{Client}
use fuelflux.Client.Closed.{IsClosed}
use fuelflux.Client.Interface.{client_backend}
use fuelflux.Client.Session.{authorize}
use fuelflux.Client.Http.{http_request, error_response}
use fuelflux.Client.Fetch.{fetch_user_cards, fetch_fuel_tanks}
use fuelflux.CacheManager.{CacheManager}
use fuelflux.CacheManager.Population.{Sync, populate_cache, fetch_pages, add_page}
use fuelflux.CacheManager.Schedule.{worker_round}
use fuelflux.CacheManager.Due.{IsToday, IsNoted, worker_round_lem}
use fuelflux.CacheManager.Untouched.{populate_cache-untouched}
use fuelflux.CacheManager.Busy.{loops, ReachesCommit, populate_cache-after_commit}
use fuelflux.CacheManager.Logout.{populate_cache-IsOut}
use fuelflux.CacheManager.Rows.{last_card, tank_rows}
use fuelflux.CacheManager.Complete.{IsReady, populate_cache_lem}
use fuelflux.Examples.{remote, ivan, litres, cache, database}
use fuelflux.Examples.Network.{grants, logged_out_client}

abbrev two_cards : List UserCard
two_cards =
    record { uid = ivan; role_id = pos 1; allowance = litres 10 }
    ∷ record { uid = codes "07"; role_id = pos 2; allowance = pos 0 }
    ∷ []

abbrev one_tank : List FuelTank
one_tank =
    record {
      id_tank = pos 7;
      visual_number_tank = pos 1;
      name_tank = codes "A";
      volume = litres 900;
    }
    ∷ []

-- A portal that serves them, with this error text.
abbrev portal : Text → List FuelTank → IBackend Bool
portal e tanks = record (remote true) {
  get_role_id = λ b. pos 3;
  get_last_error = λ b. e;
  fetch_user_cards = λ b first n. (b, take n (drop first two_cards));
  fetch_fuel_tanks = λ b first n. (b, take n (drop first tanks));
}

abbrev always : ℕ → Bool
always n = true

abbrev start_sync : Sync Bool
start_sync = record { cache = cache; backend = false; reads = 0 }

two_cards-IsReady :
    IsReady (portal [] one_tank) always two_cards one_tank (λ b. Unit {0}) start_sync
two_cards-IsReady = record {
  portal = record {
    cards_page = λ b first g. refl;
    cards_good = λ b first g. tt;
    tanks_page = λ b first g. refl;
    tanks_good = λ b first g. tt;
    no_error = λ b first g. refl;
    runs_on = λ n. refl;
  };
  named = refl;
  authorized = refl;
  good = tt;
  role = refl;
  sound = record { is_open = refl; works = λ n. refl };
  idle = refl;
}

populate_cache_example :
    (s' : Sync Bool) × (populate_cache (portal [] one_tank) always 3 start_sync ≡ some (s', true))
    × ((uid : UserId) → find_user uid (active s'.cache).users ≡ last_card uid two_cards)
    × ((active s'.cache).tanks ≡ tank_rows one_tank)
    × (s'.cache.in_progress ≡ false)
populate_cache_example =
    populate_cache_lem (portal [] one_tank) always two_cards one_tank (λ b. Unit {0}) 3 start_sync
      two_cards-IsReady (omega arith) (omega arith)

abbrev outcome_of : {B : Type 0} → Sync B → Option (Sync B × Bool) → Sync B
outcome_of s none = s
outcome_of s (some (s', done)) = s'

-- The portal refuses to list its tanks.
populate_cache-untouched_example :
    active
      (outcome_of start_sync (populate_cache (portal (codes "no") []) always 3 start_sync)).cache
    ≡ active cache
unfolding populate_cache fetch_pages add_page begin_population add_population_entry abort_population
populate_cache-untouched_example =
    populate_cache-untouched (portal (codes "no") []) always 3 start_sync
      (outcome_of start_sync (populate_cache (portal (codes "no") []) always 3 start_sync)) refl

-- The sixth statement of the population is its commit, which fails.
abbrev failing_sync : Sync Bool
failing_sync = record start_sync {
  cache = record cache { db = record database { works = λ n. ltb n 5 } };
}

abbrev at_commit : Sync Bool
at_commit = outcome_of failing_sync (loops (portal [] one_tank) always 3 failing_sync)

failing_sync-ReachesCommit : ReachesCommit (portal [] one_tank) always 3 failing_sync at_commit
unfolding fetch_pages add_page begin_population add_population_entry add_population_tank
failing_sync-ReachesCommit = record {
  named = refl;
  authorized = refl;
  right_role = refl;
  begun = refl;
  filled = refl;
  running = refl;
}

populate_cache-after_commit_example :
    (t : Sync Bool) × (populate_cache (portal [] one_tank) always 3 failing_sync ≡ some (t, false))
    × (t.cache.in_progress ≡ true)
    × (t' : Sync Bool) × (populate_cache
          (portal [] one_tank)
          always
          7
          (record t { backend = true; reads = 0 })
        ≡ some (t', false))
    × (t'.cache ≡ t.cache)
unfolding commit_population fetch_pages add_page begin_population add_population_entry
    add_population_tank
populate_cache-after_commit_example =
    populate_cache-after_commit (portal [] one_tank) always 3 7 0 failing_sync at_commit true
      failing_sync-ReachesCommit refl

abbrev client_sync : Sync Client
client_sync = record { cache = cache; backend = logged_out_client; reads = 0 }

populate_cache-IsOut_example :
    let s' = outcome_of client_sync (populate_cache (client_backend grants) always 3 client_sync) in
    (s'.backend.is_authorized ≡ false) × IsClosed s'.backend
unfolding populate_cache authorize error_response http_request begin_population fetch_user_cards
    fetch_fuel_tanks
populate_cache-IsOut_example =
    populate_cache-IsOut grants always 3 client_sync
      (outcome_of client_sync (populate_cache (client_backend grants) always 3 client_sync)) false
      (record { no_session = refl; closed = ground arith }) refl

abbrev manager : CacheManager Bool
manager = record {
  cache = some cache;
  backend = some false;
  running = true;
  has_worker = true;
  trigger_population = true;
  last_population_success = false;
  last_population_time = none;
  next_scheduled_update = 50;
}

abbrev today : ℕ → Option ℕ
today n = some (n + 5)

today-IsToday : IsToday today 20
today-IsToday target h = ground (arith, h)

abbrev round_of : Option (CacheManager Bool) → CacheManager Bool
round_of none = manager
round_of (some m) = m

worker_round_example :
    let m' = round_of (worker_round (portal [] one_tank) today always 3 manager 10 20) in
    ((true ≡ false) × (10 < 50) × (m' ≡ manager)) ⊎ (((true ≡ true) ⊎ (50 ≤ 10)) × IsNoted 20 m')
unfolding worker_round populate_cache begin_population add_population_entry add_population_tank
worker_round_example =
    worker_round_lem (portal [] one_tank) today always 3 manager
      (round_of (worker_round (portal [] one_tank) today always 3 manager 10 20)) 10 20 refl
      today-IsToday refl
