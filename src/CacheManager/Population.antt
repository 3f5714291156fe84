-- ===== src/CacheManager/Population.antt =====
-- CacheManager::PopulateCache, with its loops over the pages of the cards and of the tanks.
use fuelflux.Base.{
  ℕ, zero, suc, ◌+◌, Bool, true, false, not, ltb, eqb_ℤ, if◌then◌else◌, List, [], ◌∷◌, Option, none,
  some, is_empty, length,
}
use fuelflux.Backend.{IBackend, UserCard, FuelTank}
use fuelflux.UserCache.{
  UserCache, begin_population, add_population_entry, add_population_tank, commit_population,
  abort_population,
}
use fuelflux.CacheManager.{synchronization_role, fetch_batch_size}

-- What a population works on; `reads` counts the reads of running_.
pub record Sync (B : Type 0) : Type 0 where
  pub cache : UserCache
  pub backend : B
  pub reads : ℕ

abbrev pub add_card : UserCache → UserCard → UserCache × Bool
add_card c card = add_population_entry c card.uid card.allowance card.role_id

abbrev pub add_tank : UserCache → FuelTank → UserCache × Bool
add_tank c tank = add_population_tank c (record {
  id_tank = tank.id_tank;
  visual_number_tank = tank.visual_number_tank;
  name_tank = tank.name_tank;
  volume = tank.volume;
})

-- The next part of a population, unless it has failed.
abbrev pub continue_with :
    {B : Type 0}
    → (Sync B → Option (Sync B × Bool))
    → Option (Sync B × Bool)
    → Option (Sync B × Bool)
continue_with next none = none
continue_with next (some (s, false)) = some (s, false)
continue_with next (some (s, true)) = next s

-- `runs n` is what the n-th read of running_ gives: Stop may come at any time. A loop that runs out
-- of fuel gives `none`.
module _ {B : Type 0} (ops : IBackend B) (runs : ℕ → Bool) where
  abbrev pub logged_out : Sync B → Sync B
  logged_out s = record s { backend = (ops.deauthorize s.backend).0 }

  -- AbortPopulation, Deauthorize and return false.
  abbrev pub aborted : Sync B → Option (Sync B × Bool)
  aborted s = some (record (logged_out s) { cache = abort_population s.cache }, false)

  module _ {A : Type 0} (fetch : B → ℕ → ℕ → B × List A) (add : UserCache → A → UserCache × Bool)
      (refused : B → Bool) where
    -- The entries of a page, up to the first that cannot be added.
    unfoldable pub add_page : UserCache → List A → UserCache × Bool
    add_page c [] = (c, true)
    add_page c (a ∷ as') = let (c', done) = add c a in if done then add_page c' as' else (c', false)

    -- An empty page ends the loop or the population, a short one ends the loop.
    abbrev pub after_page :
        (Sync B → Option (Sync B × Bool))
        → Sync B
        → List A
        → UserCache × Bool
        → Option (Sync B × Bool)
    after_page next s [] r = if refused s.backend then aborted s else some (s, true)
    after_page next s (a ∷ as') (c, false) = aborted (record s { cache = c })
    after_page next s (a ∷ as') (c, true) =
        if ltb (length (a ∷ as')) fetch_batch_size
        then some (record s { cache = c }, true)
        else next (record s { cache = c })

    -- A loop over pages; the flag says that the population goes on.
    unfoldable pub fetch_pages : ℕ → ℕ → Sync B → Option (Sync B × Bool)
    unfolding add_page
    fetch_pages zero first s = none
    fetch_pages (suc fuel) first s =
        let s' = record s { reads = s.reads + 1 } in
        if not (runs s.reads)
        then some (s', true)
        else let (b, page) = fetch s.backend first fetch_batch_size in
          after_page (fetch_pages fuel (first + fetch_batch_size)) (record s' { backend = b }) page
            (add_page s.cache page)

  abbrev pub fetch_cards : ℕ → Sync B → Option (Sync B × Bool)
  fetch_cards fuel = fetch_pages ops.fetch_user_cards add_card (λ b. false) fuel 0

  abbrev pub fetch_tanks : ℕ → Sync B → Option (Sync B × Bool)
  fetch_tanks fuel =
      fetch_pages ops.fetch_fuel_tanks add_tank (λ b. not (is_empty (ops.get_last_error b))) fuel 0

  abbrev pub committed : Sync B → UserCache × Bool → Sync B × Bool
  committed s (c, done) = (record (logged_out s) { cache = c }, done)

  -- The last read of running_, and the commit.
  unfoldable pub finish : Sync B → Option (Sync B × Bool)
  finish s =
      let s' = record s { reads = s.reads + 1 } in
      if not (runs s.reads) then aborted s' else some (committed s' (commit_population s.cache))

  -- The population after BeginPopulation.
  abbrev pub fill : ℕ → Sync B → UserCache × Bool → Option (Sync B × Bool)
  fill fuel s (c, false) = some (record (logged_out s) { cache = c }, false)
  fill fuel s (c, true) =
      continue_with finish
        (continue_with (fetch_tanks fuel) (fetch_cards fuel (record s { cache = c })))

  -- The population in the session that Authorize has opened, or not.
  abbrev pub in_session : ℕ → Sync B → Bool → Option (Sync B × Bool)
  in_session fuel s false = some (s, false)
  in_session fuel s true =
      if not (eqb_ℤ (ops.get_role_id s.backend) synchronization_role)
      then some (logged_out s, false)
      else fill fuel s (begin_population s.cache)

  -- Both loops have this much fuel.
  unfoldable pub populate_cache : ℕ → Sync B → Option (Sync B × Bool)
  unfolding fetch_pages finish
  populate_cache fuel s =
      if is_empty (ops.get_controller_uid s.backend)
      then some (s, false)
      else let (b, done) = ops.authorize s.backend (ops.get_controller_uid s.backend) in
        in_session fuel (record s { backend = b }) done
