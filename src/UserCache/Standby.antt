-- ===== src/UserCache/Standby.antt =====
-- A population of the standby tables: what its operations leave alone, and what they do when the
-- database works.
use fuelflux.Base.{ℕ, ◌+◌, ◌≡◌, refl, arith, true, false, []}
use fuelflux.UserCache.{
  UserCacheEntry, TankCacheEntry, UserCache, Tables, active, standby, replace_user, replace_tank,
  begin_population, add_population_entry, add_population_tank, commit_population, abort_population,
}

-- The database is open and does every statement.
pub record IsSound (c : UserCache) : Type 0 where
  pub is_open : c.db.is_open ≡ true
  pub works : (n : ℕ) → c.db.works n ≡ true

-- The tables in the standby place, while a population is in progress.
pub record Holds (c : UserCache) (t : Tables) : Type 0 where
  pub sound : IsSound c
  pub in_progress : c.in_progress ≡ true
  pub tables : standby c ≡ t

pub begin_population-active : (c : UserCache) → active (begin_population c).0 ≡ active c
unfolding begin_population
begin_population-active c = ground arith

pub add_population_entry-active :
    (c : UserCache) (e : UserCacheEntry)
    → active (add_population_entry c e.uid e.allowance e.role_id).0 ≡ active c
unfolding add_population_entry
add_population_entry-active c e = ground arith

pub add_population_tank-active :
    (c : UserCache) (t : TankCacheEntry) → active (add_population_tank c t).0 ≡ active c
unfolding add_population_tank
add_population_tank-active c t = ground arith

pub commit_population-refused :
    (c : UserCache)
    → (commit_population c).1 ≡ false
    → (active (commit_population c).0 ≡ active c)
      × ((commit_population c).0.in_progress ≡ c.in_progress)
unfolding commit_population
commit_population-refused c h = ground arith

pub abort_population-active : (c : UserCache) → active (abort_population c) ≡ active c
unfolding abort_population
abort_population-active c = refl

-- A population that is in progress keeps another from beginning.
pub begin_population-busy : (c : UserCache) → c.in_progress ≡ true → begin_population c ≡ (c, false)
unfolding begin_population
begin_population-busy c h = ground arith

pub begin_population-Holds :
    (c : UserCache)
    → IsSound c
    → c.in_progress ≡ false
    → ((begin_population c).1 ≡ true)
      × Holds (begin_population c).0 (record { users = []; tanks = [] })
unfolding begin_population
begin_population-Holds c sound idle =
    ground (arith, sound.works c.db.executed, sound.works (c.db.executed + 1))

pub add_population_entry-Holds :
    (c : UserCache) (t : Tables) (e : UserCacheEntry)
    → Holds c t
    → ((add_population_entry c e.uid e.allowance e.role_id).1 ≡ true)
      × Holds
          (add_population_entry c e.uid e.allowance e.role_id).0
          (record t { users = replace_user e t.users })
unfolding add_population_entry
add_population_entry-Holds c t e h = ground (arith, h.sound.works c.db.executed)

pub add_population_tank-Holds :
    (c : UserCache) (t : Tables) (e : TankCacheEntry)
    → Holds c t
    → ((add_population_tank c e).1 ≡ true)
      × Holds (add_population_tank c e).0 (record t { tanks = replace_tank e t.tanks })
unfolding add_population_tank
add_population_tank-Holds c t e h = ground (arith, h.sound.works c.db.executed)

pub commit_population-Holds :
    (c : UserCache) (t : Tables)
    → Holds c t
    → ((commit_population c).1 ≡ true)
      × (active (commit_population c).0 ≡ t)
      × ((commit_population c).0.in_progress ≡ false)
unfolding commit_population
commit_population-Holds c t h = ground (arith, h.sound.works c.db.executed)

-- The flag that a population is in progress.
pub begin_population-in_progress :
    (c : UserCache) → (begin_population c).1 ≡ true → (begin_population c).0.in_progress ≡ true
unfolding begin_population
begin_population-in_progress c h = ground arith

pub add_population_entry-in_progress :
    (c : UserCache) (e : UserCacheEntry)
    → (add_population_entry c e.uid e.allowance e.role_id).0.in_progress ≡ c.in_progress
unfolding add_population_entry
add_population_entry-in_progress c e = ground arith

pub add_population_tank-in_progress :
    (c : UserCache) (t : TankCacheEntry) → (add_population_tank c t).0.in_progress ≡ c.in_progress
unfolding add_population_tank
add_population_tank-in_progress c t = ground arith
