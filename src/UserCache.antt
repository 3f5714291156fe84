-- ===== src/UserCache.antt =====
-- src/user_cache.cpp: users and tanks for offline authorization, in an active table and a standby
-- table that change places when a population is committed.
pub mod Population
pub mod Standby
use fuelflux.Base.{
  Bool, true, false, not, ◌&&◌, if◌then◌else◌, List, [], ◌∷◌, Option, none, some, Text, text_eq, ℤ,
  pos, ltb_ℤ, eqb_ℤ, length, ℕ,
}
use fuelflux.Sqlite.{Connection, next_works, executed_one}
use fuelflux.Types.{UserId, Volume}
use fuelflux.Numbers.{sub_double}

pub record UserCacheEntry : Type 0 where
  pub uid : UserId
  pub allowance : Volume
  pub role_id : ℤ

pub record TankCacheEntry : Type 0 where
  pub id_tank : ℤ
  pub visual_number_tank : ℤ
  pub name_tank : Text
  pub volume : Volume

-- user_cache_a and tank_cache_a, or user_cache_b and tank_cache_b.
pub record Tables : Type 0 where
  pub users : List UserCacheEntry
  pub tanks : List TankCacheEntry

-- `meta_is_a` is the row `active_table` of user_cache_meta.
pub record UserCache : Type 0 where
  pub db : Connection
  pub tables_a : Tables
  pub tables_b : Tables
  pub meta_is_a : Bool
  pub active_is_a : Bool
  pub in_progress : Bool

abbrev pub ran : UserCache → UserCache
ran c = record c { db = executed_one c.db }

-- GetActiveTableName, GetStandbyTableName and their tank tables.
abbrev pub active : UserCache → Tables
active c = if c.active_is_a then c.tables_a else c.tables_b

abbrev pub standby : UserCache → Tables
standby c = if c.active_is_a then c.tables_b else c.tables_a

abbrev pub set_active : UserCache → Tables → UserCache
set_active c t = if c.active_is_a then record c { tables_a = t } else record c { tables_b = t }

abbrev pub set_standby : UserCache → Tables → UserCache
set_standby c t = if c.active_is_a then record c { tables_b = t } else record c { tables_a = t }

-- SELECT … WHERE uid = ?
unfoldable pub find_user : UserId → List UserCacheEntry → Option UserCacheEntry
find_user uid [] = none
find_user uid (e ∷ es) = if text_eq e.uid uid then some e else find_user uid es

-- INSERT OR REPLACE into a table whose primary key is uid.
pub replace_user : UserCacheEntry → List UserCacheEntry → List UserCacheEntry
replace_user e [] = e ∷ []
replace_user e (f ∷ fs) = if text_eq f.uid e.uid then e ∷ fs else f ∷ replace_user e fs

-- INSERT OR REPLACE into a table whose primary key is visual_number_tank; the rows stand in the
-- order of the key.
pub replace_tank : TankCacheEntry → List TankCacheEntry → List TankCacheEntry
replace_tank t [] = t ∷ []
replace_tank t (u ∷ us) =
    if eqb_ℤ u.visual_number_tank t.visual_number_tank
    then t ∷ us
    else if ltb_ℤ t.visual_number_tank u.visual_number_tank
    then t ∷ u ∷ us
    else u ∷ replace_tank t us

abbrev pub with_user : Tables → UserCacheEntry → Tables
with_user t e = record t { users = replace_user e t.users }

pub get_entry : UserCache → UserId → UserCache × Option UserCacheEntry
get_entry c uid =
    if not c.db.is_open
    then (c, none)
    else if next_works c.db
    then (ran c, find_user uid (active c).users)
    else (ran c, none)

-- The loop over the tables: the active one, and the standby one while a population is in progress.
-- It stops at the first statement that fails.
pub write_standby : UserCache → UserCacheEntry → UserCache × Bool
write_standby c e =
    if not c.in_progress
    then (c, true)
    else if next_works c.db
    then (set_standby (ran c) (with_user (standby c) e), true)
    else (ran c, false)

pub write_tables : UserCache → UserCacheEntry → UserCache × Bool
unfolding write_standby
write_tables c e =
    if next_works c.db
    then write_standby (set_active (ran c) (with_user (active c) e)) e
    else (ran c, false)

pub update_entry : UserCache → UserId → Volume → ℤ → UserCache × Bool
unfolding write_tables
update_entry c uid allowance role_id =
    if not c.db.is_open
    then (c, false)
    else write_tables c (record { uid = uid; allowance = allowance; role_id = role_id })

-- std::max(0.0, currentAllowance - amount)
abbrev pub deducted : Volume → Volume → Volume
deducted current amount =
    let rest = sub_double current amount in if ltb_ℤ (pos 0) rest then rest else pos 0

-- COMMIT or ROLLBACK, given the cache as it was when the transaction began. Where the COMMIT itself
-- fails the rows stay as the open transaction shows them.
pub end_transaction : UserCache → UserCache × Bool → UserCache × Bool
end_transaction before (c, true) = (ran c, next_works c.db)
end_transaction before (c, false) =
    if next_works c.db
    then (record (ran c) { tables_a = before.tables_a; tables_b = before.tables_b }, false)
    else (ran c, false)

pub write_deducted : UserCache → UserCacheEntry → UserCache × Bool
unfolding write_tables end_transaction
write_deducted c e =
    if not c.in_progress
    then write_tables c e
    else if next_works c.db
    then end_transaction (ran c) (write_tables (ran c) e)
    else (ran c, false)

abbrev pub deduct_found : UserCache → Volume → Option UserCacheEntry → UserCache × Bool
deduct_found c amount none = (c, false)
deduct_found c amount (some e) =
    write_deducted c (record e { allowance = deducted e.allowance amount })

unfoldable pub deduct_allowance : UserCache → UserId → Volume → UserCache × Bool
unfolding write_deducted
deduct_allowance c uid amount =
    if not c.db.is_open
    then (c, false)
    else if next_works c.db
    then deduct_found (ran c) amount (find_user uid (active c).users)
    else (ran c, false)

pub get_count : UserCache → UserCache × ℕ
get_count c =
    if not c.db.is_open
    then (c, 0)
    else if next_works c.db
    then (ran c, length (active c).users)
    else (ran c, 0)

pub get_tanks : UserCache → UserCache × List TankCacheEntry
get_tanks c =
    if not c.db.is_open
    then (c, [])
    else if next_works c.db
    then (ran c, (active c).tanks)
    else (ran c, [])

-- The DELETE on the standby tanks, after the one on the standby users.
pub clear_tanks : UserCache → UserCache × Bool
clear_tanks c =
    if next_works c.db
    then (
      record (set_standby (ran c) (record (standby c) { tanks = [] })) { in_progress = true },
      true,
    )
    else (ran c, false)

unfoldable pub begin_population : UserCache → UserCache × Bool
unfolding clear_tanks
begin_population c =
    if not c.db.is_open
    then (c, false)
    else if c.in_progress
    then (c, false)
    else if next_works c.db
    then clear_tanks (set_standby (ran c) (record (standby c) { users = [] }))
    else (ran c, false)

unfoldable pub add_population_entry : UserCache → UserId → Volume → ℤ → UserCache × Bool
add_population_entry c uid allowance role_id =
    if not c.db.is_open
    then (c, false)
    else if not c.in_progress
    then (c, false)
    else if next_works c.db
    then (
      set_standby (ran c)
          (with_user (standby c) (record { uid = uid; allowance = allowance; role_id = role_id })),
      true,
    )
    else (ran c, false)

unfoldable pub add_population_tank : UserCache → TankCacheEntry → UserCache × Bool
add_population_tank c tank =
    if not c.db.is_open
    then (c, false)
    else if not c.in_progress
    then (c, false)
    else if next_works c.db
    then (
      set_standby (ran c) (record (standby c) { tanks = replace_tank tank (standby c).tanks }),
      true,
    )
    else (ran c, false)

-- The swap is taken back where the metadata is not written; the population then stays in progress.
unfoldable pub commit_population : UserCache → UserCache × Bool
commit_population c =
    if not c.db.is_open
    then (c, false)
    else if not c.in_progress
    then (c, false)
    else if next_works c.db
    then (
      record (ran c) {
        active_is_a = not c.active_is_a;
        meta_is_a = not c.active_is_a;
        in_progress = false;
      },
      true,
    )
    else (ran c, false)

unfoldable pub abort_population : UserCache → UserCache
abort_population c = record c { in_progress = false }
