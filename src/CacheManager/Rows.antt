-- ===== src/CacheManager/Rows.antt =====
-- The tables that a population fills, as a function of what the portal serves.
use fuelflux.Base.{
  ◌≡◌, refl, ◌∙◌, arith, if◌then◌else◌, List, [], ◌∷◌, Option, some, none, foldl, text_eq,
}
use fuelflux.Types.{UserId}
use fuelflux.Backend.{UserCard, FuelTank}
use fuelflux.UserCache.{
  UserCacheEntry, TankCacheEntry, Tables, find_user, replace_user, replace_tank,
}
use fuelflux.UserCache.Population.{find_user-replace_user}

abbrev pub card_entry : UserCard → UserCacheEntry
card_entry card = record { uid = card.uid; allowance = card.allowance; role_id = card.role_id }

abbrev pub tank_entry : FuelTank → TankCacheEntry
tank_entry tank = record {
  id_tank = tank.id_tank;
  visual_number_tank = tank.visual_number_tank;
  name_tank = tank.name_tank;
  volume = tank.volume;
}

-- The entry of the last card in the list with that uid.
pub last_card : UserId → List UserCard → Option UserCacheEntry
last_card uid [] = none
last_card uid (k ∷ ks) = elim (last_card uid ks) [
  | none ↦ if text_eq k.uid uid then some (card_entry k) else none
  | some e ↦ some e
]

-- The tanks, in the order of their numbers, each with what the list says last.
abbrev pub tank_rows : List FuelTank → List TankCacheEntry
tank_rows = foldl (λ rows tank. replace_tank (tank_entry tank) rows) []

abbrev pub no_rows : Tables
no_rows = record { users = []; tanks = [] }

unfoldable pub put_card : Tables → UserCard → Tables
put_card t card = record t { users = replace_user (card_entry card) t.users }

unfoldable pub put_tank : Tables → FuelTank → Tables
put_tank t tank = record t { tanks = replace_tank (tank_entry tank) t.tanks }

find_user-put_cards :
    (uid : UserId) (t : Tables) (cards : List UserCard)
    → find_user uid (foldl put_card t cards).users
      ≡ elim (last_card uid cards) as (λ o. Option UserCacheEntry) [
        | none ↦ find_user uid t.users
        | some e ↦ some e
      ]
unfolding last_card put_card
find_user-put_cards uid t [] = refl
find_user-put_cards uid t (k ∷ ks) =
    find_user-put_cards uid (put_card t k) ks ∙ of_last (last_card uid ks)
  where
    of_last :
        (o : Option UserCacheEntry)
        → (elim o as (λ o. Option UserCacheEntry) [
          | none ↦ find_user uid (put_card t k).users
          | some e ↦ some e
        ])
          ≡ elim (elim o as (λ o. Option UserCacheEntry) [
            | none ↦ if text_eq k.uid uid then some (card_entry k) else none
            | some e ↦ some e
          ])
              as (λ o. Option UserCacheEntry) [ none ↦ find_user uid t.users | some e ↦ some e ]
    of_last (some e) = refl
    of_last none = ground (arith, find_user-replace_user uid (card_entry k) t.users)

pub put_cards-tanks :
    (t : Tables) (cards : List UserCard) → (foldl put_card t cards).tanks ≡ t.tanks
unfolding put_card
put_cards-tanks t [] = refl
put_cards-tanks t (k ∷ ks) = put_cards-tanks (put_card t k) ks

pub put_tanks-tables :
    (t : Tables) (tanks : List FuelTank)
    → ((foldl put_tank t tanks).users ≡ t.users)
      × ((foldl put_tank t tanks).tanks
          ≡ foldl (λ rows tank. replace_tank (tank_entry tank) rows) t.tanks tanks)
unfolding put_tank
put_tanks-tables t [] = (refl, refl)
put_tanks-tables t (k ∷ ks) = put_tanks-tables (put_tank t k) ks

pub find_user-new_cards :
    (uid : UserId) (cards : List UserCard)
    → find_user uid (foldl put_card no_rows cards).users ≡ last_card uid cards
find_user-new_cards uid cards =
    find_user-put_cards uid no_rows cards ∙ of_last (last_card uid cards)
  where
    of_last :
        (o : Option UserCacheEntry)
        → (elim o as (λ o. Option UserCacheEntry) [ none ↦ find_user uid [] | some e ↦ some e ]) ≡ o
    of_last none = unfold find_user in refl
    of_last (some e) = refl
