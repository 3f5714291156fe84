-- ===== src/CacheManager/Complete.antt =====
-- A population that nothing disturbs: it ends, and the active tables are what the portal serves.
use fuelflux.Base.{
  ℕ, ◌+◌, ◌<◌, ◌≡◌, refl, ◌∙◌, ap, Bool, true, false, not, List, [], Option, some, length, take,
  drop, foldl, is_empty,
}
use fuelflux.Types.{UserId}
use fuelflux.Backend.{IBackend, UserCard, FuelTank}
use fuelflux.UserCache.{
  UserCache, Tables, active, find_user, replace_tank, begin_population, commit_population,
}
use fuelflux.UserCache.Standby.{
  IsSound, Holds, begin_population-Holds, add_population_entry-Holds, add_population_tank-Holds,
  commit_population-Holds,
}
use fuelflux.CacheManager.{synchronization_role, fetch_batch_size}
use fuelflux.CacheManager.Population.{
  Sync, logged_out, add_card, add_tank, finish, fill, populate_cache,
}
use fuelflux.CacheManager.Rows.{
  card_entry, tank_entry, last_card, tank_rows, no_rows, put_card, put_tank, put_cards-tanks,
  put_tanks-tables, find_user-new_cards,
}
use fuelflux.CacheManager.Loop.{Serves, fetch_pages-Ended}

module _ {B : Type 0} (ops : IBackend B) (runs : ℕ → Bool) (cards : List UserCard)
    (tanks : List FuelTank) (Good : B → Type 0) where
  -- A portal that serves these lists, page by page, and with no error.
  pub record Portal : Type 0 where
    pub cards_page :
        (b : B) (first : ℕ)
        → Good b
        → (ops.fetch_user_cards b first fetch_batch_size).1
          ≡ take fetch_batch_size (drop first cards)
    pub cards_good :
        (b : B) (first : ℕ) → Good b → Good (ops.fetch_user_cards b first fetch_batch_size).0
    pub tanks_page :
        (b : B) (first : ℕ)
        → Good b
        → (ops.fetch_fuel_tanks b first fetch_batch_size).1
          ≡ take fetch_batch_size (drop first tanks)
    pub tanks_good :
        (b : B) (first : ℕ) → Good b → Good (ops.fetch_fuel_tanks b first fetch_batch_size).0
    pub no_error :
        (b : B) (first : ℕ)
        → Good b
        → ops.get_last_error (ops.fetch_fuel_tanks b first fetch_batch_size).0 ≡ []
    pub runs_on : (n : ℕ) → runs n ≡ true

  -- What a population finds that can succeed.
  pub record IsReady (s : Sync B) : Type 0 where
    pub portal : Portal
    pub named : is_empty (ops.get_controller_uid s.backend) ≡ false
    pub authorized : (ops.authorize s.backend (ops.get_controller_uid s.backend)).1 ≡ true
    pub good : Good (ops.authorize s.backend (ops.get_controller_uid s.backend)).0
    pub role :
        ops.get_role_id (ops.authorize s.backend (ops.get_controller_uid s.backend)).0
        ≡ synchronization_role
    pub sound : IsSound s.cache
    pub idle : s.cache.in_progress ≡ false

  cards-Serves :
      Portal → Serves ops runs ops.fetch_user_cards add_card (λ b. false) Good put_card cards
  unfolding put_card
  cards-Serves p = record {
    page = p.cards_page;
    stays = p.cards_good;
    fine = λ b first g. refl;
    puts = λ c t a h. add_population_entry-Holds c t (card_entry a) h;
    runs_on = p.runs_on;
  }

  tanks-Serves :
      Portal
      → Serves ops runs ops.fetch_fuel_tanks add_tank
          (λ b. not (is_empty (ops.get_last_error b)))
          Good
          put_tank
          tanks
  unfolding put_tank
  tanks-Serves p = record {
    page = p.tanks_page;
    stays = p.tanks_good;
    fine = λ b first g. rw (p.no_error b first g) refl;
    puts = λ c t a h. add_population_tank-Holds c t (tank_entry a) h;
    runs_on = p.runs_on;
  }

  -- A population that has ended well, with these tables.
  Loaded : Tables → Option (Sync B × Bool) → Type 0
  Loaded t r =
      (s : Sync B) × (r ≡ some (s, true)) × (active s.cache ≡ t) × (s.cache.in_progress ≡ false)

  finish-Loaded :
      (s : Sync B) (t : Tables) → Portal → Holds s.cache t → Loaded t (finish ops runs s)
  unfolding finish Loaded
  finish-Loaded s t p h =
      let (done, shown, ended) = commit_population-Holds s.cache t h in
      rw (p.runs_on s.reads) (
        record (logged_out ops runs (record s { reads = s.reads + 1 })) {
          cache = (commit_population s.cache).0;
        },
        ap
            (λ b. some (
              record (logged_out ops runs (record s { reads = s.reads + 1 })) {
                cache = (commit_population s.cache).0;
              },
              b,
            ))
            done,
        shown,
        ended,
      )

  -- The tables after a population.
  loaded : Tables
  loaded = foldl put_tank (foldl put_card no_rows cards) tanks

  fill-Loaded :
      (fuel : ℕ) (s : Sync B) (r : UserCache × Bool)
      → Portal
      → Good s.backend
      → r.1 ≡ true
      → Holds r.0 no_rows
      → length cards < fuel
      → length tanks < fuel
      → Loaded loaded (fill ops runs fuel s r)
  unfolding loaded
  fill-Loaded fuel s (c, false) p good done h fc ft = cc
  fill-Loaded fuel s (c, true) p good done h fc ft =
      let (s1, e1, h1, g1) =
        fetch_pages-Ended ops runs ops.fetch_user_cards add_card (λ b. false) Good put_card cards
          (cards-Serves p) fuel 0 (record s { cache = c }) no_rows fc good h in
      let (s2, e2, h2, g2) =
        fetch_pages-Ended ops runs ops.fetch_fuel_tanks add_tank
          (λ b. not (is_empty (ops.get_last_error b))) Good put_tank tanks (tanks-Serves p) fuel 0
          s1 (foldl put_card no_rows cards) ft g1 h1 in
      rw (e1, e2) (finish-Loaded s2 loaded p h2)

  populate_cache-Loaded :
      (fuel : ℕ) (s : Sync B)
      → IsReady s
      → length cards < fuel
      → length tanks < fuel
      → Loaded loaded (populate_cache ops runs fuel s)
  unfolding populate_cache
  populate_cache-Loaded fuel s ready fc ft =
      let (begun, h) = begin_population-Holds s.cache ready.sound ready.idle in
      let b = (ops.authorize s.backend (ops.get_controller_uid s.backend)).0 in
      rw (ready.named, ready.authorized, ready.role)
        (fill-Loaded fuel (record s { backend = b }) (begin_population s.cache) ready.portal
          ready.good begun h fc ft)

  -- With a portal that serves a list of cards and a list of tanks, a database that works and no stop,
  -- a population ends with success when each loop may fetch more pages than its list is long. The
  -- active table then finds each card as the last one in the list with its uid, and none that is not
  -- in the list; its tanks are those of the list in the order of their numbers; and no population is
  -- left in progress. The population begins with none in progress, with a named controller, and
  -- with an authorization that gives the synchronization role.
  pub populate_cache_lem :
      (fuel : ℕ) (s : Sync B)
      → IsReady s
      → length cards < fuel
      → length tanks < fuel
      → (s' : Sync B) × (populate_cache ops runs fuel s ≡ some (s', true))
        × ((uid : UserId) → find_user uid (active s'.cache).users ≡ last_card uid cards)
        × ((active s'.cache).tanks ≡ tank_rows tanks)
        × (s'.cache.in_progress ≡ false)
  unfolding Loaded loaded
  populate_cache_lem fuel s ready fc ft =
      let (s', e, shown, idle) = populate_cache-Loaded fuel s ready fc ft in
      let t = foldl put_card no_rows cards in
      let (users, rows) = put_tanks-tables t tanks in
      (
        s',
        e,
        λ uid.
            ap (λ u. find_user uid u.users) shown
            ∙ (ap (find_user uid) users ∙ find_user-new_cards uid cards),
        ap (λ u. u.tanks) shown
            ∙ (rows
                ∙ ap (λ l. foldl (λ rows tank. replace_tank (tank_entry tank) rows) l tanks)
                    (put_cards-tanks no_rows cards)),
        idle,
      )
