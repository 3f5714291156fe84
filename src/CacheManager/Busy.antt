-- ===== src/CacheManager/Busy.antt =====
-- A population that finds another one in progress, as a commit that failed leaves it.
use fuelflux.Base.{
  ◌+◌, not, ℕ, ◌≡◌, refl, ◌∙◌, Bool, true, false, eqb_ℤ, Option, some, is_empty, Bool-cases, inl,
  inr,
}
use fuelflux.Backend.{IBackend}
use fuelflux.UserCache.{UserCache, begin_population, commit_population}
use fuelflux.UserCache.Standby.{
  begin_population-busy, begin_population-in_progress, add_population_entry-in_progress,
  add_population_tank-in_progress, commit_population-refused,
}
use fuelflux.CacheManager.{synchronization_role}
use fuelflux.CacheManager.Population.{
  Sync, logged_out, add_card, add_tank, fetch_cards, fetch_tanks, continue_with, finish, fill,
  in_session, populate_cache,
}
use fuelflux.CacheManager.Outcome.{Outcome-true, continue_with-Outcome, Kept, fetch_pages-Outcome}

module _ {B : Type 0} (ops : IBackend B) (runs : ℕ → Bool) where
  Refused : UserCache → Option (Sync B × Bool) → Type 0
  Refused c r = (s' : Sync B) × (r ≡ some (s', false)) × (s'.cache ≡ c)

  in_session-Refused :
      (fuel : ℕ) (s : Sync B) (b : Bool)
      → s.cache.in_progress ≡ true
      → Refused s.cache (in_session ops runs fuel s b)
  unfolding Refused
  in_session-Refused fuel s false h = (s, refl, refl)
  in_session-Refused fuel s true h =
      elim (Bool-cases (eqb_ℤ (ops.get_role_id s.backend) synchronization_role)) [
        | inl right ↦
            rw (right, begin_population-busy s.cache h) (logged_out ops runs s, refl, refl)
        | inr wrong ↦ rw wrong (logged_out ops runs s, refl, refl)
      ]

  populate_cache-Refused :
      (fuel : ℕ) (s : Sync B)
      → s.cache.in_progress ≡ true
      → Refused s.cache (populate_cache ops runs fuel s)
  unfolding populate_cache Refused
  populate_cache-Refused fuel s h =
      elim (Bool-cases (is_empty (ops.get_controller_uid s.backend))) [
        | inl unnamed ↦ rw unnamed (s, refl, refl)
        | inr named ↦
            let (b, done) = ops.authorize s.backend (ops.get_controller_uid s.backend) in
            rw named (in_session-Refused fuel (record s { backend = b }) done h)
      ]

  Busy : Sync B → Type 0
  Busy s = s.cache.in_progress ≡ true

  Any : Sync B → Type 0
  Any s = Unit {0}

  cards-Kept : Kept ops runs Busy Any ops.fetch_user_cards add_card
  unfolding Busy Any
  cards-Kept = record {
    reads = λ s n h. h;
    fetched = λ s first h. h;
    added = λ s a h.
        add_population_entry-in_progress s.cache
          (record { uid = a.uid; allowance = a.allowance; role_id = a.role_id })
        ∙ h;
    failed = λ s h. tt;
  }

  tanks-Kept : Kept ops runs Busy Any ops.fetch_fuel_tanks add_tank
  unfolding Busy Any
  tanks-Kept = record {
    reads = λ s n h. h;
    fetched = λ s first h. h;
    added = λ s a h.
        add_population_tank-in_progress s.cache (record {
          id_tank = a.id_tank;
          visual_number_tank = a.visual_number_tank;
          name_tank = a.name_tank;
          volume = a.volume;
        })
        ∙ h;
    failed = λ s h. tt;
  }

  -- The session that PopulateCache opens, and its cache after BeginPopulation.
  abbrev pub opened : Sync B → Sync B
  opened s = record s { backend = (ops.authorize s.backend (ops.get_controller_uid s.backend)).0 }

  -- Both loops, from BeginPopulation to the last read of running_.
  abbrev pub loops : ℕ → Sync B → Option (Sync B × Bool)
  loops fuel s =
      continue_with (fetch_tanks ops runs fuel)
        (fetch_cards ops runs fuel (record (opened s) { cache = (begin_population s.cache).0 }))

  -- A population that comes to its commit, with what it has then.
  pub record ReachesCommit (fuel : ℕ) (s u : Sync B) : Type 0 where
    pub named : is_empty (ops.get_controller_uid s.backend) ≡ false
    pub authorized : (ops.authorize s.backend (ops.get_controller_uid s.backend)).1 ≡ true
    pub right_role : eqb_ℤ (ops.get_role_id (opened s).backend) synchronization_role ≡ true
    pub begun : (begin_population s.cache).1 ≡ true
    pub filled : loops fuel s ≡ some (u, true)
    pub running : runs u.reads ≡ true

  loops-Busy :
      (fuel : ℕ) (s u : Sync B)
      → (begin_population s.cache).1 ≡ true
      → loops fuel s ≡ some (u, true)
      → u.cache.in_progress ≡ true
  unfolding Busy
  loops-Busy fuel s u begun filled =
      let begin = record (opened s) { cache = (begin_population s.cache).0 } in
      Outcome-true Busy Any (loops fuel s) u
        (continue_with-Outcome Busy Busy Any (fetch_tanks ops runs fuel)
          (fetch_cards ops runs fuel begin)
          (λ s' k.
            fetch_pages-Outcome ops runs Busy Any ops.fetch_fuel_tanks add_tank
              (λ b. not (is_empty (ops.get_last_error b))) tanks-Kept fuel 0 s' k)
          (fetch_pages-Outcome ops runs Busy Any ops.fetch_user_cards add_card (λ b. false)
            cards-Kept fuel 0 begin (begin_population-in_progress s.cache begun)))
        filled

  -- What PopulateCache gives when its commit fails.
  abbrev after_commit : Sync B → Sync B
  after_commit u = record (logged_out ops runs u) {
    cache = (commit_population u.cache).0;
    reads = u.reads + 1;
  }

  fill-begun :
      (fuel : ℕ) (s : Sync B) (r : UserCache × Bool)
      → r.1 ≡ true
      → fill ops runs fuel s r
        ≡ continue_with (finish ops runs) (
            continue_with
              (fetch_tanks ops runs fuel)
              (fetch_cards ops runs fuel (record s { cache = r.0 })))
  fill-begun fuel s (c, true) h = refl
  fill-begun fuel s (c, false) h = cc

  finish-refused :
      (u : Sync B)
      → runs u.reads ≡ true
      → (commit_population u.cache).1 ≡ false
      → finish ops runs u ≡ some (after_commit u, false)
  unfolding finish
  finish-refused u on refusal = rw (on, refusal) refl

  populate_cache-commit :
      (fuel : ℕ) (s u : Sync B)
      → ReachesCommit fuel s u
      → (commit_population u.cache).1 ≡ false
      → populate_cache ops runs fuel s ≡ some (after_commit u, false)
  unfolding populate_cache
  populate_cache-commit fuel s u r refusal =
      let fill' = fill-begun fuel (opened s) (begin_population s.cache) r.begun in
      rw (r.named, r.authorized, r.right_role, fill', r.filled) (finish-refused u r.running refusal)

  -- A population that comes to its commit, in which the commit fails, fails and leaves the
  -- population in progress. From then on every population fails and leaves the cache as it is, with
  -- whatever backend, at whatever read of running_, and with any fuel.
  pub populate_cache-after_commit :
      (fuel later reads : ℕ) (s u : Sync B) (b : B)
      → ReachesCommit fuel s u
      → (commit_population u.cache).1 ≡ false
      → (t : Sync B) × (populate_cache ops runs fuel s ≡ some (t, false))
        × (t.cache.in_progress ≡ true)
        × (t' : Sync B) × (populate_cache ops runs later (record t { backend = b; reads = reads })
            ≡ some (t', false))
        × (t'.cache ≡ t.cache)
  unfolding Refused
  populate_cache-after_commit fuel later reads s u b r refusal =
      let busy =
        (commit_population-refused u.cache refusal).1 ∙ loops-Busy fuel s u r.begun r.filled in
      let again =
        populate_cache-Refused later (record (after_commit u) { backend = b; reads = reads })
          busy in
      (after_commit u, populate_cache-commit fuel s u r refusal, busy, again.0, again.1, again.2)
