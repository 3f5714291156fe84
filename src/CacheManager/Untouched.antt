-- ===== src/CacheManager/Untouched.antt =====
-- A population that fails, and one that finds another still in progress.
use fuelflux.Base.{
  ℕ, ◌+◌, ◌≡◌, refl, ◌∙◌, Bool, true, false, not, eqb_ℤ, some, is_empty, Bool-cases, inl, inr,
}
use fuelflux.Backend.{IBackend}
use fuelflux.UserCache.{
  UserCache, Tables, active, begin_population, commit_population, abort_population,
}
use fuelflux.UserCache.Standby.{
  begin_population-active, add_population_entry-active, add_population_tank-active,
  abort_population-active, commit_population-refused,
}
use fuelflux.CacheManager.{synchronization_role}
use fuelflux.CacheManager.Population.{
  Sync, logged_out, add_card, add_tank, fetch_cards, fetch_tanks, committed, finish, fill,
  in_session, populate_cache, continue_with,
}
use fuelflux.CacheManager.Outcome.{
  Outcome, Outcome-false, continue_with-Outcome, Kept, fetch_pages-Outcome,
}

module _ {B : Type 0} (ops : IBackend B) (runs : ℕ → Bool) (t : Tables) where
  Same : Sync B → Type 0
  Same s = active s.cache ≡ t

  Any : Sync B → Type 0
  Any s = Unit {0}

  abort-Same :
      (s : Sync B)
      → Same s
      → Same (record (logged_out ops runs s) { cache = abort_population s.cache })
  unfolding Same
  abort-Same s h = abort_population-active s.cache ∙ h

  cards-Kept : Kept ops runs Same Same ops.fetch_user_cards add_card
  unfolding Same
  cards-Kept = record {
    reads = λ s n h. h;
    fetched = λ s first h. h;
    added = λ s a h.
        add_population_entry-active s.cache
          (record { uid = a.uid; allowance = a.allowance; role_id = a.role_id })
        ∙ h;
    failed = λ s h. abort_population-active s.cache ∙ h;
  }

  tanks-Kept : Kept ops runs Same Same ops.fetch_fuel_tanks add_tank
  unfolding Same
  tanks-Kept = record {
    reads = λ s n h. h;
    fetched = λ s first h. h;
    added = λ s a h.
        add_population_tank-active s.cache (record {
          id_tank = a.id_tank;
          visual_number_tank = a.visual_number_tank;
          name_tank = a.name_tank;
          volume = a.volume;
        })
        ∙ h;
    failed = λ s h. abort_population-active s.cache ∙ h;
  }

  finish-Outcome : (s : Sync B) → Same s → Outcome Any Same (finish ops runs s)
  unfolding finish Same Any
  finish-Outcome s h = elim (Bool-cases (runs s.reads)) [
    | inl on ↦ rw on (
        of_commit (commit_population s.cache)
          (λ refusal. (commit_population-refused s.cache refusal).0 ∙ h))
    | inr off ↦ rw off (abort_population-active s.cache ∙ h)
  ]
    where
      of_commit :
          (r : UserCache × Bool)
          → (r.1 ≡ false → active r.0 ≡ t)
          → Outcome Any Same (some (committed ops runs (record s { reads = s.reads + 1 }) r))
      of_commit (c, true) k = tt
      of_commit (c, false) k = k refl

  fill-Outcome :
      (fuel : ℕ) (s : Sync B) (r : UserCache × Bool)
      → active r.0 ≡ t
      → Outcome Any Same (fill ops runs fuel s r)
  unfolding Same
  fill-Outcome fuel s (c, false) h = h
  fill-Outcome fuel s (c, true) h =
      let cards = fetch_cards ops runs fuel (record s { cache = c }) in
      continue_with-Outcome Same Any Same (finish ops runs)
        (continue_with (fetch_tanks ops runs fuel) cards) finish-Outcome
        (continue_with-Outcome Same Same Same (fetch_tanks ops runs fuel) cards
          (λ s' k.
            fetch_pages-Outcome ops runs Same Same ops.fetch_fuel_tanks add_tank
              (λ b. not (is_empty (ops.get_last_error b))) tanks-Kept fuel 0 s' k)
          (fetch_pages-Outcome ops runs Same Same ops.fetch_user_cards add_card (λ b. false)
            cards-Kept fuel 0 (record s { cache = c }) h))

  in_session-Outcome :
      (fuel : ℕ) (s : Sync B) (b : Bool) → Same s → Outcome Any Same (in_session ops runs fuel s b)
  unfolding Same
  in_session-Outcome fuel s false h = h
  in_session-Outcome fuel s true h =
      elim (Bool-cases (eqb_ℤ (ops.get_role_id s.backend) synchronization_role)) [
        | inl right ↦
            rw right
              (fill-Outcome fuel s (begin_population s.cache) (begin_population-active s.cache ∙ h))
        | inr wrong ↦ rw wrong h
      ]

  populate_cache-Outcome :
      (fuel : ℕ) (s : Sync B) → Same s → Outcome Any Same (populate_cache ops runs fuel s)
  unfolding populate_cache Same
  populate_cache-Outcome fuel s h =
      elim (Bool-cases (is_empty (ops.get_controller_uid s.backend))) [
        | inl unnamed ↦ rw unnamed h
        | inr named ↦
            let (b, done) = ops.authorize s.backend (ops.get_controller_uid s.backend) in
            rw named (in_session-Outcome fuel (record s { backend = b }) done h)
      ]

module _ {B : Type 0} (ops : IBackend B) (runs : ℕ → Bool) where
  -- A population that fails, wherever it fails, leaves the active tables of the cards and of the
  -- tanks as they were.
  pub populate_cache-untouched :
      (fuel : ℕ) (s s' : Sync B)
      → populate_cache ops runs fuel s ≡ some (s', false)
      → active s'.cache ≡ active s.cache
  unfolding Same
  populate_cache-untouched fuel s s' h =
      Outcome-false (Any ops runs (active s.cache)) (Same ops runs (active s.cache))
        (populate_cache ops runs fuel s) s'
        (populate_cache-Outcome ops runs (active s.cache) fuel s refl) h
