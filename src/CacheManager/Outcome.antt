-- ===== src/CacheManager/Outcome.antt =====
-- What holds of the outcomes of a population, from what its steps keep.
use fuelflux.Base.{
  ℕ, zero, suc, ◌+◌, ◌≡◌, subst, Bool, true, false, ltb, List, [], ◌∷◌, Option, none, some, length,
  Bool-cases, inl, inr,
}
use fuelflux.Backend.{IBackend}
use fuelflux.UserCache.{UserCache, abort_population}
use fuelflux.CacheManager.{fetch_batch_size}
use fuelflux.CacheManager.Population.{
  Sync, logged_out, add_page, after_page, fetch_pages, continue_with,
}

-- `P` holds where the population goes on or has succeeded, `Q` where it has failed.
abbrev pub Outcome :
    {B : Type 0} → (Sync B → Type 0) → (Sync B → Type 0) → Option (Sync B × Bool) → Type 0
Outcome P Q none = Unit {0}
Outcome P Q (some (s, true)) = P s
Outcome P Q (some (s, false)) = Q s

pub Outcome-false :
    {B : Type 0} (P Q : Sync B → Type 0) (r : Option (Sync B × Bool)) (s : Sync B)
    → Outcome P Q r
    → r ≡ some (s, false)
    → Q s
Outcome-false P Q r s h e = subst (Outcome P Q) e h

pub Outcome-true :
    {B : Type 0} (P Q : Sync B → Type 0) (r : Option (Sync B × Bool)) (s : Sync B)
    → Outcome P Q r
    → r ≡ some (s, true)
    → P s
Outcome-true P Q r s h e = subst (Outcome P Q) e h

pub continue_with-Outcome :
    {B : Type 0} (P P' Q : Sync B → Type 0) (next : Sync B → Option (Sync B × Bool))
    (r : Option (Sync B × Bool))
    → ((s : Sync B) → P s → Outcome P' Q (next s))
    → Outcome P Q r
    → Outcome P' Q (continue_with next r)
continue_with-Outcome P P' Q next none h k = tt
continue_with-Outcome P P' Q next (some (s, true)) h k = h s k
continue_with-Outcome P P' Q next (some (s, false)) h k = k

module _ {B : Type 0} (ops : IBackend B) (runs : ℕ → Bool) (P Q : Sync B → Type 0) where
  -- What the steps of a loop keep.
  pub record Kept {A : Type 0} (fetch : B → ℕ → ℕ → B × List A)
      (add : UserCache → A → UserCache × Bool) : Type 0 where
    pub reads : (s : Sync B) (n : ℕ) → P s → P (record s { reads = n })
    pub fetched :
        (s : Sync B) (first : ℕ)
        → P s
        → P (record s { backend = (fetch s.backend first fetch_batch_size).0 })
    pub added : (s : Sync B) (a : A) → P s → P (record s { cache = (add s.cache a).0 })
    pub failed :
        (s : Sync B) → P s → Q (record (logged_out ops runs s) { cache = abort_population s.cache })

  module _ {A : Type 0} (fetch : B → ℕ → ℕ → B × List A) (add : UserCache → A → UserCache × Bool)
      (refused : B → Bool) (kept : Kept fetch add) where
    add_page-P :
        (s : Sync B) (as' : List A)
        → P s
        → P (record s { cache = (add_page ops runs fetch add refused s.cache as').0 })
    unfolding add_page
    add_page-P s [] h = h
    add_page-P s (a ∷ as') h = elim (Bool-cases (add s.cache a).1) [
      | inl done ↦
          rw done (add_page-P (record s { cache = (add s.cache a).0 }) as' (kept.added s a h))
      | inr stopped ↦ rw stopped (kept.added s a h)
    ]

    after_page-Outcome :
        (next : Sync B → Option (Sync B × Bool)) (s : Sync B) (page : List A) (r : UserCache × Bool)
        → ((t : Sync B) → P t → Outcome P Q (next t))
        → P s
        → P (record s { cache = r.0 })
        → Outcome P Q (after_page ops runs fetch add refused next s page r)
    after_page-Outcome next s [] r hn h k = elim (Bool-cases (refused s.backend)) [
      | inl failing ↦ rw failing (kept.failed s h)
      | inr fine ↦ rw fine h
    ]
    after_page-Outcome next s (a ∷ as') (c, false) hn h k = kept.failed (record s { cache = c }) k
    after_page-Outcome next s (a ∷ as') (c, true) hn h k =
        elim (Bool-cases (ltb (length (a ∷ as')) fetch_batch_size)) [
          | inl short ↦ rw short k
          | inr full ↦ rw full (hn (record s { cache = c }) k)
        ]

    pub fetch_pages-Outcome :
        (fuel first : ℕ) (s : Sync B)
        → P s
        → Outcome P Q (fetch_pages ops runs fetch add refused fuel first s)
    unfolding fetch_pages
    fetch_pages-Outcome zero first s h = tt
    fetch_pages-Outcome (suc fuel) first s h = elim (Bool-cases (runs s.reads)) [
      | inl on ↦
          let s' = record s { reads = s.reads + 1 } in
          let (b, page) = fetch s.backend first fetch_batch_size in
          let h' = kept.fetched s' first (kept.reads s (s.reads + 1) h) in
          rw on (
            after_page-Outcome
              (fetch_pages ops runs fetch add refused fuel (first + fetch_batch_size))
              (record s' { backend = b }) page (add_page ops runs fetch add refused s.cache page)
              (λ t k. fetch_pages-Outcome fuel (first + fetch_batch_size) t k) h'
              (add_page-P (record s' { backend = b }) page h'))
      | inr off ↦ rw off (kept.reads s (s.reads + 1) h)
    ]
