-- ===== src/CacheManager/Loop.antt =====
-- A loop over the pages of a list that the portal serves: it reads the whole list.
use fuelflux.Base.{
  ℕ, zero, suc, ◌+◌, ◌<◌, ◌≡◌, refl, ◌∙◌, sym, ap, arith, Bool, true, false, ltb, List, [], ◌∷◌,
  Option, some, length, take, drop, take-drop, drop-short, length-take, subst, drop-drop,
  length-drop, foldl, foldl-append, Bool-cases, inl, inr, ◌++◌,
}
use fuelflux.Backend.{IBackend}
use fuelflux.UserCache.{UserCache, Tables}
use fuelflux.UserCache.Standby.{Holds}
use fuelflux.CacheManager.{fetch_batch_size}
use fuelflux.CacheManager.Population.{Sync, add_page, after_page, fetch_pages}

module _ {B : Type 0} (ops : IBackend B) (runs : ℕ → Bool) {A : Type 0}
    (fetch : B → ℕ → ℕ → B × List A) (add : UserCache → A → UserCache × Bool) (refused : B → Bool)
    (Good : B → Type 0) (put : Tables → A → Tables) (xs : List A) where
  -- The portal serves the list, and the entries can be added.
  pub record Serves : Type 0 where
    pub page :
        (b : B) (first : ℕ)
        → Good b
        → (fetch b first fetch_batch_size).1 ≡ take fetch_batch_size (drop first xs)
    pub stays : (b : B) (first : ℕ) → Good b → Good (fetch b first fetch_batch_size).0
    pub fine : (b : B) (first : ℕ) → Good b → refused (fetch b first fetch_batch_size).0 ≡ false
    pub puts :
        (c : UserCache) (t : Tables) (a : A)
        → Holds c t
        → ((add c a).1 ≡ true) × Holds (add c a).0 (put t a)
    pub runs_on : (n : ℕ) → runs n ≡ true

  module _ (serves : Serves) where
    add_page-Holds :
        (c : UserCache) (t : Tables) (as' : List A)
        → Holds c t
        → ((add_page ops runs fetch add refused c as').1 ≡ true)
          × Holds (add_page ops runs fetch add refused c as').0 (foldl put t as')
    unfolding add_page
    add_page-Holds c t [] h = (refl, h)
    add_page-Holds c t (a ∷ as') h =
        let (done, h') = serves.puts c t a h in
        rw done (add_page-Holds (add c a).0 (put t a) as' h')

    -- The loop has ended, with this in the standby tables.
    abbrev pub Ended : Tables → Option (Sync B × Bool) → Type 0
    Ended t r = (s : Sync B) × (r ≡ some (s, true)) × Holds s.cache t × Good s.backend

    after_page-Ended :
        (next : Sync B → Option (Sync B × Bool)) (s : Sync B) (t : Tables) (page rest : List A)
        (r : UserCache × Bool)
        → Good s.backend
        → refused s.backend ≡ false
        → Holds s.cache t
        → r.1 ≡ true
        → Holds r.0 (foldl put t page)
        → (length page < fetch_batch_size → rest ≡ [])
        → ((s' : Sync B)
            → Good s'.backend
            → (length page < fetch_batch_size → ⊥)
            → Holds s'.cache (foldl put t page)
            → Ended (foldl put (foldl put t page) rest) (next s'))
        → Ended
            (foldl put (foldl put t page) rest)
            (after_page ops runs fetch add refused next s page r)
    after_page-Ended next s t [] rest r good fine h done h' last go =
        rw (fine, last (omega arith)) (s, refl, h, good)
    after_page-Ended next s t (a ∷ as') rest (c, false) good fine h done h' last go = cc
    after_page-Ended next s t (a ∷ as') rest (c, true) good fine h done h' last go =
        elim (Bool-cases (ltb (length (a ∷ as')) fetch_batch_size)) [
          | inl short ↦
              rw (short, last (ground (arith, short))) (record s { cache = c }, refl, h', good)
          | inr full ↦ rw full (go (record s { cache = c }) good (λ k. ground (arith, full, k)) h')
        ]

    -- After a full page less of the list is left than before.
    fewer :
        (fuel first : ℕ)
        → length (drop first xs) < suc fuel
        → (length (take fetch_batch_size (drop first xs)) < fetch_batch_size → ⊥)
        → length (drop (first + fetch_batch_size) xs) < fuel
    fewer fuel first enough full = rw (← drop-drop first fetch_batch_size xs) (
        ground (
          arith,
          enough,
          full,
          length-drop fetch_batch_size (drop first xs),
          length-take fetch_batch_size (drop first xs),
        ))

    -- With more fuel than what is left of the list the loop ends, and the standby tables hold it.
    pub fetch_pages-Ended :
        (fuel first : ℕ) (s : Sync B) (t : Tables)
        → length (drop first xs) < fuel
        → Good s.backend
        → Holds s.cache t
        → Ended (foldl put t (drop first xs)) (fetch_pages ops runs fetch add refused fuel first s)
    unfolding fetch_pages
    fetch_pages-Ended zero first s t enough good h = absurd (omega (arith, enough))
    fetch_pages-Ended (suc fuel) first s t enough good h =
        let (b, page) = fetch s.backend first fetch_batch_size in
        let rest = drop (first + fetch_batch_size) xs in
        let served = serves.page s.backend first good in
        let after = drop-drop first fetch_batch_size xs in
        let (done, h') = add_page-Holds s.cache t page h in
        let whole : page ++ rest ≡ drop first xs =
          ap (λ l. l ++ rest) served
          ∙ (ap (λ l. take fetch_batch_size (drop first xs) ++ l) (sym after)
              ∙ take-drop fetch_batch_size (drop first xs)) in
        subst (λ u. Ended u (fetch_pages ops runs fetch add refused (suc fuel) first s))
          (sym (foldl-append put t page rest) ∙ ap (foldl put t) whole)
          (rw (serves.runs_on s.reads) (
            after_page-Ended
              (fetch_pages ops runs fetch add refused fuel (first + fetch_batch_size))
              (record { cache = s.cache; backend = b; reads = s.reads + 1 }) t page rest
              (add_page ops runs fetch add refused s.cache page) (serves.stays s.backend first good)
              (serves.fine s.backend first good) h done h'
              (λ short.
                sym after ∙ drop-short fetch_batch_size (drop first xs) (rw (← served) short))
              (λ s' good' full k.
                fetch_pages-Ended fuel (first + fetch_batch_size) s' (foldl put t page)
                  (fewer fuel first enough (λ short. full (rw served short))) good' k)))
