-- ===== src/Main/Recovery.antt =====
-- When the process gives up.
use fuelflux.Base.{
  ℕ, ◌+◌, ◌≤◌, ◌<◌, suc, ◌≡◌, refl, ◌∙◌, ap, sym, subst, Bool-cases, inl, inr, arith, true, false,
  leb, List, [], ◌∷◌, length, map,
}
use fuelflux.Main.{Main, Attempt, threw, max_retries, hour, iterate, iterations}

-- An attempt that starts at the first time and ends by an exception at the second.
abbrev pub failing : ℕ × ℕ → Attempt
failing (start, caught_at) = record {
  start = start;
  cares_works = true;
  outcome = threw caught_at true;
}

-- Each attempt starts less than an hour after the exception before it.
abbrev pub Soon : ℕ → List (ℕ × ℕ) → Type 0
Soon last [] = Unit
Soon last ((start, caught_at) ∷ ts) = (start < last + hour) × Soon caught_at ts

-- Each attempt starts an hour or more after the exception before it.
abbrev pub Late : ℕ → List (ℕ × ℕ) → Type 0
Late last [] = Unit
Late last ((start, caught_at) ∷ ts) = (last + hour ≤ start) × Late caught_at ts

over : (m : Main) (as' : List Attempt) → m.failed ≡ true → (iterations m as').failed ≡ true
unfolding iterations
over m [] h = h
over m (a ∷ as') h = over (iterate m a) as' (kept m a h)
  where
    kept : (m : Main) (a : Attempt) → m.failed ≡ true → (iterate m a).failed ≡ true
    kept m a h = ground arith

-- What matters of the state after a failure.
abbrev After : Main → ℕ → ℕ → Type 0
After m count last =
    (m.running ≡ true)
    × (m.failed ≡ leb max_retries count)
    × (m.retry_count ≡ count)
    × (m.last_retry_time ≡ last)

soon-step :
    (m : Main) (start caught_at : ℕ)
    → m.running ≡ true
    → m.failed ≡ false
    → start < m.last_retry_time + hour
    → After (iterate m (failing (start, caught_at))) (m.retry_count + 1) caught_at
unfolding iterate
soon-step m start caught_at on ok soon = ground arith

late-step :
    (m : Main) (start caught_at : ℕ)
    → m.running ≡ true
    → m.failed ≡ false
    → m.last_retry_time + hour ≤ start
    → After (iterate m (failing (start, caught_at))) 1 caught_at
unfolding iterate
late-step m start caught_at on ok late = ground arith

-- A running process that counts k errors, and has given up exactly if these are three or more,
-- has given up, after failing attempts that each start less than an hour after the error before,
-- exactly if the errors and the attempts are together three or more.
pub iterations-Soon :
    (m : Main) (k : ℕ) (ts : List (ℕ × ℕ))
    → m.running ≡ true
    → m.failed ≡ leb max_retries k
    → m.retry_count ≡ k
    → Soon m.last_retry_time ts
    → (iterations m (map failing ts)).failed ≡ leb max_retries (k + length ts)
unfolding iterations
iterations-Soon m k [] on ok count soon =
    ok ∙ ap (leb max_retries) (let e : k ≡ k + 0 = omega arith in e)
iterations-Soon m k ((start, caught_at) ∷ ts) on ok count soon =
    elim (Bool-cases (leb max_retries k)) [
      | inl gone ↦
          let many : leb max_retries (k + suc (length ts)) ≡ true = ground (arith, gone) in
          over m (map failing ((start, caught_at) ∷ ts)) (ok ∙ gone) ∙ sym many
      | inr going ↦
          let s = soon-step m start caught_at on (ok ∙ going) soon.0 in
          let m' = iterate m (failing (start, caught_at)) in
          iterations-Soon m' (k + 1) ts s.0 (s.1 ∙ ap (λ n. leb max_retries (n + 1)) count)
            (s.2 ∙ ap (λ n. n + 1) count) (subst (λ t. Soon t ts) (sym s.3) soon.1)
          ∙ ap (leb max_retries) (omega arith)
    ]

-- Errors that come an hour or more apart never make the process give up.
pub iterations-Late :
    (m : Main) (ts : List (ℕ × ℕ))
    → m.running ≡ true
    → m.failed ≡ false
    → Late m.last_retry_time ts
    → (iterations m (map failing ts)).failed ≡ false
unfolding iterations
iterations-Late m [] on ok late = ok
iterations-Late m ((start, caught_at) ∷ ts) on ok late =
    let s = late-step m start caught_at on ok late.0 in
    iterations-Late (iterate m (failing (start, caught_at))) ts s.0 (s.1 ∙ few)
      (subst (λ t. Late t ts) (sym s.3) late.1)
  where
    few : leb max_retries 1 ≡ false
    few = refl
