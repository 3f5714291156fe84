-- ===== src/Main.antt =====
-- The recovery loop of src/main.cpp, in the build with c-ares: the controller is started again after
-- an error, until errors come too often.
pub mod Recovery
use fuelflux.Base.{ℕ, ◌+◌, ◌-◌, Bool, true, false, not, ◌&&◌, leb, if◌then◌else◌, List, [], ◌∷◌}

-- timing::kMaxRetries, and an hour in milliseconds
abbrev pub max_retries : ℕ
max_retries = 3

abbrev pub hour : ℕ
hour = 3600000

-- `failed` is the permanent failure state, in which the process sleeps; `cares_cleaned` counts the
-- calls of CleanupCaresLibrary.
pub record Main : Type 0 where
  pub running : Bool
  pub failed : Bool
  pub logger_ready : Bool
  pub retry_count : ℕ
  pub last_retry_time : ℕ
  pub cares_initialized : Bool
  pub cares_cleaned : ℕ

-- How the try block ends after c-ares is there: by the shutdown that a signal or the user asks for,
-- or by an exception at this time, with whether the process is still to run.
pub data Outcome : Type 0 where
  ended : Outcome
  threw : ℕ → Bool → Outcome

-- An iteration: its start, whether c-ares can be initialized, and the rest of the try block.
pub record Attempt : Type 0 where
  pub start : ℕ
  pub cares_works : Bool
  pub outcome : Outcome

abbrev pub caught : ℕ → Bool → Main → Main
caught now running m = record m {
  retry_count = m.retry_count + 1;
  last_retry_time = now;
  running = running;
}

abbrev pub end_try : Outcome → Main → Main
end_try ended m = record m { running = false }
end_try (threw now running) m = caught now running m

-- The reset of the counter after an hour without an error.
abbrev pub forget : ℕ → Main → Main
forget now m = if leb hour (now - m.last_retry_time) then record m { retry_count = 0 } else m

-- An exception for want of c-ares comes at once.
abbrev pub try_block : Attempt → Main → Main
try_block a m =
    if m.cares_initialized
    then end_try a.outcome m
    else if a.cares_works
    then end_try a.outcome (record m { cares_initialized = true })
    else caught a.start m.running m

abbrev pub cleanup_cares : Main → Main
cleanup_cares m =
    if m.cares_initialized
    then record m { cares_initialized = false; cares_cleaned = m.cares_cleaned + 1 }
    else m

abbrev pub give_up : Main → Main
give_up m = record (cleanup_cares m) { logger_ready = false; failed = true }

abbrev pub recover : Main → Main
recover m = if m.running then (if leb max_retries m.retry_count then give_up m else m) else m

-- An iteration of the loop, unless it has ended.
pub iterate : Main → Attempt → Main
iterate m a = if m.running && not m.failed then recover (try_block a (forget a.start m)) else m

pub iterations : Main → List Attempt → Main
unfolding iterate
iterations m [] = m
iterations m (a ∷ as') = iterations (iterate m a) as'

-- What follows the loop.
pub finish : Main → Main
finish m = record (cleanup_cares m) { logger_ready = false }
