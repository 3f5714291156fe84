-- ===== src/Executor.antt =====
-- src/bounded_executor.cpp: a queue of tasks with a limit. A task is its data; the tasks that the
-- workers have taken stand in `taken`, in order.
pub mod Bounded
use fuelflux.Base.{ℕ, ◌-◌, Bool, true, false, leb, if◌then◌else◌, List, [], ◌∷◌, ◌++◌, length}

pub record Executor (T : Type 0) : Type 0 where
  pub max_queue_size : ℕ
  pub tasks : List T
  pub taken : List T
  pub is_shut_down : Bool
  -- The workers that still run.
  pub workers : ℕ

module _ {T : Type 0} where
  unfoldable pub new_executor : ℕ → ℕ → Executor T
  new_executor max_threads max_queue_size = record {
    max_queue_size = max_queue_size;
    tasks = [];
    taken = [];
    is_shut_down = false;
    workers = max_threads;
  }

  unfoldable pub submit : Executor T → T → Executor T × Bool
  submit e t =
      if e.is_shut_down
      then (e, false)
      else if leb e.max_queue_size (length e.tasks)
      then (e, false)
      else (record e { tasks = e.tasks ++ t ∷ [] }, true)

  abbrev pub queue_size : Executor T → ℕ
  queue_size e = length e.tasks

  -- `shutdown_` is set; the workers end when no task is left.
  pub shut_down : Executor T → Executor T
  shut_down e = record e { is_shut_down = true }

  abbrev take_first : Executor T → List T → Executor T
  take_first e [] = if e.is_shut_down then record e { workers = e.workers - 1 } else e
  take_first e (t ∷ ts) = record e { tasks = ts; taken = e.taken ++ t ∷ [] }

  -- A round of WorkerThread, by one of the workers: it waits, takes a task or ends.
  unfoldable pub work : Executor T → Executor T
  work e = if leb e.workers 0 then e else take_first e e.tasks
