-- ===== src/Executor/Bounded.antt =====
-- The executor holds no more tasks than its limit, and runs those it accepted, in their order.
use fuelflux.Base.{
  ℕ, ◌≤◌, ◌≡◌, refl, ◌∙◌, sym, ap, arith, List, [], ◌∷◌, ◌++◌, length, length-append, append_nil,
  append_assoc, if◌then◌else◌,
}
use fuelflux.Executor.{Executor, new_executor, submit, shut_down, work}

-- What happens to an executor: a submission, a round of a worker, a shutdown.
pub data Call (T : Type 0) : Type 0 where
  submit_task : T → Call T
  work_round : Call T
  shutdown_call : Call T

module _ {T : Type 0} where
  abbrev pub apply_call : Executor T → Call T → Executor T
  apply_call e (submit_task t) = (submit e t).0
  apply_call e work_round = work e
  apply_call e shutdown_call = shut_down e

  -- The task of a submission that was accepted.
  abbrev pub accepted_by : Executor T → Call T → List T
  accepted_by e (submit_task t) = if (submit e t).1 then t ∷ [] else []
  accepted_by e c = []

  unfoldable pub apply_calls : Executor T → List (Call T) → Executor T
  apply_calls e [] = e
  apply_calls e (c ∷ cs) = apply_calls (apply_call e c) cs

  pub accepted : Executor T → List (Call T) → List T
  accepted e [] = []
  accepted e (c ∷ cs) = accepted_by e c ++ accepted (apply_call e c) cs

  apply_call-bound :
      (e : Executor T) (c : Call T)
      → length e.tasks ≤ e.max_queue_size
      → (length (apply_call e c).tasks ≤ (apply_call e c).max_queue_size)
        × ((apply_call e c).max_queue_size ≡ e.max_queue_size)
  unfolding submit work shut_down
  apply_call-bound e (submit_task t) h = ground (arith, length-append e.tasks (t ∷ []))
  apply_call-bound e work_round h = ground arith
  apply_call-bound e shutdown_call h = ground arith

  -- What was taken and what waits is what was accepted.
  apply_call-flow :
      (e : Executor T) (c : Call T)
      → (apply_call e c).taken ++ (apply_call e c).tasks ≡ (e.taken ++ e.tasks) ++ accepted_by e c
  unfolding submit work shut_down
  apply_call-flow e (submit_task t) =
      ground (arith, append_nil (e.taken ++ e.tasks), append_assoc e.taken e.tasks (t ∷ []))
  apply_call-flow e work_round = round e.tasks refl
    where
      round :
          (ts : List T)
          → e.tasks ≡ ts
          → (work e).taken ++ (work e).tasks ≡ (e.taken ++ e.tasks) ++ []
      round [] h = ground (arith, append_nil (e.taken ++ e.tasks))
      round (t ∷ ts) h =
          ground (arith, append_nil (e.taken ++ e.tasks), append_assoc e.taken (t ∷ []) ts)
  apply_call-flow e shutdown_call = sym (append_nil (e.taken ++ e.tasks))

  apply_calls-flow :
      (e : Executor T) (cs : List (Call T))
      → (apply_calls e cs).taken ++ (apply_calls e cs).tasks ≡ (e.taken ++ e.tasks) ++ accepted e cs
  unfolding apply_calls accepted
  apply_calls-flow e [] = sym (append_nil (e.taken ++ e.tasks))
  apply_calls-flow e (c ∷ cs) =
      apply_calls-flow (apply_call e c) cs
      ∙ (ap (λ l. l ++ accepted (apply_call e c) cs) (apply_call-flow e c)
          ∙ append_assoc (e.taken ++ e.tasks) (accepted_by e c) (accepted (apply_call e c) cs))

  apply_calls-bound :
      (e : Executor T) (cs : List (Call T))
      → length e.tasks ≤ e.max_queue_size
      → length (apply_calls e cs).tasks ≤ e.max_queue_size
  unfolding apply_calls
  apply_calls-bound e [] h = h
  apply_calls-bound e (c ∷ cs) h =
      let (b, same) = apply_call-bound e c h in
      omega (arith, apply_calls-bound (apply_call e c) cs b)

  -- In any order of submissions, worker rounds and shutdowns, a new executor never holds more tasks
  -- than its limit, and the tasks that were taken, followed by those that wait, are the accepted
  -- ones, in the order of their submission: none is lost, doubled or overtaken.
  pub apply_calls_lem :
      (max_threads max_queue_size : ℕ) (cs : List (Call T))
      → let e = apply_calls (new_executor max_threads max_queue_size) cs in
        (length e.tasks ≤ max_queue_size)
        × (e.taken ++ e.tasks ≡ accepted (new_executor max_threads max_queue_size) cs)
  unfolding new_executor
  apply_calls_lem max_threads max_queue_size cs =
      let e = new_executor max_threads max_queue_size in
      (apply_calls-bound e cs (omega arith), apply_calls-flow e cs)
