-- ===== src/Client/Background.antt =====
-- The request that Deauthorize leaves to the executor, run by a worker.
use fuelflux.Base.{
  ◌<◌, ◌≡◌, arith, Bool, true, false, ◌||◌, ◌&&◌, not, leb, if◌then◌else◌, List, [], ◌∷◌, ◌++◌,
  Text,
}
use fuelflux.Executor.{submit, work}
use fuelflux.Client.{Client}
use fuelflux.Client.Http.{Network, is_handed, deauthorize_request, send_async_deauthorize}
use fuelflux.Client.Session.{deauthorize}
use fuelflux.Client.Closed.{IsClosed}

module _ (net : Network) where
  -- The task that a worker took, given whether the backend still exists: weakSelf.lock().
  abbrev pub run_taken : Bool → Client → List Text → Client
  run_taken exists c [] = c
  run_taken exists c (token ∷ tokens) =
      if leb c.executor.workers 0
      then c
      else if exists
      then send_async_deauthorize net c token
      else c

  -- A worker's round: it takes a task and runs it.
  pub run_worker : Bool → Client → Client
  unfolding send_async_deauthorize
  run_worker exists c = run_taken exists (record c { executor = work c.executor }) c.executor.tasks

  -- The request comes to libcurl: at once where no shared_ptr manages the client, and otherwise if
  -- the executor takes the task and the backend still exists when it is run; and libcurl has a
  -- handle.
  abbrev pub is_asked : Bool → Client → Bool
  is_asked exists c =
      (if c.shared
        then exists && not (c.executor.is_shut_down || leb c.executor.max_queue_size 0)
        else true)
      && is_handed (net.transfer c.attempts (deauthorize_request c.token))

  -- Deauthorize and the next round of a worker, with no other task in the queue: the client is
  -- closed at once, and the portal is asked, once, to close the session of the token that it had,
  -- unless libcurl has no handle, or the client is managed by a shared_ptr and the executor takes no
  -- task or the client is gone when the worker runs it; then the portal is not asked. A session is
  -- open, and a worker runs.
  pub deauthorize-run_worker :
      (exists : Bool) (c : Client)
      → c.is_authorized ≡ true
      → c.executor.tasks ≡ []
      → 0 < c.executor.workers
      → let d = run_worker exists (deauthorize net c).0 in
        IsClosed (deauthorize net c).0
        × IsClosed d
        × (d.is_authorized ≡ false)
        × (d.sent
            ≡ (if is_asked exists c then c.sent ++ deauthorize_request c.token ∷ [] else c.sent))
  unfolding run_worker deauthorize submit work send_async_deauthorize
  deauthorize-run_worker exists c open_session idle there = ground arith
