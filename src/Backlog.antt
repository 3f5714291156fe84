-- ===== src/Backlog.antt =====
-- src/backlog_worker.cpp: the worker that sends the stored reports, one round of its loop at a time.
pub mod Delivery
pub mod Loss
use fuelflux.Base.{ℕ, zero, suc, Bool, true, false, if◌then◌else◌, Option, none, some}
use fuelflux.Storage.{
  MessageMethod, refuel, intake, StoredMessage, MessageStorage, add_dead_message, get_next_backlog,
  remove_backlog,
}
use fuelflux.Backend.{IBackend}
use fuelflux.Base.{Text}

pub record BacklogWorker (B : Type 0) : Type 0 where
  pub storage : Option MessageStorage
  pub backend : Option B

-- What the worker touches while it handles a message.
pub record Pair (B : Type 0) : Type 0 where
  pub store : MessageStorage
  pub remote : B

module _ {B : Type 0} (ops : IBackend B) where
  pub handle_failure : Pair B → StoredMessage → Pair B × Bool
  handle_failure p message =
      if ops.is_network_error p.remote
      then (p, false)
      else let stored = (add_dead_message p.store message.uid message.method message.payload).0 in
        (record p { store = (remove_backlog stored message.id).0 }, true)

  unfoldable pub send_payload : MessageMethod → B → Text → B × Bool
  send_payload refuel b payload = ops.refuel_payload b payload
  send_payload intake b payload = ops.intake_payload b payload

  -- After the message is sent: Deauthorize, and what `sendOk` says.
  pub finish_message : Pair B → StoredMessage → Bool → Pair B × Bool
  unfolding handle_failure
  finish_message p message send_ok =
      let p' = record p { remote = (ops.deauthorize p.remote).0 } in
      if send_ok
      then (record p' { store = (remove_backlog p.store message.id).0 }, true)
      else handle_failure p' message

  pub process_message : Pair B → StoredMessage → Pair B × Bool
  unfolding finish_message send_payload
  process_message p message =
      let (b, authorized) = ops.authorize p.remote message.uid in
      if authorized
      then (let (b', send_ok) = send_payload message.method b message.payload in
          finish_message (record p { remote = b' }) message send_ok)
      else handle_failure (record p { remote = b }) message

  -- The worker after a round, given the storage and the backend that it holds.
  pub process_next : Pair B → MessageStorage × Option StoredMessage → Pair B × Bool
  unfolding process_message
  process_next p (s, none) = (record p { store = s }, false)
  process_next p (s, some message) = process_message (record p { store = s }) message

  abbrev worker_of : Pair B × Bool → BacklogWorker B × Bool
  worker_of (p, processed) = (record { storage = some p.store; backend = some p.remote }, processed)

  process_parts : Option MessageStorage → Option B → BacklogWorker B × Bool
  unfolding process_next
  process_parts (some s) (some b) =
      worker_of (process_next (record { store = s; remote = b }) (get_next_backlog s))
  process_parts s b = (record { storage = s; backend = b }, false)

  pub process_once : BacklogWorker B → BacklogWorker B × Bool
  unfolding process_parts
  process_once w = process_parts w.storage w.backend

  -- RunLoop for a number of rounds. A round that processed nothing is followed by a wait, which
  -- leaves the worker as it is.
  pub run_rounds : ℕ → BacklogWorker B → BacklogWorker B
  run_rounds zero w = w
  run_rounds (suc n) w = run_rounds n (process_once w).0
