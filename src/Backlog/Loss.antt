-- ===== src/Backlog/Loss.antt =====
-- BacklogWorker::HandleFailure when the database does one statement and not the other.
use fuelflux.Base.{◌+◌, ◌≡◌, true, false, arith}
use fuelflux.Storage.{StoredMessage, add_dead_message, remove_backlog, delete_row}
use fuelflux.Backend.{IBackend}
use fuelflux.Backlog.{Pair, handle_failure}

-- A report that the backend refused is lost if the statement that would make it a dead message is
-- not done and the one that removes it is: it stands in neither table, and the worker goes on.
pub handle_failure_loses :
    {B : Type 0} (ops : IBackend B) (p : Pair B) (m : StoredMessage)
    → ops.is_network_error p.remote ≡ false
    → p.store.db.is_open ≡ true
    → p.store.db.works p.store.db.executed ≡ false
    → p.store.db.works (p.store.db.executed + 1) ≡ true
    → ((handle_failure ops p m).0.store.backlog ≡ delete_row m.id p.store.backlog)
      × ((handle_failure ops p m).0.store.dead_messages ≡ p.store.dead_messages)
      × ((handle_failure ops p m).1 ≡ true)
unfolding handle_failure add_dead_message remove_backlog
handle_failure_loses ops p m refused is_open stored removed = ground arith
