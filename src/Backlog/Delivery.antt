-- ===== src/Backlog/Delivery.antt =====
-- What a round of the worker does to the backlog, the dead messages and the backend.
use fuelflux.Base.{
  ℕ, suc, ◌+◌, ◌≡◌, refl, ◌∙◌, subst, ◌⊎◌, inl, inr, Bool, true, false, Bool-cases, Option-cases,
  ap, List, [], ◌∷◌, ◌++◌, some, arith, if◌then◌else◌, length, ◌&&◌, is_some, All,
}
use fuelflux.Storage.{
  BacklogRow, DeadRow, StoredMessage, MessageStorage, add_dead_message, get_next_backlog,
  remove_backlog, method_to_string, read_row, delete_row, ran,
}
use fuelflux.Storage.Laws.{IsValid, Ascending, Ascending-mono, delete_row_below}
use fuelflux.Backend.{IBackend}
use fuelflux.Backlog.{
  BacklogWorker, Pair, send_payload, handle_failure, finish_message, process_message, process_next,
  process_once, run_rounds,
}

-- Every statement is done.
abbrev pub Works : MessageStorage → Type 0
Works s = (s.db.is_open ≡ true) × ((n : ℕ) → s.db.works n ≡ true)

abbrev pub dead_row : StoredMessage → DeadRow
dead_row m = record { uid = m.uid; method = method_to_string m.method; payload = m.payload }

-- The database keeps answering as it did.
abbrev SameDb : MessageStorage → MessageStorage → Type 0
SameDb s s' = (s'.db.is_open ≡ s.db.is_open) × (s'.db.works ≡ s.db.works)

-- What becomes of the message at the front, given whether the backend accepted it and, where it did
-- not, whether the network was the reason: it is delivered, or it goes to the dead messages, or
-- nothing moves and the worker will wait.
abbrev pub Fate :
    MessageStorage → MessageStorage → List BacklogRow → StoredMessage → Bool → Bool → Bool → Type 0
Fate s s' rows m accepted by_network processed =
    ((accepted ≡ true)
      × (processed ≡ true)
      × (s'.backlog ≡ rows)
      × (s'.dead_messages ≡ s.dead_messages))
    ⊎ ((accepted ≡ false)
        × (by_network ≡ false)
        × (processed ≡ true)
        × (s'.backlog ≡ rows)
        × (s'.dead_messages ≡ s.dead_messages ++ dead_row m ∷ []))
    ⊎ ((accepted ≡ false)
        × (by_network ≡ true)
        × (processed ≡ false)
        × (s'.backlog ≡ s.backlog)
        × (s'.dead_messages ≡ s.dead_messages))

SameDb-Works : (s s' : MessageStorage) → Works s → SameDb s s' → Works s'
SameDb-Works s s' w same = (same.0 ∙ w.0, λ n. rw same.1 (w.1 n))

read_row-rowid : (r : BacklogRow) (m : StoredMessage) → read_row r ≡ some m → m.id ≡ r.rowid
read_row-rowid r m f = ground arith

delete_front :
    (s : MessageStorage) (r : BacklogRow) (rows : List BacklogRow) (m : StoredMessage)
    → IsValid s
    → s.backlog ≡ r ∷ rows
    → read_row r ≡ some m
    → delete_row m.id s.backlog ≡ rows
delete_front s r rows m v e f =
    let a : Ascending 1 (r ∷ rows) = subst (Ascending 1) e v in
    rw e (ground (arith, read_row-rowid r m f, delete_row_below (suc r.rowid) r.rowid rows a.1))

Fate-IsValid :
    (s s' : MessageStorage) (rows : List BacklogRow) (m : StoredMessage)
    (accepted by_network processed : Bool)
    → IsValid s
    → (r : BacklogRow) × (s.backlog ≡ r ∷ rows)
    → Fate s s' rows m accepted by_network processed
    → IsValid s'
Fate-IsValid s s' rows m accepted by_network processed v (r, e) fate =
    let a : Ascending 1 (r ∷ rows) = subst (Ascending 1) e v in
    let tail : Ascending 1 rows = Ascending-mono 1 (suc r.rowid) rows (omega arith) a.1 in
    elim fate [
      | inl (_, _, b, _) ↦ rw b tail
      | inr (inl (_, _, _, b, _)) ↦ rw b tail
      | inr (inr (_, _, _, b, _)) ↦ rw b v
    ]

module _ {B : Type 0} (ops : IBackend B) where
  -- The backend opens a session for the user of the message and takes the report.
  abbrev pub accepts : B → StoredMessage → Bool
  accepts b m =
      (ops.authorize b m.uid).1 && (send_payload ops m.method (ops.authorize b m.uid).0 m.payload).1

  -- The backend after the calls for a message.
  abbrev pub last_remote : B → StoredMessage → Bool → B
  last_remote b m granted =
      if granted
      then (ops.deauthorize (send_payload ops m.method (ops.authorize b m.uid).0 m.payload).0).0
      else (ops.authorize b m.uid).0

  -- What the backend says then: the network was the reason.
  abbrev pub fails_by_network : B → StoredMessage → Bool
  fails_by_network b m = ops.is_network_error (last_remote b m (ops.authorize b m.uid).1)

  handle_failure-Fate :
      (p : Pair B) (m : StoredMessage) (rows : List BacklogRow)
      → Works p.store
      → delete_row m.id p.store.backlog ≡ rows
      → Fate p.store
          (handle_failure ops p m).0.store
          rows
          m
          false
          (ops.is_network_error p.remote)
          (handle_failure ops p m).1
  unfolding handle_failure add_dead_message remove_backlog
  handle_failure-Fate p m rows w e =
      ground (arith, w.1 p.store.db.executed, w.1 (p.store.db.executed + 1))

  handle_failure-SameDb :
      (p : Pair B) (m : StoredMessage) → SameDb p.store (handle_failure ops p m).0.store
  unfolding handle_failure add_dead_message remove_backlog
  handle_failure-SameDb p m = ground arith

  finish_message-Fate :
      (p : Pair B) (m : StoredMessage) (rows : List BacklogRow) (ok : Bool)
      → Works p.store
      → delete_row m.id p.store.backlog ≡ rows
      → Fate p.store
          (finish_message ops p m ok).0.store
          rows
          m
          ok
          (ops.is_network_error (ops.deauthorize p.remote).0)
          (finish_message ops p m ok).1
  unfolding finish_message remove_backlog
  finish_message-Fate p m rows true w e = ground (arith, w.1 p.store.db.executed)
  finish_message-Fate p m rows false w e =
      handle_failure-Fate (record p { remote = (ops.deauthorize p.remote).0 }) m rows w e

  process_message-Fate :
      (p : Pair B) (m : StoredMessage) (rows : List BacklogRow)
      → Works p.store
      → delete_row m.id p.store.backlog ≡ rows
      → Fate p.store
          (process_message ops p m).0.store
          rows
          m
          (accepts p.remote m)
          (fails_by_network p.remote m)
          (process_message ops p m).1
  unfolding process_message
  process_message-Fate p m rows w e = elim (Bool-cases (ops.authorize p.remote m.uid).1) [
    | inl granted ↦
        let (b, sent) = send_payload ops m.method (ops.authorize p.remote m.uid).0 m.payload in
        let by = ap (λ g. ops.is_network_error (last_remote p.remote m g)) granted in
        rw (by, granted) (finish_message-Fate (record p { remote = b }) m rows sent w e)
    | inr refused ↦
        let by = ap (λ g. ops.is_network_error (last_remote p.remote m g)) refused in
        rw (by, refused)
          (handle_failure-Fate (record p { remote = (ops.authorize p.remote m.uid).0 }) m rows w e)
  ]

  finish_message-SameDb :
      (p : Pair B) (m : StoredMessage) (ok : Bool)
      → SameDb p.store (finish_message ops p m ok).0.store
  unfolding finish_message remove_backlog
  finish_message-SameDb p m true = ground arith
  finish_message-SameDb p m false =
      handle_failure-SameDb (record p { remote = (ops.deauthorize p.remote).0 }) m

  process_message-SameDb :
      (p : Pair B) (m : StoredMessage) → SameDb p.store (process_message ops p m).0.store
  unfolding process_message
  process_message-SameDb p m = elim (Bool-cases (ops.authorize p.remote m.uid).1) [
    | inl granted ↦
        let (b, sent) = send_payload ops m.method (ops.authorize p.remote m.uid).0 m.payload in
        rw granted (finish_message-SameDb (record p { remote = b }) m sent)
    | inr refused ↦
        rw refused
          (handle_failure-SameDb (record p { remote = (ops.authorize p.remote m.uid).0 }) m)
  ]

  -- The worker that holds a storage and a backend.
  abbrev pub holding : MessageStorage → B → BacklogWorker B
  holding s b = record { storage = some s; backend = some b }

  -- A round on a backlog whose front row can be read.
  round_lem :
      (s : MessageStorage) (b : B) (r : BacklogRow) (rows : List BacklogRow) (m : StoredMessage)
      → Works s
      → s.backlog ≡ r ∷ rows
      → read_row r ≡ some m
      → process_once ops (holding s b) ≡ (
          let (p, processed) = process_message ops (record { store = ran s; remote = b }) m in
          (holding p.store p.remote, processed))
  unfolding process_once process_next get_next_backlog
  round_lem s b r rows m w e f = rw (w.0, w.1 s.db.executed, e, f) refl

  -- A round decides the fate of the report at the front of a valid backlog, whose row can be read,
  -- with a database that works. A report that the backend took leaves the backlog. One that it did
  -- not take for another reason than the network goes to the dead messages. Where the network was
  -- the reason, as the backend says after the last call, nothing moves and the worker waits. The
  -- other reports stay as they are, in their order, and the backlog stays valid.
  pub process_once-Fate :
      (s : MessageStorage) (b : B) (r : BacklogRow) (rows : List BacklogRow) (m : StoredMessage)
      → Works s
      → IsValid s
      → s.backlog ≡ r ∷ rows
      → read_row r ≡ some m
      → (s' : MessageStorage) × (b' : B) × ((process_once ops (holding s b)).0 ≡ holding s' b')
        × Fate s s' rows m (accepts b m) (fails_by_network b m) (process_once ops (holding s b)).1
        × IsValid s'
        × Works s'
  process_once-Fate s b r rows m w v e f =
      let q = process_message ops (record { store = ran s; remote = b }) m in
      let fate =
        process_message-Fate (record { store = ran s; remote = b }) m rows w
          (delete_front s r rows m v e f) in
      let round = round_lem s b r rows m w e f in
      (
        q.0.store,
        q.0.remote,
        rw round refl,
        rw round fate,
        Fate-IsValid s q.0.store rows m (accepts b m) (fails_by_network b m) q.1 v (r, e) fate,
        SameDb-Works (ran s) q.0.store w
            (process_message-SameDb (record { store = ran s; remote = b }) m),
      )

  -- If the backend takes every report, the worker empties a readable backlog in as many rounds as
  -- there are reports, and no report becomes a dead message.
  pub run_rounds-drains :
      (rows : List BacklogRow) (s : MessageStorage) (b : B)
      → Works s
      → IsValid s
      → s.backlog ≡ rows
      → All (λ r. is_some (read_row r) ≡ true) rows
      → ((b' : B) (m : StoredMessage) → accepts b' m ≡ true)
      → (s' : MessageStorage) × (b' : B) × (run_rounds ops (length rows) (holding s b)
          ≡ holding s' b')
        × (s'.backlog ≡ [])
        × (s'.dead_messages ≡ s.dead_messages)
  unfolding run_rounds
  run_rounds-drains [] s b w v e readable takes = (s, b, refl, e, refl)
  run_rounds-drains (r ∷ rows) s b w v e readable takes = elim (Option-cases (read_row r)) [
    | inl unread ↦ absurd (cc (ap is_some unread, readable.0))
    | inr (m, f) ↦
        let (s', b', step, fate, v', w') = process_once-Fate s b r rows m w v e f in
        let moved : (s'.backlog ≡ rows) × (s'.dead_messages ≡ s.dead_messages) =
          ground (arith, fate, takes b m) in
        let (t, b'', run, done, dead) =
          run_rounds-drains rows s' b' w' v' moved.0 readable.1 takes in
        (t, b'', ap (run_rounds ops (length rows)) step ∙ run, done, dead ∙ moved.1)
  ]
