-- ===== src/Storage.antt =====
-- src/message_storage.cpp: the backlog of reports that wait to be sent, and the dead messages.
pub mod Laws
use fuelflux.Base.{
  ℕ, suc, Bool, true, false, ◌&&◌, ◌==◌, not, if◌then◌else◌, List, [], ◌∷◌, ◌++◌, Option, none,
  some, Text, codes, text_eq, ℕ, length,
}
use fuelflux.Sqlite.{Connection, next_works, executed_one}
use fuelflux.Types.{UserId}

pub data MessageMethod : Type 0 where
  refuel intake : MessageMethod

-- A row of the table `backlog`: the method is stored as text.
pub record BacklogRow : Type 0 where
  pub rowid : ℕ
  pub uid : UserId
  pub method : Text
  pub payload : Text

pub record DeadRow : Type 0 where
  pub uid : UserId
  pub method : Text
  pub payload : Text

pub record StoredMessage : Type 0 where
  pub id : ℕ
  pub uid : UserId
  pub method : MessageMethod
  pub payload : Text

-- The rows stand in the order of their rowid.
pub record MessageStorage : Type 0 where
  pub db : Connection
  pub backlog : List BacklogRow
  pub dead_messages : List DeadRow

pub method_to_string : MessageMethod → Text
method_to_string refuel = codes "Refuel"
method_to_string intake = codes "Intake"

unfoldable pub method_from_string : Text → Option MessageMethod
method_from_string value =
    if text_eq value (codes "Refuel")
    then some refuel
    else if text_eq value (codes "Intake")
    then some intake
    else none

-- SQLite gives a new row the rowid after the largest in use.
abbrev pub next_rowid : List BacklogRow → ℕ
next_rowid [] = 1
next_rowid (r ∷ []) = suc r.rowid
next_rowid (r ∷ s ∷ rows) = next_rowid (s ∷ rows)

abbrev pub new_row : MessageStorage → UserId → MessageMethod → Text → BacklogRow
new_row s uid method payload = record {
  rowid = next_rowid s.backlog;
  uid = uid;
  method = method_to_string method;
  payload = payload;
}

-- The storage with the connection after one statement.
abbrev pub ran : MessageStorage → MessageStorage
ran s = record s { db = executed_one s.db }

unfoldable pub add_backlog : MessageStorage → UserId → MessageMethod → Text → MessageStorage × Bool
add_backlog s uid method payload =
    if not s.db.is_open
    then (s, false)
    else if next_works s.db
    then (record (ran s) { backlog = s.backlog ++ new_row s uid method payload ∷ [] }, true)
    else (ran s, false)

unfoldable pub add_dead_message :
    MessageStorage → UserId → MessageMethod → Text → MessageStorage × Bool
add_dead_message s uid method payload =
    if not s.db.is_open
    then (s, false)
    else if next_works s.db
    then (
      record (ran s) {
        dead_messages =
            s.dead_messages
            ++ record { uid = uid; method = method_to_string method; payload = payload } ∷ [];
      },
      true,
    )
    else (ran s, false)

-- A row whose method is unknown is a read error.
abbrev pub read_row : BacklogRow → Option StoredMessage
read_row r = elim (method_from_string r.method) [
  | none ↦ none
  | some m ↦ some (record { id = r.rowid; uid = r.uid; method = m; payload = r.payload })
]

abbrev pub first_message : List BacklogRow → Option StoredMessage
first_message [] = none
first_message (r ∷ rows) = read_row r

-- SELECT … ORDER BY rowid ASC LIMIT 1
unfoldable pub get_next_backlog : MessageStorage → MessageStorage × Option StoredMessage
get_next_backlog s =
    if not s.db.is_open
    then (s, none)
    else if next_works s.db
    then (ran s, first_message s.backlog)
    else (ran s, none)

abbrev pub delete_row : ℕ → List BacklogRow → List BacklogRow
delete_row id [] = []
delete_row id (r ∷ rows) = if r.rowid == id then delete_row id rows else r ∷ delete_row id rows

unfoldable pub remove_backlog : MessageStorage → ℕ → MessageStorage × Bool
remove_backlog s id =
    if not s.db.is_open
    then (s, false)
    else if next_works s.db
    then (record (ran s) { backlog = delete_row id s.backlog }, true)
    else (ran s, false)

pub backlog_count : MessageStorage → MessageStorage × ℕ
backlog_count s =
    if not s.db.is_open
    then (s, 0)
    else if next_works s.db
    then (ran s, length s.backlog)
    else (ran s, 0)

pub dead_message_count : MessageStorage → MessageStorage × ℕ
dead_message_count s =
    if not s.db.is_open
    then (s, 0)
    else if next_works s.db
    then (ran s, length s.dead_messages)
    else (ran s, 0)
