-- ===== src/Sqlite.antt =====
-- SQLite, the database library under the message storage and the user cache: whether the n-th
-- statement that a connection runs is done (sqlite3_prepare_v2 and sqlite3_step) is a parameter.
use fuelflux.Base.{ℕ, ◌+◌, Bool}

pub record Connection : Type 0 where
  pub is_open : Bool
  pub works : ℕ → Bool
  pub executed : ℕ

-- Whether the next statement is done.
abbrev pub next_works : Connection → Bool
next_works c = c.works c.executed

-- The connection after one more statement.
abbrev pub executed_one : Connection → Connection
executed_one c = record c { executed = c.executed + 1 }
