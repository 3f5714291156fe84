-- ===== src/Storage/Laws.antt =====
-- The backlog is a queue: rows keep ascending rowids, and come back in the order of insertion.
use fuelflux.Base.{
  ℕ, ◌≤◌, ◌<◌, ◌≡◌, refl, true, ◌==◌, Bool-cases, inl, inr, List, [], ◌∷◌, ◌++◌, some, arith, Text,
  suc,
}
use fuelflux.Types.{UserId}
use fuelflux.Storage.{
  MessageMethod, refuel, intake, BacklogRow, MessageStorage, method_to_string, method_from_string,
  next_rowid, new_row, add_backlog, delete_row, remove_backlog,
}

-- The text of a method is read back as that method.
pub method_from_string-to_string :
    (m : MessageMethod) → method_from_string (method_to_string m) ≡ some m
unfolding method_from_string method_to_string
method_from_string-to_string refuel = refl
method_from_string-to_string intake = refl

-- The rowids ascend, and lie above a bound.
abbrev pub Ascending : ℕ → List BacklogRow → Type 0
Ascending n [] = Unit {0}
Ascending n (r ∷ rows) = (n ≤ r.rowid) × Ascending (suc r.rowid) rows

le-next_rowid :
    (n : ℕ) (r : BacklogRow) (rows : List BacklogRow)
    → Ascending n (r ∷ rows)
    → suc n ≤ next_rowid (r ∷ rows)
le-next_rowid n r [] a = omega arith
le-next_rowid n r (x ∷ rows) a = omega (arith, le-next_rowid (suc r.rowid) x rows a.1)

Ascending-append :
    (n : ℕ) (rows : List BacklogRow) (r : BacklogRow)
    → Ascending n rows
    → n ≤ r.rowid
    → next_rowid rows ≤ r.rowid
    → Ascending n (rows ++ r ∷ [])
Ascending-append n [] r a h k = (h, tt)
Ascending-append n (x ∷ []) r a h k = (a.0, (k, tt))
Ascending-append n (x ∷ y ∷ rows) r a h k = (
  a.0,
  Ascending-append (suc x.rowid) (y ∷ rows) r a.1
      (omega (arith, le-next_rowid (suc x.rowid) y rows a.1)) k,
)

pub delete_row_below :
    (n id : ℕ) (rows : List BacklogRow) → Ascending n rows → id < n → delete_row id rows ≡ rows
delete_row_below n id [] a h = refl
delete_row_below n id (r ∷ rows) a h = ground (arith, delete_row_below (suc r.rowid) id rows a.1)

pub Ascending-mono :
    (m n : ℕ) (rows : List BacklogRow) → m ≤ n → Ascending n rows → Ascending m rows
Ascending-mono m n [] h a = tt
Ascending-mono m n (r ∷ rows) h a = (omega arith, a.1)

delete_row-Ascending :
    (n id : ℕ) (rows : List BacklogRow) → Ascending n rows → Ascending n (delete_row id rows)
delete_row-Ascending n id [] a = tt
delete_row-Ascending n id (r ∷ rows) a = elim (Bool-cases (r.rowid == id)) [
  | inl hit ↦ rw hit (
      Ascending-mono n (suc r.rowid) _ (omega arith)
        (delete_row-Ascending (suc r.rowid) id rows a.1))
  | inr miss ↦ rw miss (a.0, delete_row-Ascending (suc r.rowid) id rows a.1)
]

-- Rowids ascend from 1.
abbrev pub IsValid : MessageStorage → Type 0
IsValid s = Ascending 1 s.backlog

one-le-next_rowid : (rows : List BacklogRow) → 1 ≤ next_rowid rows
one-le-next_rowid [] = omega arith
one-le-next_rowid (r ∷ []) = omega arith
one-le-next_rowid (r ∷ x ∷ rows) = one-le-next_rowid (x ∷ rows)

-- A report that is added keeps the rowids ascending, whether the statement is done or not.
pub add_backlog-IsValid :
    (s : MessageStorage) (uid : UserId) (m : MessageMethod) (payload : Text)
    → IsValid s
    → IsValid (add_backlog s uid m payload).0
unfolding add_backlog
add_backlog-IsValid s uid m payload v = ground (
  arith,
  Ascending-append 1 s.backlog (new_row s uid m payload) v (one-le-next_rowid s.backlog)
      (omega arith),
)

-- A removal keeps the rowids ascending, whatever the id and whether the statement is done or not.
pub remove_backlog-IsValid :
    (s : MessageStorage) (id : ℕ) → IsValid s → IsValid (remove_backlog s id).0
unfolding remove_backlog
remove_backlog-IsValid s id v = ground (arith, delete_row-Ascending 1 id s.backlog v)

-- The report that a row holds, without its rowid.
abbrev pub Report : Type 0
Report = UserId × Text × Text

abbrev pub reports : List BacklogRow → List Report
reports [] = []
reports (r ∷ rows) = (r.uid, r.method, r.payload) ∷ reports rows

reports-append : (xs ys : List BacklogRow) → reports (xs ++ ys) ≡ reports xs ++ reports ys
reports-append [] ys = refl
reports-append (x ∷ xs) ys = rw (reports-append xs ys)

-- A report whose statement was done stands at the end of the queue, after all the others.
pub reports-add_backlog :
    (s : MessageStorage) (uid : UserId) (m : MessageMethod) (payload : Text)
    → (add_backlog s uid m payload).1 ≡ true
    → reports (add_backlog s uid m payload).0.backlog
      ≡ reports s.backlog ++ (uid, method_to_string m, payload) ∷ []
unfolding add_backlog
reports-add_backlog s uid m payload h =
    ground (arith, reports-append s.backlog (new_row s uid m payload ∷ []))

-- The row at the front, and the others.
pub remove_front :
    (s : MessageStorage) (r : BacklogRow) (rows : List BacklogRow)
    → IsValid s
    → s.backlog ≡ r ∷ rows
    → (remove_backlog s r.rowid).1 ≡ true
    → (remove_backlog s r.rowid).0.backlog ≡ rows
unfolding remove_backlog
remove_front s r rows v e h = ground (arith, delete_row_below (suc r.rowid) r.rowid rows)
