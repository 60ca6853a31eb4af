-- ===== src/Data/Table.antt =====
-- What daoImpl uses of gorm: a table with rows of one type, queries and statements by a condition.
-- The clauses of a query (Model, Where, Offset, Limit, Order) are its arguments. A query goes to
-- a replica and a statement to the master, which Database chooses.
pub mod Keyed
use data_middleware.Prelude.{
  ℕ, ◌≤◌, ◌≡◌, Bool, not, List, [], ◌∷◌, ◌++◌, Option, none, some, zero, suc,
}
use data_middleware.Business.Dao.{Queried, answer, unavailable, Written, done, refused}
use data_middleware.Data.Rows.{find_row, select, change, count, has, IsUnique}

-- `RowsAffected`, or the error of a statement.
pub data Affected : Type 0 where
  rows_affected : ℕ → Affected
  statement_failed : Affected

pub record Table (R S : Type 0) : Type 0 where
  pub create : R → S → S × Written
  pub save : R → S → S × Written
  pub first : (R → Bool) → S → Queried (Option R)
  pub find : (R → Bool) → S → Queried (List R)
  pub updates : (R → Bool) → (R → R) → S → S × Affected
  pub delete : (R → Bool) → S → S × Affected

-- What the documentation of gorm and of the database says of a table whose rows are `rows s`:
-- the row that is created is the one given once gorm has given its zero fields the defaults of their
-- columns (`create` is given such rows: the services set those fields of a player and of a session,
-- and `item_stored` and `order_stored` set them), a unique index is kept, a statement that reports an error changed nothing, and a replica
-- has no lag. `conflict r` holds of the rows that keep `r` out. RowsAffected counts the rows that a
-- statement changed, which are rows that it selected.
pub record IsTable {R S : Type 0} (t : Table R S) (rows : S → List R) (key : R → List ℕ)
    (conflict : R → R → Bool) : Type 0 where
  pub unique : (s : S) → IsUnique key (rows s)
  pub create_done :
      (r : R) (s : S)
      → (t.create r s).1 ≡ done
      → (find_row (conflict r) (rows s) ≡ none) × (rows (t.create r s).0 ≡ rows s ++ (r ∷ []))
  pub create_refused : (r : R) (s : S) → (t.create r s).1 ≡ refused → rows (t.create r s).0 ≡ rows s
  pub save_done :
      (r q : R) (s : S)
      → (t.save r s).1 ≡ done
      → find_row (has key (key r)) (rows s) ≡ some q
      → rows (t.save r s).0 ≡ change (has key (key r)) (λ (_ : R). r) (rows s)
  pub save_refused : (r : R) (s : S) → (t.save r s).1 ≡ refused → rows (t.save r s).0 ≡ rows s
  pub first_answer :
      (c : R → Bool) (s : S) (o : Option R) → t.first c s ≡ answer o → find_row c (rows s) ≡ o
  pub find_answer :
      (c : R → Bool) (s : S) (rs : List R) → t.find c s ≡ answer rs → select c (rows s) ≡ rs
  pub updates_done :
      (c : R → Bool) (f : R → R) (n : ℕ) (s : S)
      → (t.updates c f s).1 ≡ rows_affected n
      → (n ≤ count c (rows s)) × (rows (t.updates c f s).0 ≡ change c f (rows s))
  pub updates_none :
      (c : R → Bool) (f : R → R) (s : S)
      → (t.updates c f s).1 ≡ rows_affected 0
      → rows (t.updates c f s).0 ≡ rows s
  pub updates_failed :
      (c : R → Bool) (f : R → R) (s : S)
      → (t.updates c f s).1 ≡ statement_failed
      → rows (t.updates c f s).0 ≡ rows s
  pub delete_done :
      (c : R → Bool) (n : ℕ) (s : S)
      → (t.delete c s).1 ≡ rows_affected n
      → rows (t.delete c s).0 ≡ select (λ r. not (c r)) (rows s)
  pub delete_failed :
      (c : R → Bool) (s : S) → (t.delete c s).1 ≡ statement_failed → rows (t.delete c s).0 ≡ rows s

-- `if result.Error != nil { return result.Error }` after a statement whose count is only logged
abbrev pub completed : Affected → Written
completed (rows_affected n) = done
completed statement_failed = refused

-- After a statement that has to change a row.
abbrev pub some_affected : Affected → Written
some_affected (rows_affected zero) = refused
some_affected (rows_affected (suc n)) = done
some_affected statement_failed = refused

abbrev pub ending : {S : Type 0} → (Affected → Written) → S × Affected → S × Written
ending f (s, a) = (s, f a)
