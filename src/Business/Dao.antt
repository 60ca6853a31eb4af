-- ===== src/Business/Dao.antt =====
-- What the methods of the interface DAO (internal/data/dao/dao.go) return: the answer of a query
-- or its error, and the error of a statement.
use data_middleware.Prelude.{◌≡◌, refl, ◌⊎◌, inl, inr}

pub data Queried (A : Type 0) : Type 0 where
  answer : A → Queried A
  unavailable : Queried A

pub data Written : Type 0 where
  done refused : Written

pub Written-cases : (w : Written) → (w ≡ done) ⊎ (w ≡ refused)
Written-cases done = inl refl
Written-cases refused = inr refl
