-- ===== src/Data/Table/Keyed.antt =====
-- The rows at a key after each statement on a table.
use data_middleware.Prelude.{
  ℕ, ◌≡◌, ◌⊎◌, refl, sym, ap, ◌∙◌, Bool, true, false, List, [], ◌∷◌, ◌++◌, none, some, list_beq,
  list_beq_iff, if◌then◌else◌, Bool-cases, inl, inr, suc, zero, Option-cases,
}
use data_middleware.Business.Dao.{done, refused}
use data_middleware.Data.Rows.{find_row, change, has, find-append, find-change, find-holds}
use data_middleware.Data.Table.{
  Table, IsTable, Affected, rows_affected, statement_failed, completed, some_affected,
}

pub completed-done : (a : Affected) → completed a ≡ done → (n : ℕ) × (a ≡ rows_affected n)
completed-done (rows_affected n) e = (n, refl)
completed-done statement_failed e = absurd (cc)

pub completed-refused : (a : Affected) → completed a ≡ refused → a ≡ statement_failed
completed-refused (rows_affected n) e = absurd (cc)
completed-refused statement_failed e = refl

pub some_affected-done :
    (a : Affected) → some_affected a ≡ done → (n : ℕ) × (a ≡ rows_affected (suc n))
some_affected-done (rows_affected zero) e = absurd (cc)
some_affected-done (rows_affected (suc n)) e = (n, refl)
some_affected-done statement_failed e = absurd (cc)

-- Where a statement had to change a row and is refused, it changed none.
pub some_affected-refused :
    (a : Affected) → some_affected a ≡ refused → (a ≡ rows_affected 0) ⊎ (a ≡ statement_failed)
some_affected-refused (rows_affected zero) e = inl refl
some_affected-refused (rows_affected (suc n)) e = absurd (cc)
some_affected-refused statement_failed e = inr refl

module _ {R : Type 0} (key : R → List ℕ) where
  pub find-put :
      (rs : List R) (r : R) (j : List ℕ)
      → find_row (has key (key r)) rs ≡ none
      → find_row (has key j) (rs ++ (r ∷ []))
        ≡ (if list_beq (key r) j then some r else find_row (has key j) rs)
  find-put rs r j free = find-append (has key j) rs r ∙ elim (Bool-cases (list_beq (key r) j)) [
    | inl hit ↦
        let keys : key r ≡ j = (list_beq_iff (key r) j).0 hit in
        let has_it : has key j r ≡ true = hit in
        let gone = rw keys at free in rw (gone, has_it) refl
    | inr miss ↦
        let has_not : has key j r ≡ false = miss in
        rw has_not (elim (Option-cases (find_row (has key j) rs)) [
          | inl e ↦ rw (e, has_not) refl
          | inr (q, e) ↦ rw e refl
        ])
  ]

  -- A row at another key.
  pub other_key :
      (r : R) (k j : List ℕ) → has key j r ≡ true → list_beq k j ≡ false → has key k r ≡ false
  other_key r k j at_j miss = elim (Bool-cases (has key k r)) [
    | inl y ↦
        let keys : key r ≡ k = (list_beq_iff (key r) k).0 y in
        let also : key r ≡ j = (list_beq_iff (key r) j).0 at_j in
        let same : k ≡ j = cc in absurd (let hit = (list_beq_iff k j).1 same in cc)
    | inr n ↦ n
  ]

  -- A change of the rows at one key spares the others, also where a condition narrows it.
  pub find-change_other :
      (rs : List R) (c : R → Bool) (f : R → R) (k j : List ℕ)
      → ((r : R) → c r ≡ true → has key j (f r) ≡ has key j r)
      → ((r : R) → has key k r ≡ false → c r ≡ false)
      → list_beq k j ≡ false
      → find_row (has key j) (change c f rs) ≡ find_row (has key j) rs
  find-change_other rs c f k j keeps narrow miss =
      find-change (has key j) c f rs keeps ∙ elim (Option-cases (find_row (has key j) rs)) [
        | inl n ↦ rw n refl
        | inr (r, n) ↦
            let off = narrow r (other_key r k j (find-holds (has key j) rs r n) miss) in
            rw (n, off) refl
      ]

  -- A change of the row at one key.
  pub find-change_at :
      (rs : List R) (q : R) (c : R → Bool) (f : R → R) (k j : List ℕ)
      → ((i : List ℕ) (r : R) → c r ≡ true → has key i (f r) ≡ has key i r)
      → ((r : R) → has key k r ≡ false → c r ≡ false)
      → find_row (has key k) rs ≡ some q
      → c q ≡ true
      → find_row (has key j) (change c f rs)
        ≡ (if list_beq k j then some (f q) else find_row (has key j) rs)
  find-change_at rs q c f k j keeps narrow e holds = elim (Bool-cases (list_beq k j)) [
    | inl hit ↦
        let keys : k ≡ j = (list_beq_iff k j).0 hit in
        let there = rw keys at e in
        find-change (has key j) c f rs (keeps j) ∙ rw (hit, there, holds) refl
    | inr miss ↦ rw miss (find-change_other rs c f k j (keeps j) narrow miss)
  ]

module _ {R S : Type 0} (t : Table R S) (rows : S → List R) (key : R → List ℕ)
    (conflict : R → R → Bool) (h : IsTable t rows key conflict) where
  -- `WHERE key = k` with more conditions, whether the statement succeeds or not.
  pub updates_other :
      (c : R → Bool) (f : R → R) (k j : List ℕ) (s : S)
      → ((r : R) → c r ≡ true → has key j (f r) ≡ has key j r)
      → ((r : R) → has key k r ≡ false → c r ≡ false)
      → list_beq k j ≡ false
      → find_row (has key j) (rows (t.updates c f s).0) ≡ find_row (has key j) (rows s)
  updates_other c f k j s keeps narrow miss = by_affected (t.updates c f s).1 refl
    where
      by_affected :
          (a : Affected)
          → (t.updates c f s).1 ≡ a
          → find_row (has key j) (rows (t.updates c f s).0) ≡ find_row (has key j) (rows s)
      by_affected (rows_affected n) e =
          ap (find_row (has key j)) (h.updates_done c f n s e).1
          ∙ find-change_other key (rows s) c f k j keeps narrow miss
      by_affected statement_failed e = ap (find_row (has key j)) (h.updates_failed c f s e)

  pub updates_at :
      (c : R → Bool) (f : R → R) (k j : List ℕ) (s : S) (q : R) (n : ℕ)
      → ((i : List ℕ) (r : R) → c r ≡ true → has key i (f r) ≡ has key i r)
      → ((r : R) → has key k r ≡ false → c r ≡ false)
      → (t.updates c f s).1 ≡ rows_affected n
      → find_row (has key k) (rows s) ≡ some q
      → c q ≡ true
      → find_row (has key j) (rows (t.updates c f s).0)
        ≡ (if list_beq k j then some (f q) else find_row (has key j) (rows s))
  updates_at c f k j s q n keeps narrow e there holds =
      ap (find_row (has key j)) (h.updates_done c f n s e).1
      ∙ find-change_at key (rows s) q c f k j keeps narrow there holds

  pub save_at :
      (r q : R) (j : List ℕ) (s : S)
      → (t.save r s).1 ≡ done
      → find_row (has key (key r)) (rows s) ≡ some q
      → find_row (has key j) (rows (t.save r s).0)
        ≡ (if list_beq (key r) j then some r else find_row (has key j) (rows s))
  save_at r q j s e there =
      ap (find_row (has key j)) (h.save_done r q s e there)
      ∙ find-change_at key (rows s) q (has key (key r)) (λ (_ : R). r) (key r) j
          (λ i x y. ap (λ (k : List ℕ). list_beq k i) (sym ((list_beq_iff (key x) (key r)).0 y)))
          (λ x n. n) there (find-holds (has key (key r)) (rows s) q there)
