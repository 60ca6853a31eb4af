-- ===== src/Data/Tests/OneRow.antt =====
-- A table with room for one row, which meets what is asked of a table.
use data_middleware.Prelude.{
  ℕ, ◌≤◌, ◌≡◌, refl, sym, ap, ◌++◌, Bool, not, List, [], ◌∷◌, Option, none, some, if◌then◌else◌,
  Bool-cases, inl, inr, arith,
}
use data_middleware.Business.Dao.{Queried, answer, unavailable, Written, done, refused}
use data_middleware.Data.Rows.{find_row, select, change, count, has, IsUnique}
use data_middleware.Data.Table.{Table, IsTable, Affected, rows_affected, statement_failed}

module _ {R : Type 0} where
  abbrev pub rows_of : Option R → List R
  rows_of none = []
  rows_of (some r) = r ∷ []

  abbrev pub create_one : R → Option R → Option R × Written
  create_one r none = (some r, done)
  create_one r (some q) = (some q, refused)

  abbrev pub first_one : (R → Bool) → Option R → Queried (Option R)
  first_one c none = answer none
  first_one c (some q) = answer (if c q then some q else none)

  abbrev pub updates_one : (R → Bool) → (R → R) → Option R → Option R × Affected
  updates_one c f none = (none, rows_affected 0)
  updates_one c f (some q) =
      if c q then (some (f q), rows_affected 1) else (some q, rows_affected 0)

  abbrev pub delete_one : (R → Bool) → Option R → Option R × Affected
  delete_one c none = (none, rows_affected 0)
  delete_one c (some q) = if c q then (none, rows_affected 1) else (some q, rows_affected 0)

module _ {R : Type 0} (key : R → List ℕ) where
  abbrev pub save_one : R → Option R → Option R × Written
  save_one r none = (none, refused)
  save_one r (some q) = if has key (key r) q then (some r, done) else (some q, refused)

  abbrev pub one_row : Table R (Option R)
  one_row = record {
    create = create_one;
    save = save_one;
    first = first_one;
    find = λ c s. answer (select c (rows_of s));
    updates = updates_one;
    delete = delete_one;
  }

module _ {R : Type 0} (key : R → List ℕ) (conflict : R → R → Bool) where
  created :
      (r : R) (s : Option R)
      → (create_one r s).1 ≡ done
      → (find_row (conflict r) (rows_of s) ≡ none)
        × (rows_of (create_one r s).0 ≡ rows_of s ++ (r ∷ []))
  created r none e = (refl, refl)
  created r (some q) e = absurd (cc)

  not_created :
      (r : R) (s : Option R) → (create_one r s).1 ≡ refused → rows_of (create_one r s).0 ≡ rows_of s
  not_created r none e = absurd (cc)
  not_created r (some q) e = refl

  saved :
      (r q : R) (s : Option R)
      → (save_one key r s).1 ≡ done
      → find_row (has key (key r)) (rows_of s) ≡ some q
      → rows_of (save_one key r s).0 ≡ change (has key (key r)) (λ (_ : R). r) (rows_of s)
  saved r q none e there = absurd (cc)
  saved r q (some p) e there = elim (Bool-cases (has key (key r) p)) [
    | inl y ↦ rw y refl
    | inr n ↦ absurd (let f = rw n at there in cc)
  ]

  not_saved :
      (r : R) (s : Option R)
      → (save_one key r s).1 ≡ refused
      → rows_of (save_one key r s).0 ≡ rows_of s
  not_saved r none e = refl
  not_saved r (some p) e = elim (Bool-cases (has key (key r) p)) [
    | inl y ↦ absurd (let f = rw y at e in cc)
    | inr n ↦ rw n refl
  ]

  firsts :
      (c : R → Bool) (s : Option R) (o : Option R)
      → first_one c s ≡ answer o
      → find_row c (rows_of s) ≡ o
  firsts c none o e = ap value e
    where
      value : Queried (Option R) → Option R
      value (answer x) = x
      value unavailable = none
  firsts c (some q) o e = ap value e
    where
      value : Queried (Option R) → Option R
      value (answer x) = x
      value unavailable = none

  finds :
      (c : R → Bool) (s : Option R) (rs : List R)
      → ◌≡◌ {A = Queried (List R)} (answer (select c (rows_of s))) (answer rs)
      → select c (rows_of s) ≡ rs
  finds c s rs e = ap value e
    where
      value : Queried (List R) → List R
      value (answer x) = x
      value unavailable = []

  affected :
      (c : R → Bool) (f : R → R) (n : ℕ) (s : Option R)
      → (updates_one c f s).1 ≡ rows_affected n
      → (n ≤ count c (rows_of s)) × (rows_of (updates_one c f s).0 ≡ change c f (rows_of s))
  affected c f n none e = let z : n ≡ 0 = ap amount (sym e) in (omega (arith, z), refl)
    where
      amount : Affected → ℕ
      amount (rows_affected k) = k
      amount statement_failed = 0
  affected c f n (some q) e = elim (Bool-cases (c q)) [
    | inl y ↦ let z : n ≡ 1 = ap amount (sym (rw y at e)) in rw y (omega (arith, z), refl)
    | inr w ↦ let z : n ≡ 0 = ap amount (sym (rw w at e)) in rw w (omega (arith, z), refl)
  ]
    where
      amount : Affected → ℕ
      amount (rows_affected k) = k
      amount statement_failed = 0

  none_affected :
      (c : R → Bool) (f : R → R) (s : Option R)
      → (updates_one c f s).1 ≡ rows_affected 0
      → rows_of (updates_one c f s).0 ≡ rows_of s
  none_affected c f none e = refl
  none_affected c f (some q) e = elim (Bool-cases (c q)) [
    | inl y ↦ absurd (let f = rw y at e in cc)
    | inr w ↦ rw w refl
  ]

  not_failed :
      (c : R → Bool) (f : R → R) (s : Option R) → (updates_one c f s).1 ≡ statement_failed → ⊥
  not_failed c f none e = cc
  not_failed c f (some q) e = elim (Bool-cases (c q)) [
    | inl y ↦ let g = rw y at e in cc
    | inr w ↦ let g = rw w at e in cc
  ]

  deleted :
      (c : R → Bool) (s : Option R)
      → rows_of (delete_one c s).0 ≡ select (λ r. not (c r)) (rows_of s)
  deleted c none = refl
  deleted c (some q) = elim (Bool-cases (c q)) [ inl y ↦ rw y refl | inr n ↦ rw n refl ]

  delete_works : (c : R → Bool) (s : Option R) → (delete_one c s).1 ≡ statement_failed → ⊥
  delete_works c none e = cc
  delete_works c (some q) e = elim (Bool-cases (c q)) [
    | inl y ↦ let g = rw y at e in cc
    | inr w ↦ let g = rw w at e in cc
  ]

  uniques : (s : Option R) → IsUnique key (rows_of s)
  uniques none = tt
  uniques (some q) = (refl, tt)

  pub one_row-IsTable : IsTable (one_row key) rows_of key conflict
  one_row-IsTable = record {
    unique = uniques;
    create_done = created;
    create_refused = not_created;
    save_done = saved;
    save_refused = not_saved;
    first_answer = firsts;
    find_answer = finds;
    updates_done = affected;
    updates_none = none_affected;
    updates_failed = λ c f s e. absurd (not_failed c f s e);
    delete_done = λ c n s e. deleted c s;
    delete_failed = λ c s e. absurd (delete_works c s e);
  }
