-- ===== src/Data/Rows.antt =====
-- The rows of a table as a list: the rows that a condition of a query selects, and what a statement
-- makes of them. A column with a unique index is a key.
use data_middleware.Prelude.{
  ℕ, ◌≤◌, ◌≡◌, refl, Bool, true, List, [], ◌∷◌, ◌++◌, Option, none, some, suc, list_beq,
  list_beq_iff, if◌then◌else◌, arith, Bool-cases, inl, inr,
}

module _ {R : Type 0} where
  abbrev pub find_row : (R → Bool) → List R → Option R
  find_row c [] = none
  find_row c (r ∷ rs) = if c r then some r else find_row c rs

  abbrev pub select : (R → Bool) → List R → List R
  select c [] = []
  select c (r ∷ rs) = if c r then r ∷ select c rs else select c rs

  abbrev pub change : (R → Bool) → (R → R) → List R → List R
  change c f [] = []
  change c f (r ∷ rs) = (if c r then f r else r) ∷ change c f rs

  abbrev pub count : (R → Bool) → List R → ℕ
  count c [] = 0
  count c (r ∷ rs) = if c r then suc (count c rs) else count c rs

  pub find-append :
      (c : R → Bool) (rs : List R) (r : R)
      → find_row c (rs ++ (r ∷ []))
        ≡ elim (find_row c rs) [ some q ↦ some q | none ↦ (if c r then some r else none) ]
  find-append c [] r = refl
  find-append c (q ∷ rs) r = elim (Bool-cases (c q)) [
    | inl y ↦ rw y refl
    | inr n ↦ rw n (find-append c rs r)
  ]

  -- A condition that the change does not touch.
  pub find-change :
      (d c : R → Bool) (f : R → R) (rs : List R)
      → ((r : R) → c r ≡ true → d (f r) ≡ d r)
      → find_row d (change c f rs)
        ≡ elim (find_row d rs) [ some q ↦ some (if c q then f q else q) | none ↦ none ]
  find-change d c f [] h = refl
  find-change d c f (q ∷ rs) h = elim (Bool-cases (c q)) [
    | inl y ↦ elim (Bool-cases (d q)) [
      | inl e ↦ rw (y, h q y, e, y) refl
      | inr n ↦ rw (y, h q y, n) (find-change d c f rs h)
    ]
    | inr n ↦ elim (Bool-cases (d q)) [
      | inl e ↦ rw (n, e, n) refl
      | inr m ↦ rw (n, m) (find-change d c f rs h)
    ]
  ]

  pub find-holds : (c : R → Bool) (rs : List R) (q : R) → find_row c rs ≡ some q → c q ≡ true
  find-holds c [] q e = cc
  find-holds c (r ∷ rs) q e = elim (Bool-cases (c r)) [
    | inl y ↦ let same : r ≡ q = ground arith in rw (← same) y
    | inr n ↦ find-holds c rs q (rw n at e)
  ]

module _ {R : Type 0} (key : R → List ℕ) where
  -- `WHERE key = ?`
  abbrev pub has : List ℕ → R → Bool
  has k r = list_beq (key r) k

  abbrev pub IsUnique : List R → Type 0
  IsUnique [] = Unit
  IsUnique (r ∷ rs) = (find_row (has (key r)) rs ≡ none) × IsUnique rs

  -- A row of the list is the one that its key finds.
  abbrev pub IsAt : List R → R → Type 0
  IsAt rs r = find_row (has (key r)) rs ≡ some r

  abbrev pub AllAt : List R → List R → Type 0
  AllAt ts [] = Unit
  AllAt ts (r ∷ rs) = IsAt ts r × AllAt ts rs

  -- No row has the key, so no condition that asks for it holds anywhere.
  count_none :
      (c : R → Bool) (k : List ℕ) (rs : List R)
      → ((r : R) → c r ≡ true → has k r ≡ true)
      → find_row (has k) rs ≡ none
      → count c rs ≡ 0
  count_none c k [] h e = refl
  count_none c k (r ∷ rs) h e = elim (Bool-cases (c r)) [
    | inl y ↦ let hit = h r y in absurd (let f = rw hit at e in cc)
    | inr n ↦ elim (Bool-cases (has k r)) [
      | inl hit ↦ absurd (let f = rw hit at e in cc)
      | inr miss ↦ rw n (count_none c k rs h (rw miss at e))
    ]
  ]

  -- Where a condition that asks for a key selects a row, it holds of the row with that key.
  pub count_at :
      (c : R → Bool) (k : List ℕ) (rs : List R) (o : R)
      → ((r : R) → c r ≡ true → has k r ≡ true)
      → IsUnique rs
      → find_row (has k) rs ≡ some o
      → 1 ≤ count c rs
      → c o ≡ true
  count_at c k [] o h u e n = absurd (cc)
  count_at c k (r ∷ rs) o h u e n = elim (Bool-cases (has k r)) [
    | inl hit ↦
        let same : r ≡ o = let f = rw hit at e in cc in
        elim (Bool-cases (c r)) [
          | inl y ↦ rw (← same) y
          | inr w ↦
              let keys : key r ≡ k = (list_beq_iff (key r) k).0 hit in
              let zero_left : count c rs ≡ 0 = count_none c k rs h (rw keys at u.0) in
              absurd (let m = rw w at n in omega (arith, zero_left, m))
        ]
    | inr miss ↦ elim (Bool-cases (c r)) [
      | inl y ↦ absurd (let f = h r y in cc)
      | inr w ↦ count_at c k rs o h u.1 (rw miss at e) (rw w at n)
    ]
  ]

  unselected_absent :
      (c : R → Bool) (j : List ℕ) (rs : List R)
      → find_row (has j) rs ≡ none
      → find_row (has j) (select c rs) ≡ none
  unselected_absent c j [] e = refl
  unselected_absent c j (r ∷ rs) e = ground (arith, unselected_absent c j rs)

  pub find-select :
      (c : R → Bool) (j : List ℕ) (rs : List R)
      → IsUnique rs
      → find_row (has j) (select c rs)
        ≡ elim (find_row (has j) rs) [ some r ↦ (if c r then some r else none) | none ↦ none ]
  find-select c j [] u = refl
  find-select c j (r ∷ rs) u = elim (Bool-cases (has j r)) [
    | inl hit ↦
        let keys : key r ≡ j = (list_beq_iff (key r) j).0 hit in
        let gone = unselected_absent c j rs (rw keys at u.0) in
        elim (Bool-cases (c r)) [ inl y ↦ rw (y, hit, y) refl | inr n ↦ rw (n, hit, n) gone ]
    | inr miss ↦ elim (Bool-cases (c r)) [
      | inl y ↦ rw (y, miss) (find-select c j rs u.1)
      | inr n ↦ rw (n, miss) (find-select c j rs u.1)
    ]
  ]

  AllAt-cons :
      (q : R) (ts rs : List R) → find_row (has (key q)) ts ≡ none → AllAt ts rs → AllAt (q ∷ ts) rs
  AllAt-cons q ts [] e h = tt
  AllAt-cons q ts (r ∷ rs) e h = elim (Bool-cases (has (key r) q)) [
    | inl hit ↦
        let keys : key q ≡ key r = (list_beq_iff (key q) (key r)).0 hit in
        let none_there = rw keys at e in absurd (let f = h.0 in cc)
    | inr miss ↦ (rw miss h.0, AllAt-cons q ts rs e h.1)
  ]

  IsUnique-AllAt : (rs : List R) → IsUnique rs → AllAt rs rs
  IsUnique-AllAt [] u = tt
  IsUnique-AllAt (r ∷ rs) u = (
    rw ((list_beq_iff (key r) (key r)).1 refl) refl,
    AllAt-cons r rs rs u.0 (IsUnique-AllAt rs u.1),
  )

  AllAt-select : (c : R → Bool) (ts rs : List R) → AllAt ts rs → AllAt ts (select c rs)
  AllAt-select c ts [] h = tt
  AllAt-select c ts (r ∷ rs) h = elim (Bool-cases (c r)) [
    | inl y ↦ rw y (h.0, AllAt-select c ts rs h.1)
    | inr n ↦ rw n (AllAt-select c ts rs h.1)
  ]

  -- Every row that a query selects is the one at its key.
  pub select-AllAt : (c : R → Bool) (rs : List R) → IsUnique rs → AllAt rs (select c rs)
  select-AllAt c rs u = AllAt-select c rs rs (IsUnique-AllAt rs u)
