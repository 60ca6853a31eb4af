-- ===== src/Business/Items/Outcome.antt =====
-- item_service.go: what a transfer may do to a table, as the rows before and after it.
use data_middleware.Prelude.{
  ℕ, ℤ, pos, ◌+ℤ◌, minus, AtLeast, ◌≡◌, refl, sym, ◌∙◌, ap, true, false, List, [], ◌∷◌, Option,
  none, some, list_beq, list_beq_iff, Bool-cases, inl, inr,
}
use data_middleware.Prelude.IntLaws.{minus-add, minus-exchange}
use data_middleware.Business.Items.{
  Item, with_quantity, AllRows, Puts, ItemError, database, existing_item,
}

-- The quantity that a row holds.
abbrev pub held : Option Item → ℤ
held none = pos 0
held (some o) = o.quantity

-- What a transfer of `q` from the row `id` to `to_user` may do to a table, and its result.
-- `FailsTwice` is the failure of the receiver's statement and of the rollback.
pub data Outcome (row after : List ℕ → Option Item) (FailsTwice : Type 0) (id to_user : List ℕ)
    (q : ℕ) : Option ItemError → Type 0 where
  -- Nothing has changed.
  kept :
      {e : ItemError}
      → ((j : List ℕ) → after j ≡ row j)
      → Outcome row after FailsTwice id to_user q (some e)
  -- The sender's items are gone: neither the receiver nor the rollback has them.
  lost :
      (o : Item)
      → FailsTwice
      → row id ≡ some o
      → Puts row after id (with_quantity (minus o.quantity q) o)
      → Outcome row after FailsTwice id to_user q (some database)
  -- The row `t`, which belongs to the receiver and has the name and the kind of the sender's, has
  -- what the sender has lost.
  moved :
      (o y : Item) (t : List ℕ)
      → row id ≡ some o
      → AtLeast q o.quantity
      → after t ≡ some y
      → (y.user_id ≡ to_user) × (y.name ≡ o.name) × (y.kind ≡ o.kind)
      → held (after id) +ℤ held (after t) ≡ held (row id) +ℤ held (row t)
      → (list_beq id t ≡ false → held (after t) ≡ held (row t) +ℤ pos q)
      → ((j : List ℕ) → list_beq id j ≡ false → list_beq t j ≡ false → after j ≡ row j)
      → Outcome row after FailsTwice id to_user q none

list_beq_refl : (a : List ℕ) → list_beq a a ≡ true
list_beq_refl a = (list_beq_iff a a).1 refl

list_beq_flip : (a b : List ℕ) → list_beq a b ≡ false → list_beq b a ≡ false
list_beq_flip a b e = elim (Bool-cases (list_beq b a)) [
  | inl y ↦
      let q : list_beq a b ≡ true = (list_beq_iff a b).1 (sym ((list_beq_iff b a).0 y)) in
      absurd (cc)
  | inr n ↦ n
]

pub Puts-at :
    (row after : List ℕ → Option Item) (id : List ℕ) (o : Item)
    → Puts row after id o
    → after id ≡ some o
Puts-at row after id o p = p id ∙ rw (list_beq_refl id) refl

pub Puts-else :
    (row after : List ℕ → Option Item) (id j : List ℕ) (o : Item)
    → Puts row after id o
    → list_beq id j ≡ false
    → after j ≡ row j
Puts-else row after id j o p n = p j ∙ rw n refl

-- The sender's row is put first, and then the receiver's.
pub moved-Puts :
    {FailsTwice : Type 0} (row mid after : List ℕ → Option Item) (id to_user t : List ℕ) (q : ℕ)
    (o y : Item)
    → row id ≡ some o
    → AtLeast q o.quantity
    → Puts row mid id (with_quantity (minus o.quantity q) o)
    → Puts mid after t y
    → y.quantity ≡ held (mid t) +ℤ pos q
    → (y.user_id ≡ to_user) × (y.name ≡ o.name) × (y.kind ≡ o.kind)
    → Outcome row after FailsTwice id to_user q none
moved-Puts row mid after id to_user t q o y has enough p r amount who =
    moved o y t has enough (Puts-at mid after t y r) who
      (elim (Bool-cases (list_beq id t)) [
        | inl e ↦
            let k : id ≡ t = (list_beq_iff id t).0 e in
            let m : mid t ≡ some (with_quantity (minus o.quantity q) o) =
              rw (← k) (Puts-at row mid id _ p) in
            let n : held (mid t) ≡ minus o.quantity q = rw m refl in
            let w : held (row id) ≡ o.quantity = rw has refl in
            let z : held (after t) ≡ o.quantity =
              rw (Puts-at mid after t y r)
                (amount ∙ ap (λ x. x +ℤ pos q) n ∙ minus-add o.quantity q) in
            rw (← k) (let z2 : held (after id) ≡ o.quantity = rw k z in rw (z2, w) refl)
        | inr d ↦
            let u : held (after id) ≡ minus o.quantity q =
              rw (Puts-else mid after t id y r (list_beq_flip id t d) ∙ Puts-at row mid id _ p)
                refl in
            let w : held (row id) ≡ o.quantity = rw has refl in
            let z : held (after t) ≡ y.quantity = rw (Puts-at mid after t y r) refl in
            let m : held (mid t) ≡ held (row t) = ap held (Puts-else row mid id t _ p d) in
            rw (u, z, w, amount, m) (minus-exchange o.quantity (held (row t)) q)
      ])
      (λ d.
        let z : held (after t) ≡ y.quantity = rw (Puts-at mid after t y r) refl in
        let m : held (mid t) ≡ held (row t) = ap held (Puts-else row mid id t _ p d) in
        z ∙ amount ∙ ap (λ x. x +ℤ pos q) m)
      (λ j a b. Puts-else mid after t j y r b ∙ Puts-else row mid id j _ p a)

pub existing_item-AllRows :
    (row : List ℕ → Option Item) (user : List ℕ) (o x : Item) (items : List Item)
    → AllRows row user items
    → existing_item o items ≡ some x
    → (row x.item_id ≡ some x) × (x.user_id ≡ user) × (x.name ≡ o.name) × (x.kind ≡ o.kind)
existing_item-AllRows row user o x [] h e = absurd (cc)
existing_item-AllRows row user o x (item ∷ items) (f, g, h) e =
    elim (Bool-cases (list_beq item.name o.name)) [
      | inr d ↦ existing_item-AllRows row user o x items h (rw d at e)
      | inl a ↦ elim (Bool-cases (list_beq item.kind o.kind)) [
        | inr d ↦ existing_item-AllRows row user o x items h (rw (a, d) at e)
        | inl b ↦
            let w : some item ≡ some x = rw (a, b) at e in
            let same : item ≡ x = cc in
            rw (← same)
              (f, g, (list_beq_iff item.name o.name).0 a, (list_beq_iff item.kind o.kind).0 b)
      ]
    ]

-- Two statements on one row make one.
pub Puts-twice :
    (row mid after : List ℕ → Option Item) (id : List ℕ) (o n : Item)
    → Puts row mid id o
    → Puts mid after id n
    → Puts row after id n
Puts-twice row mid after id o n p r j = elim (Bool-cases (list_beq id j)) [
  | inl y ↦ r j ∙ rw y refl
  | inr d ↦ r j ∙ rw d (p j ∙ rw d refl)
]
