-- ===== src/Business/Tests/Items.antt =====
-- ItemService over a table in memory.
use data_middleware.Prelude.{
  ℕ, ◌+ℤ◌, minus, AtLeast, at_least, ◌≡◌, refl, Bool, true, false, ◌&&◌, List, [], ◌∷◌, Option,
  none, some, pos, negsuc, list_beq, list_beq_iff, if◌then◌else◌, ◌∙◌, ap, Bool-cases, inl, inr,
}
use data_middleware.Prelude.IntLaws.{at_least-AtLeast}
use data_middleware.Business.Dao.{answer, Written, done, refused}
use data_middleware.Business.Items.{
  Item, ItemDao, IsItemDao, with_quantity, AllRows, Puts, transfer_item, item_stored,
}
use data_middleware.Business.Items.Batch.{ItemRequest}
use data_middleware.Business.Items.Outcome.{Outcome}
use data_middleware.Business.Items.Transfer.{FailsTwice, transfer_item-Outcome}

-- The rows, and the identifiers that a search by user goes through.
record Table : Type 0 where
  ids : List (List ℕ)
  rows : List ℕ → Option Item

abbrev put : List ℕ → Item → Table → Table
put id o t = record { ids = id ∷ t.ids; rows = λ j. if list_beq id j then some o else t.rows j }

abbrev create_at : Item → Table → Option Item → Table × Written
create_at o t none = (put o.item_id (item_stored o) t, done)
create_at o t (some x) = (t, refused)

abbrev consume_at : List ℕ → ℕ → Table → Option Item → Table × Written
consume_at id n t none = (t, refused)
consume_at id n t (some o) =
    if at_least n o.quantity
    then (put id (with_quantity (minus o.quantity n) o) t, done)
    else (t, refused)

abbrev add_at : List ℕ → ℕ → Table → Option Item → Table × Written
add_at id n t none = (t, done)
add_at id n t (some o) = (put id (with_quantity (o.quantity +ℤ pos n) o) t, done)

abbrev is_listed : List ℕ → List ℕ → List ℕ → Item → Bool
is_listed user game id o =
    list_beq o.item_id id && list_beq o.user_id user && list_beq o.game_id game

abbrev list_one : List ℕ → List ℕ → List ℕ → Option Item → List Item → List Item
list_one user game id none items = items
list_one user game id (some o) items = if is_listed user game id o then o ∷ items else items

abbrev items_of : List ℕ → List ℕ → (List ℕ → Option Item) → List (List ℕ) → List Item
items_of user game rows [] = []
items_of user game rows (id ∷ ids) = list_one user game id (rows id) (items_of user game rows ids)

abbrev table_dao : ItemDao Table
table_dao = record {
  create_item = λ o t. create_at o t (t.rows o.item_id);
  get_item_by_id = λ id t. answer (t.rows id);
  get_user_items = λ user game t. answer (items_of user game t.rows t.ids);
  consume_item = λ id n t. consume_at id n t (t.rows id);
  add_item_quantity = λ id n t. add_at id n t (t.rows id);
}

list_one-AllRows :
    (user game id : List ℕ) (rows : List ℕ → Option Item) (r : Option Item) (items : List Item)
    → rows id ≡ r
    → AllRows rows user items
    → AllRows rows user (list_one user game id r items)
list_one-AllRows user game id rows none items e h = h
list_one-AllRows user game id rows (some o) items e h = elim (Bool-cases (list_beq o.item_id id)) [
  | inr n ↦ rw n h
  | inl y ↦ elim (Bool-cases (list_beq o.user_id user)) [
    | inr n ↦ rw (y, n) h
    | inl z ↦ elim (Bool-cases (list_beq o.game_id game)) [
      | inr n ↦ rw (y, z, n) h
      | inl w ↦
          rw (y, z, w)
            (ap rows ((list_beq_iff o.item_id id).0 y) ∙ e, (list_beq_iff o.user_id user).0 z, h)
    ]
  ]
]

items_of-AllRows :
    (user game : List ℕ) (rows : List ℕ → Option Item) (ids : List (List ℕ))
    → AllRows rows user (items_of user game rows ids)
items_of-AllRows user game rows [] = tt
items_of-AllRows user game rows (id ∷ ids) =
    list_one-AllRows user game id rows (rows id) (items_of user game rows ids) refl
      (items_of-AllRows user game rows ids)

create_done :
    (o : Item) (t : Table) (r : Option Item)
    → (create_at o t r).1 ≡ done
    → (r ≡ none) × Puts t.rows (create_at o t r).0.rows o.item_id (item_stored o)
create_done o t none e = (refl, λ j. refl)
create_done o t (some x) e = absurd (cc)

consume_done :
    (id : List ℕ) (n : ℕ) (t : Table) (o : Item) (r : Option Item)
    → (consume_at id n t r).1 ≡ done
    → r ≡ some o
    → AtLeast n o.quantity
      × Puts t.rows (consume_at id n t r).0.rows id (with_quantity (minus o.quantity n) o)
consume_done id n t o none e f = absurd (cc)
consume_done id n t o (some x) e f =
    let same : x ≡ o = cc in
    elim (Bool-cases (at_least n x.quantity)) [
      | inr d ↦ let z : refused ≡ done = rw d at e in absurd (cc)
      | inl y ↦ rw (← same) (at_least-AtLeast n x.quantity y, rw y (λ j. refl))
    ]

add_done :
    (id : List ℕ) (n : ℕ) (t : Table) (o : Item) (r : Option Item)
    → r ≡ some o
    → Puts t.rows (add_at id n t r).0.rows id (with_quantity (o.quantity +ℤ pos n) o)
add_done id n t o none f = absurd (cc)
add_done id n t o (some x) f = let same : x ≡ o = cc in rw (← same) (λ j. refl)

create_refused :
    (o : Item) (t : Table) (j : List ℕ) (r : Option Item)
    → (create_at o t r).1 ≡ refused
    → (create_at o t r).0.rows j ≡ t.rows j
create_refused o t j none e = absurd (cc)
create_refused o t j (some x) e = refl

consume_refused :
    (id : List ℕ) (n : ℕ) (t : Table) (j : List ℕ) (r : Option Item)
    → (consume_at id n t r).1 ≡ refused
    → (consume_at id n t r).0.rows j ≡ t.rows j
consume_refused id n t j none e = refl
consume_refused id n t j (some x) e = elim (Bool-cases (at_least n x.quantity)) [
  | inr d ↦ rw d refl
  | inl y ↦ let z : done ≡ refused = rw y at e in absurd (cc)
]

add_refused :
    (id : List ℕ) (n : ℕ) (t : Table) (j : List ℕ) (r : Option Item)
    → (add_at id n t r).1 ≡ refused
    → (add_at id n t r).0.rows j ≡ t.rows j
add_refused id n t j none e = refl
add_refused id n t j (some x) e = absurd (cc)

answered : {A : Type 0} (a b : A) → answer a ≡ answer b → a ≡ b
answered a b e = cc

table_dao-IsItemDao : IsItemDao table_dao (λ t. t.rows)
table_dao-IsItemDao = record {
  get_answer = λ id t o e. answered (t.rows id) o e;
  get_user_answer = λ user game t items e.
      let same : items_of user game t.rows t.ids ≡ items = answered _ _ e in
      rw (← same) (items_of-AllRows user game t.rows t.ids);
  create_done = λ o t e. create_done o t (t.rows o.item_id) e;
  consume_done = λ id n t o e f. consume_done id n t o (t.rows id) e f;
  add_done = λ id n t o e f. add_done id n t o (t.rows id) f;
  create_refused = λ o t j e. create_refused o t j (t.rows o.item_id) e;
  consume_refused = λ id n t j e. consume_refused id n t j (t.rows id) e;
  add_refused = λ id n t j e. add_refused id n t j (t.rows id) e;
}

abbrev sword : Item
sword = record {
  item_id = 1 ∷ [];
  user_id = 10 ∷ [];
  game_id = 3 ∷ [];
  name = 4 ∷ [];
  kind = 5 ∷ [];
  category = [];
  rarity = [];
  quantity = pos 7;
  max_quantity = negsuc 0;
  is_bound = false;
  is_tradable = true;
  expire_at = none;
  description = [];
  icon_url = [];
}

abbrev items : Table
items = put (1 ∷ []) sword (record { ids = []; rows = λ j. none })

transfer_item-Outcome_example :
    Outcome items.rows
      (transfer_item table_dao (1 ∷ []) (10 ∷ []) (20 ∷ []) (2 ∷ []) (pos 3) items).0.rows
      (FailsTwice table_dao
        (1 ∷ [])
        (20 ∷ [])
        (2 ∷ [])
        3
        items
        (transfer_item table_dao (1 ∷ []) (10 ∷ []) (20 ∷ []) (2 ∷ []) (pos 3) items).0)
      (1 ∷ [])
      (20 ∷ [])
      3
      (transfer_item table_dao (1 ∷ []) (10 ∷ []) (20 ∷ []) (2 ∷ []) (pos 3) items).1
transfer_item-Outcome_example =
    transfer_item-Outcome table_dao (λ t. t.rows) table_dao-IsItemDao (1 ∷ []) (10 ∷ []) (20 ∷ [])
      (2 ∷ []) 2 items

-- The second request has the identifier of the sword.
abbrev requests : List ItemRequest
requests =
    record { new_id = 2 ∷ []; name = 4 ∷ []; kind = 5 ∷ []; category = []; quantity = negsuc 2 }
    ∷ record { new_id = 1 ∷ []; name = 6 ∷ []; kind = 5 ∷ []; category = []; quantity = pos 0 }
    ∷ []
