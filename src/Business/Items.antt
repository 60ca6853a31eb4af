-- ===== src/Business/Items.antt =====
-- internal/business/common/item_service.go: ItemService, over the item methods of the interface
-- DAO (internal/data/dao/dao.go). The identifier that a new item draws from the clock is an
-- argument. A statement that takes a quantity out of int64 is one that the database refuses. The fields that
-- gorm fills in itself are left out, and the extra data, which the service does not touch.
pub mod Outcome
pub mod Transfer
pub mod Batch
pub mod Editing
use data_middleware.Prelude.{
  ℕ, ◌≡◌, Bool, true, false, not, ◌&&◌, ◌||◌, List, [], ◌∷◌, ◌++◌, Option, none, some, ℤ, pos,
  negsuc, minus, AtLeast, at_least, ◌+ℤ◌, list_beq, if◌then◌else◌, zero, suc,
}
use data_middleware.Business.Dao.{Queried, answer, unavailable, Written, done, refused}

pub record Item : Type 0 where
  pub item_id : List ℕ
  pub user_id : List ℕ
  pub game_id : List ℕ
  pub name : List ℕ
  pub kind : List ℕ
  pub category : List ℕ
  pub rarity : List ℕ
  pub quantity : ℤ
  pub max_quantity : ℤ
  pub is_bound : Bool
  pub is_tradable : Bool
  pub expire_at : Option ℕ
  pub description : List ℕ
  pub icon_url : List ℕ

pub record ItemDao (S : Type 0) : Type 0 where
  pub create_item : Item → S → S × Written
  pub get_item_by_id : List ℕ → S → Queried (Option Item)
  pub get_user_items : List ℕ → List ℕ → S → Queried (List Item)
  pub consume_item : List ℕ → ℕ → S → S × Written
  pub add_item_quantity : List ℕ → ℕ → S → S × Written

-- `common`
abbrev pub common : List ℕ
common = 99 ∷ 111 ∷ 109 ∷ 109 ∷ 111 ∷ 110 ∷ []

abbrev or_text : List ℕ → List ℕ → List ℕ
or_text d [] = d
or_text d (c ∷ cs) = c ∷ cs

abbrev or_one : ℤ → ℤ
or_one (pos zero) = pos 1
or_one (pos (suc n)) = pos (suc n)
or_one (negsuc n) = negsuc n

abbrev or_unlimited : ℤ → ℤ
or_unlimited (pos zero) = negsuc 0
or_unlimited (pos (suc n)) = pos (suc n)
or_unlimited (negsuc n) = negsuc n

-- The row that the creation of an item stores, and leaves in the caller's struct: gorm gives a field
-- that is zero the default of its column.
abbrev pub item_stored : Item → Item
item_stored item = record item {
  rarity = or_text common item.rarity;
  quantity = or_one item.quantity;
  max_quantity = or_unlimited item.max_quantity;
  is_tradable = true;
}

abbrev pub with_quantity : ℤ → Item → Item
with_quantity n item = record item { quantity = n }

-- Every item of a list is the row at its index, and belongs to the user.
abbrev pub AllRows : (List ℕ → Option Item) → List ℕ → List Item → Type 0
AllRows row user [] = Unit
AllRows row user (item ∷ items) =
    (row item.item_id ≡ some item) × (item.user_id ≡ user) × AllRows row user items

-- The table after a statement has the row `o` at `id`, and is as before elsewhere.
abbrev pub Puts : (List ℕ → Option Item) → (List ℕ → Option Item) → List ℕ → Item → Type 0
Puts row after id o = (j : List ℕ) → after j ≡ (if list_beq id j then some o else row j)

-- What the service relies on, for `row s id`, the row of the table at the unique index `id`. The
-- replica that queries go to has no lag, and a statement that reports an error changed nothing.
pub record IsItemDao {S : Type 0} (dao : ItemDao S) (row : S → List ℕ → Option Item) : Type 0 where
  pub get_answer :
      (id : List ℕ) (s : S) (o : Option Item) → dao.get_item_by_id id s ≡ answer o → row s id ≡ o
  pub get_user_answer :
      (user game : List ℕ) (s : S) (items : List Item)
      → dao.get_user_items user game s ≡ answer items
      → AllRows (row s) user items
  pub create_done :
      (o : Item) (s : S)
      → (dao.create_item o s).1 ≡ done
      → (row s o.item_id ≡ none)
        × Puts (row s) (row (dao.create_item o s).0) o.item_id (item_stored o)
  pub consume_done :
      (id : List ℕ) (n : ℕ) (s : S) (o : Item)
      → (dao.consume_item id n s).1 ≡ done
      → row s id ≡ some o
      → AtLeast n o.quantity
        × Puts (row s) (row (dao.consume_item id n s).0) id (with_quantity (minus o.quantity n) o)
  pub add_done :
      (id : List ℕ) (n : ℕ) (s : S) (o : Item)
      → (dao.add_item_quantity id n s).1 ≡ done
      → row s id ≡ some o
      → Puts
          (row s)
          (row (dao.add_item_quantity id n s).0)
          id
          (with_quantity (o.quantity +ℤ pos n) o)
  pub create_refused :
      (o : Item) (s : S) (j : List ℕ)
      → (dao.create_item o s).1 ≡ refused
      → row (dao.create_item o s).0 j ≡ row s j
  pub consume_refused :
      (id : List ℕ) (n : ℕ) (s : S) (j : List ℕ)
      → (dao.consume_item id n s).1 ≡ refused
      → row (dao.consume_item id n s).0 j ≡ row s j
  pub add_refused :
      (id : List ℕ) (n : ℕ) (s : S) (j : List ℕ)
      → (dao.add_item_quantity id n s).1 ≡ refused
      → row (dao.add_item_quantity id n s).0 j ≡ row s j

pub data ItemError : Type 0 where
  not_positive database not_found not_owner not_enough not_tradable : ItemError

-- The first item of a list with the name and the type of `item`.
abbrev pub existing_item : Item → List Item → Option Item
existing_item item [] = none
existing_item item (x ∷ xs) =
    if list_beq x.name item.name && list_beq x.kind item.kind then some x else existing_item item xs

-- What stands in the way of a transfer, in the order of the checks.
abbrev pub refusal : Item → List ℕ → ℕ → Option ItemError
refusal item from_user quantity =
    if not (list_beq item.user_id from_user)
    then some not_owner
    else if not (at_least quantity item.quantity)
    then some not_enough
    else if not item.is_tradable
    then some not_tradable
    else none

module _ {S : Type 0} (dao : ItemDao S) where
  -- `none` is success.
  unfoldable pub add_item_quantity : List ℕ → ℤ → S → S × Option ItemError
  add_item_quantity id (negsuc n) s = (s, some not_positive)
  add_item_quantity id (pos zero) s = (s, some not_positive)
  add_item_quantity id (pos (suc n)) s =
      let r = dao.add_item_quantity id (suc n) s in
      (r.0, elim r.1 [ done ↦ none | refused ↦ some database ])

  unfoldable pub consume_item : List ℕ → ℤ → S → S × Option ItemError
  consume_item id (negsuc n) s = (s, some not_positive)
  consume_item id (pos zero) s = (s, some not_positive)
  consume_item id (pos (suc n)) s =
      let r = dao.consume_item id (suc n) s in
      (r.0, elim r.1 [ done ↦ none | refused ↦ some database ])

  -- The end of TransferItem: success, or the rollback, whose own error is dropped.
  abbrev pub finish : List ℕ → ℕ → S × Written → S × Option ItemError
  finish id quantity (s, done) = (s, none)
  finish id quantity (s, refused) = ((dao.add_item_quantity id quantity s).0, some database)

  -- What the receiver is given: more of an item, or a new one.
  abbrev pub give : Item → List ℕ → List ℕ → ℕ → Option Item → S → S × Written
  give item to_user new_id quantity (some existing) s =
      dao.add_item_quantity existing.item_id quantity s
  give item to_user new_id quantity none s =
      dao.create_item (record item { item_id = new_id; user_id = to_user; quantity = pos quantity })
        s

  -- The two statements of a transfer.
  abbrev pub move :
      Item → List ℕ → List ℕ → List ℕ → ℕ → Option Item → S × Written → S × Option ItemError
  move item id to_user new_id quantity existing (s, refused) = (s, some database)
  move item id to_user new_id quantity existing (s, done) =
      finish id quantity (give item to_user new_id quantity existing s)

  -- From the receiver's items on.
  abbrev pub to_receiver :
      Item → List ℕ → List ℕ → List ℕ → ℕ → S → Queried (List Item) → S × Option ItemError
  to_receiver item id to_user new_id quantity s unavailable = (s, some database)
  to_receiver item id to_user new_id quantity s (answer items) =
      move item id to_user new_id quantity (existing_item item items)
        (dao.consume_item id quantity s)

  -- From the sender's item on.
  abbrev pub from_sender :
      List ℕ → List ℕ → List ℕ → List ℕ → ℕ → S → Queried (Option Item) → S × Option ItemError
  from_sender id from_user to_user new_id quantity s unavailable = (s, some database)
  from_sender id from_user to_user new_id quantity s (answer none) = (s, some not_found)
  from_sender id from_user to_user new_id quantity s (answer (some item)) =
      elim (refusal item from_user quantity) [
        | some e ↦ (s, some e)
        | none ↦
            to_receiver item id to_user new_id quantity s
              (dao.get_user_items to_user item.game_id s)
      ]

  -- TransferItem, with the identifier that a new item would get.
  unfoldable pub transfer_item : List ℕ → List ℕ → List ℕ → List ℕ → ℤ → S → S × Option ItemError
  transfer_item id from_user to_user new_id (negsuc n) s = (s, some not_positive)
  transfer_item id from_user to_user new_id (pos zero) s = (s, some not_positive)
  transfer_item id from_user to_user new_id (pos (suc n)) s =
      from_sender id from_user to_user new_id (suc n) s (dao.get_item_by_id id s)
