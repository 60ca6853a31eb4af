-- ===== src/Business/Items/Batch.antt =====
-- item_service.go: CreateItem, GetItem, BatchCreateItems and ValidateItemOwnership of ItemService. A
-- request carries the identifier that its item draws from the clock.
use data_middleware.Prelude.{
  ℕ, ℤ, ◌≡◌, ◌≢◌, ◌⊎◌, true, false, List, [], ◌∷◌, ◌++◌, Option, none, some, negsuc, list_beq,
  if◌then◌else◌,
}
use data_middleware.Business.Dao.{Queried, answer, unavailable, Written, done, refused}
use data_middleware.Business.Items.{
  Item, ItemDao, ItemError, database, not_found, not_owner, common, item_stored,
}

pub record ItemRequest : Type 0 where
  pub new_id : List ℕ
  pub name : List ℕ
  pub kind : List ℕ
  pub category : List ℕ
  pub quantity : ℤ

-- The text that follows the name in a description, in UTF-8.
abbrev pub description_suffix : List ℕ
description_suffix = 32 ∷ 233 ∷ 129 ∷ 147 ∷ 229 ∷ 133 ∷ 183 ∷ []

-- The item that CreateItem makes.
abbrev pub new_item : List ℕ → List ℕ → ItemRequest → Item
new_item user game r = record {
  item_id = r.new_id;
  user_id = user;
  game_id = game;
  name = r.name;
  kind = r.kind;
  category = r.category;
  rarity = common;
  quantity = r.quantity;
  max_quantity = negsuc 0;
  is_bound = false;
  is_tradable = true;
  expire_at = none;
  description = r.name ++ description_suffix;
  icon_url = [];
}

pub data ItemResult : Type 0 where
  created : Item → ItemResult
  not_created : ItemError → ItemResult

-- The end of CreateItem, with the struct as gorm leaves it.
abbrev pub create_ends : {S : Type 0} → Item → S × Written → S × ItemResult
create_ends o (s, done) = (s, created o)
create_ends o (s, refused) = (s, not_created database)

-- The checks of GetItem, and of ValidateItemOwnership, which gives an error or `none`.
abbrev pub item_found : Queried (Option Item) → ItemResult
item_found unavailable = not_created database
item_found (answer none) = not_created not_found
item_found (answer (some o)) = created o

abbrev pub owned_by : List ℕ → Queried (Option Item) → Option ItemError
owned_by user unavailable = some database
owned_by user (answer none) = some not_found
owned_by user (answer (some o)) = if list_beq o.user_id user then none else some not_owner

-- An item in front of those that the rest of a batch gives.
abbrev pub in_front : Item → Option (List Item) → Option (List Item)
in_front o none = none
in_front o (some items) = some (o ∷ items)

module _ {S : Type 0} (dao : ItemDao S) where
  unfoldable pub create_item : List ℕ → List ℕ → ItemRequest → S → S × ItemResult
  create_item user game r s =
      let o = new_item user game r in create_ends (item_stored o) (dao.create_item o s)

  unfoldable pub get_item : List ℕ → S → ItemResult
  get_item id s = item_found (dao.get_item_by_id id s)

  unfoldable pub validate_item_ownership : List ℕ → List ℕ → S → Option ItemError
  validate_item_ownership id user s = owned_by user (dao.get_item_by_id id s)

  -- The loop of BatchCreateItems after an item: on to the next, or the error.
  abbrev pub batch_goes_on : (S → S × Option (List Item)) → S × ItemResult → S × Option (List Item)
  batch_goes_on rest (s, not_created e) = (s, none)
  batch_goes_on rest (s, created o) = let r = rest s in (r.0, in_front o r.1)

  -- `none` is the error of an item that could not be created.
  unfoldable pub batch_create_items :
      List ℕ → List ℕ → List ItemRequest → S → S × Option (List Item)
  batch_create_items user game [] s = (s, some [])
  batch_create_items user game (r ∷ rs) s =
      batch_goes_on (batch_create_items user game rs) (create_item user game r s)

-- The items of a batch, with the default of 1 for a quantity of 0.
abbrev pub new_items : List ℕ → List ℕ → List ItemRequest → List Item
new_items user game [] = []
new_items user game (r ∷ rs) = item_stored (new_item user game r) ∷ new_items user game rs

-- A table with items put one after the other.
abbrev pub placed : List Item → (List ℕ → Option Item) → List ℕ → Option Item
placed [] row = row
placed (o ∷ os) row = placed os (λ j. if list_beq o.item_id j then some o else row j)

-- What a batch has done: it created all of its items and gives them; or those in front of one that
-- could not be created, and gives an error.
pub record Batched (items : List Item) (row after : List ℕ → Option Item)
    (result : Option (List Item)) : Type 0 where
  pub made : List Item
  pub left : List Item
  pub split : items ≡ made ++ left
  pub rows : (j : List ℕ) → after j ≡ placed made row j
  pub ending : ((left ≡ []) × (result ≡ some items)) ⊎ ((left ≢ []) × (result ≡ none))
