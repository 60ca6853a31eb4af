-- ===== src/Data/Tests/Tables.antt =====
-- The orders and the items over a table with room for one row.
use data_middleware.Prelude.{pos, ◌≡◌, refl, true, false, [], ◌∷◌, none, some, negsuc}
use data_middleware.Business.Dao.{answer}
use data_middleware.Business.Items.{Item, IsItemDao, with_quantity}
use data_middleware.Business.Items.Editing.{
  ItemUpdates, edited, update_found, update_found-consume_item_row,
}
use data_middleware.Data.Items.{
  item_key, item_conflict, item_dao, item_row, item_dao-IsItemDao, get_item_by_id, consume_item_row,
  update_item_row,
}
use data_middleware.Data.Tests.OneRow.{one_row, rows_of, one_row-IsTable}

item_dao-IsItemDao_example : IsItemDao (item_dao (one_row item_key)) (item_row rows_of)
item_dao-IsItemDao_example =
    item_dao-IsItemDao (one_row item_key) rows_of (one_row-IsTable item_key item_conflict)

abbrev potion : Item
potion = record {
  item_id = 1 ∷ [];
  user_id = 2 ∷ [];
  game_id = 3 ∷ [];
  name = 4 ∷ [];
  kind = 5 ∷ [];
  category = [];
  rarity = [];
  quantity = pos 7;
  max_quantity = negsuc 0;
  is_bound = false;
  is_tradable = true;
  expire_at = none;
  description = [];
  icon_url = [];
}

abbrev renaming : ItemUpdates
renaming = record { name = some (6 ∷ []); description = none; icon_url = none }

update_found-consume_item_row_example :
    let s1 = (consume_item_row (one_row item_key) (1 ∷ []) 5 (some potion)).0 in
    (item_row rows_of s1 (1 ∷ []) ≡ some (with_quantity (pos 2) potion))
    × (item_row rows_of
          (update_found (one_row item_key) renaming s1 (answer (some potion))).0
          (1 ∷ [])
        ≡ some (edited renaming potion))
    × ((edited renaming potion).quantity ≡ pos 7)
unfolding get_item_by_id consume_item_row update_found update_item_row
update_found-consume_item_row_example =
    update_found-consume_item_row (one_row item_key) rows_of
      (one_row-IsTable item_key item_conflict) (1 ∷ []) 5 renaming (some potion) potion
      (edited renaming potion) refl refl refl
