-- ===== src/Business/Items/Editing.antt =====
-- item_service.go: UpdateItem and DeleteItem of ItemService, and an UpdateItem that another call comes
-- into between its query and its statement.
use data_middleware.Prelude.{
  ℕ, minus, ◌≡◌, refl, ap, ◌∙◌, sym, true, List, Option, none, some, list_beq, list_beq_iff,
  if◌then◌else◌,
}
use data_middleware.Business.Dao.{Queried, answer, unavailable, Written, done, refused}
use data_middleware.Business.Items.{Item, ItemError, database, not_found, with_quantity}
use data_middleware.Business.Items.Batch.{ItemResult, created, not_created, create_ends}
use data_middleware.Data.Rows.{has, find-holds}
use data_middleware.Data.Table.{Table, IsTable}
use data_middleware.Data.Table.Keyed.{save_at}
use data_middleware.Data.Items.{
  item_key, item_conflict, item_row, get_item_by_id, update_item_row, delete_item_row,
  consume_item_row, consume_row,
}

-- An entry of the updates, where it holds a text.
abbrev pub text_or : List ℕ → Option (List ℕ) → List ℕ
text_or old none = old
text_or old (some text) = text

pub record ItemUpdates : Type 0 where
  pub name : Option (List ℕ)
  pub description : Option (List ℕ)
  pub icon_url : Option (List ℕ)

abbrev pub edited : ItemUpdates → Item → Item
edited e o = record o {
  name = text_or o.name e.name;
  description = text_or o.description e.description;
  icon_url = text_or o.icon_url e.icon_url;
}

module _ {S : Type 0} (t : Table Item S) where
  -- UpdateItem, from what the query gives.
  unfoldable pub update_found : ItemUpdates → S → Queried (Option Item) → S × ItemResult
  update_found e s unavailable = (s, not_created database)
  update_found e s (answer none) = (s, not_created not_found)
  update_found e s (answer (some o)) = let q = edited e o in create_ends q (update_item_row t q s)

  unfoldable pub update_item : List ℕ → ItemUpdates → S → S × ItemResult
  update_item id e s = update_found e s (get_item_by_id t id s)

  unfoldable pub delete_item : List ℕ → S → S × Option ItemError
  delete_item id s =
      let r = delete_item_row t id s in (r.0, elim r.1 [ done ↦ none | refused ↦ some database ])

-- What is read of a result that succeeded.
create_ends-created :
    {S : Type 0} (o q : Item) (r : S × Written)
    → (create_ends o r).1 ≡ created q
    → (r.1 ≡ done) × ((create_ends o r).0 ≡ r.0) × (q ≡ o)
create_ends-created o q (s, refused) e = absurd (cc)
create_ends-created o q (s, done) e = (refl, refl, sym (ap value e))
  where
    value : ItemResult → Item
    value (created x) = x
    value (not_created x) = o

create_ends-state : {S : Type 0} (o : Item) (r : S × Written) → (create_ends o r).0 ≡ r.0
create_ends-state o (s, done) = refl
create_ends-state o (s, refused) = refl

module _ {S : Type 0} (t : Table Item S) (rows : S → List Item)
    (h : IsTable t rows item_key item_conflict) where
  -- An update that is written to a table where the item is still there.
  update_found-row :
      (e : ItemUpdates) (s : S) (o old q : Item) (j : List ℕ)
      → item_row rows s o.item_id ≡ some old
      → (update_found t e s (answer (some o))).1 ≡ created q
      → (q ≡ edited e o)
        × (item_row rows (update_found t e s (answer (some o))).0 j
            ≡ (if list_beq o.item_id j then some (edited e o) else item_row rows s j))
  unfolding update_found update_item_row
  update_found-row e s o old q j there fine =
      let x = edited e o in
      let (wrote, state, same) = create_ends-created x q (t.save x s) fine in
      (
        same,
        ap (λ (r : S). item_row rows r j) state
            ∙ save_at t rows item_key item_conflict h x old j s wrote there,
      )

  -- Over a table that behaves as documented: where UpdateItem has read an item, a consumption of the
  -- item succeeds, and then the update succeeds too, the update writes the whole row that it had
  -- read, so that the quantity is again what it was before the consumption.
  pub update_found-consume_item_row :
      (id : List ℕ) (n : ℕ) (e : ItemUpdates) (s : S) (o q : Item)
      → get_item_by_id t id s ≡ answer (some o)
      → (consume_item_row t id n s).1 ≡ done
      → (update_found t e (consume_item_row t id n s).0 (answer (some o))).1 ≡ created q
      → (item_row rows (consume_item_row t id n s).0 id
          ≡ some (with_quantity (minus o.quantity n) o))
        × (item_row rows (update_found t e (consume_item_row t id n s).0 (answer (some o))).0 id
            ≡ some q)
        × (q.quantity ≡ o.quantity)
  unfolding get_item_by_id
  update_found-consume_item_row id n e s o q read consumed wrote =
      let there : item_row rows s id ≡ some o = h.first_answer (has item_key id) s (some o) read in
      let keys : o.item_id ≡ id =
        (list_beq_iff o.item_id id).0 (find-holds (has item_key id) (rows s) o there) in
      let s1 = (consume_item_row t id n s).0 in
      let less : item_row rows s1 id ≡ some (with_quantity (minus o.quantity n) o) =
        (consume_row t rows h id n s o consumed there).1 id
        ∙ rw ((list_beq_iff id id).1 refl) refl in
      let (same, written_row) =
        update_found-row e s1 o (with_quantity (minus o.quantity n) o) q id
          (ap (item_row rows s1) keys ∙ less) wrote in
      let hit : list_beq o.item_id id ≡ true = (list_beq_iff o.item_id id).1 keys in
      (less, written_row ∙ rw hit (ap some (sym same)), ap Item.quantity same)
