-- ===== src/Data/Orders.antt =====
-- internal/data/dao/dao.go: the order methods of daoImpl.
use data_middleware.Prelude.{ℕ, Bool, List, Option}
use data_middleware.Business.Dao.{Queried, Written}
use data_middleware.Business.Orders.{Order, OrderStatus, OrderDao, with_status, order_stored}
use data_middleware.Data.Rows.{find_row, has}
use data_middleware.Data.Table.{Table, completed, ending}

-- The unique index of the table.
abbrev pub order_key : Order → List ℕ
order_key o = o.order_id

abbrev pub order_conflict : Order → Order → Bool
order_conflict o = has order_key o.order_id

module _ {S : Type 0} (t : Table Order S) where
  unfoldable pub create_order_row : Order → S → S × Written
  create_order_row o s = t.create (order_stored o) s

  unfoldable pub get_order_by_id : List ℕ → S → Queried (Option Order)
  get_order_by_id id s = t.first (has order_key id) s

  unfoldable pub update_order_status : ℕ → List ℕ → OrderStatus → S → S × Written
  update_order_status now id status s =
      ending completed (t.updates (has order_key id) (with_status now status) s)

  abbrev pub order_dao : OrderDao S
  order_dao = record {
    create_order = create_order_row;
    get_order_by_id = get_order_by_id;
    update_order_status = update_order_status;
  }

abbrev pub order_row : {S : Type 0} → (S → List Order) → S → List ℕ → Option Order
order_row rows s id = find_row (has order_key id) (rows s)
