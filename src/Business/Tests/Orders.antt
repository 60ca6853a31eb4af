-- ===== src/Business/Tests/Orders.antt =====
-- OrderService over a table in memory.
use data_middleware.Prelude.{
  ℕ, ◌≡◌, refl, false, List, [], ◌∷◌, Option, none, some, pos, negsuc, list_beq, list_beq_iff,
  if◌then◌else◌, ap,
}
use data_middleware.Business.Dao.{answer, Written, done, refused}
use data_middleware.Business.Orders.{
  OrderStatus, pending, Order, OrderDao, IsOrderDao, with_status, order_stored,
}
use data_middleware.Routing.{Request}
use data_middleware.Business.Handler.{OrderRequest, op_pay, handle_order_operation}
use data_middleware.Business.Handler.Settled.{Reported, handle_order_operation-Reported}
use data_middleware.Business.Orders.Lifecycle.{
  pays_for, cancels_order, refunds_order, run, IsLater, run-IsLater,
}

abbrev Table : Type 0
Table = List ℕ → Option Order

abbrev put : List ℕ → Order → Table → Table
put id o t = λ j. if list_beq id j then some o else t j

abbrev create_at : Order → Table → Option Order → Table × Written
create_at o t none = (put o.order_id (order_stored o) t, done)
create_at o t (some x) = (t, refused)

abbrev update_at : ℕ → List ℕ → OrderStatus → Table → Option Order → Table × Written
update_at now id status t none = (t, done)
update_at now id status t (some o) = (put id (with_status now status o) t, done)

abbrev table_dao : OrderDao Table
table_dao = record {
  create_order = λ o t. create_at o t (t o.order_id);
  get_order_by_id = λ id t. answer (t id);
  update_order_status = λ now id status t. update_at now id status t (t id);
}

create_done :
    (o : Order) (t : Table) (r : Option Order)
    → (create_at o t r).1 ≡ done
    → (r ≡ none)
      × ((j : List ℕ)
          → (create_at o t r).0 j ≡ (if list_beq o.order_id j then some (order_stored o) else t j))
create_done o t none e = (refl, λ j. refl)
create_done o t (some x) e = absurd (cc)

create_refused :
    (o : Order) (t : Table) (j : List ℕ) (r : Option Order)
    → (create_at o t r).1 ≡ refused
    → (create_at o t r).0 j ≡ t j
create_refused o t j none e = absurd (cc)
create_refused o t j (some x) e = refl

update_others :
    (now : ℕ) (id j : List ℕ) (status : OrderStatus) (t : Table) (r : Option Order)
    → list_beq id j ≡ false
    → (update_at now id status t r).0 j ≡ t j
update_others now id j status t none e = refl
update_others now id j status t (some o) e = rw e refl

update_done :
    (now : ℕ) (id : List ℕ) (status : OrderStatus) (t : Table) (o : Order) (r : Option Order)
    → r ≡ some o
    → (update_at now id status t r).0 id ≡ some (with_status now status o)
update_done now id status t o none e = absurd (cc)
update_done now id status t o (some x) e =
    let same : x ≡ o = cc in
    rw ((list_beq_iff id id).1 refl) (ap (λ z. some (with_status now status z)) same)

update_refused :
    (now : ℕ) (id j : List ℕ) (status : OrderStatus) (t : Table) (r : Option Order)
    → (update_at now id status t r).1 ≡ refused
    → (update_at now id status t r).0 j ≡ t j
update_refused now id j status t none e = refl
update_refused now id j status t (some o) e = absurd (cc)

answered : (a b : Option Order) → answer a ≡ answer b → a ≡ b
answered a b e = cc

table_dao-IsOrderDao : IsOrderDao table_dao (λ t. t)
table_dao-IsOrderDao = record {
  get_answer = λ id t o e. answered (t id) o e;
  create_done = λ o t e. create_done o t (t o.order_id) e;
  create_refused = λ o t j e. create_refused o t j (t o.order_id) e;
  update_others = λ now id j status t e. update_others now id j status t (t id) e;
  update_done = λ now id status t o e f. update_done now id status t o (t id) f;
  update_refused = λ now id j status t e. update_refused now id j status t (t id) e;
}

abbrev gem : Order
gem = record {
  order_id = 1 ∷ [];
  user_id = 2 ∷ [];
  game_id = 3 ∷ [];
  product_id = 4 ∷ [];
  product_name = [];
  amount = pos 100;
  currency = [];
  payment_method = [];
  status = pending;
  payment_at = none;
  refund_at = none;
  refund_amount = pos 0;
  transaction_id = [];
  channel = [];
  ip = [];
  device_id = [];
}

abbrev orders : Table
orders = put (1 ∷ []) gem (λ j. none)

-- A negative refund is one that does not exceed the amount.
run-IsLater_example :
    (n : Order) × (run table_dao orders
        (pays_for 5 (1 ∷ []) (9 ∷ [])
          ∷ cancels_order 6 (1 ∷ [])
          ∷ refunds_order 7 (1 ∷ []) (negsuc 4)
          ∷ [])
        (1 ∷ [])
      ≡ some n)
    × IsLater gem n
run-IsLater_example =
    run-IsLater table_dao (λ t. t) table_dao-IsOrderDao
      (pays_for 5 (1 ∷ []) (9 ∷ [])
        ∷ cancels_order 6 (1 ∷ [])
        ∷ refunds_order 7 (1 ∷ []) (negsuc 4)
        ∷ [])
      orders (1 ∷ []) gem refl

-- A payment for the order in the table, whatever the data are.
abbrev pay_request : OrderRequest
pay_request = record {
  user_id = 2 ∷ [];
  operation = op_pay;
  order_id = 1 ∷ [];
  product_id = [];
  product_name = [];
  amount = pos 0;
  currency = [];
  payment_method = [];
  channel = [];
  transaction_id = 9 ∷ [];
}

abbrev request : Request
request = record {
  id = 7 ∷ [];
  type = 0x1005;
  game_id = 3 ∷ [];
  user_id = 2 ∷ [];
  data_ = 123 ∷ 125 ∷ [];
  timestamp = 4;
}

handle_order_operation-Reported_example :
    Reported
      (λ t. t)
      orders
      (1 ∷ [])
      (handle_order_operation table_dao (λ b. some pay_request) 5 (8 ∷ []) request orders)
handle_order_operation-Reported_example =
    handle_order_operation-Reported table_dao (λ t. t) table_dao-IsOrderDao (λ b. some pay_request)
      5 (8 ∷ []) request pay_request orders refl
