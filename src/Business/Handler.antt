-- ===== src/Business/Handler.antt =====
-- internal/business/common/game_handler.go: GameHandler.handleOrderOperation, over OrderService.
-- json.Unmarshal is a parameter; the data of a request are the bytes that the TCP router puts there,
-- and the texts of the replies are left out. The clock and the identifier that a new order draws
-- from it are arguments.
pub mod Settled
pub mod Game
pub mod Replies
pub mod Routed
use data_middleware.Prelude.{ℕ, List, [], ◌∷◌, Option, none, some, ℤ, pos, list_beq, if◌then◌else◌}
use data_middleware.Routing.{Request, Response}
use data_middleware.Business.Orders.{
  Order, OrderDao, pending, Result, ok, failed, create_order, process_payment, cancel_order,
}

-- What is unmarshalled of the data.
pub record OrderRequest : Type 0 where
  pub user_id : List ℕ
  pub operation : List ℕ
  pub order_id : List ℕ
  pub product_id : List ℕ
  pub product_name : List ℕ
  pub amount : ℤ
  pub currency : List ℕ
  pub payment_method : List ℕ
  pub channel : List ℕ
  pub transaction_id : List ℕ

-- `create`, `pay` and `cancel`
abbrev pub op_create : List ℕ
op_create = 99 ∷ 114 ∷ 101 ∷ 97 ∷ 116 ∷ 101 ∷ []

abbrev pub op_pay : List ℕ
op_pay = 112 ∷ 97 ∷ 121 ∷ []

abbrev pub op_cancel : List ℕ
op_cancel = 99 ∷ 97 ∷ 110 ∷ 99 ∷ 101 ∷ 108 ∷ []

abbrev pub respond_with : ℕ → Option Order → Request → Response Order
respond_with code payload req = record {
  id = req.id;
  code = code;
  message = [];
  payload = payload;
  timestamp = req.timestamp;
}

-- The reply to a call of the service: its order, or the code of its error.
unfoldable pub report : {S : Type 0} → ℕ → Request → S × Result → S × Response Order
report code req (s, ok o) = (s, respond_with 0 (some o) req)
report code req (s, failed e) = (s, respond_with code none req)

-- The order that `CreateOrder` makes of its arguments.
abbrev pub order_of : List ℕ → Request → OrderRequest → Order
order_of new_id req r = record {
  order_id = new_id;
  user_id = r.user_id;
  game_id = req.game_id;
  product_id = r.product_id;
  product_name = r.product_name;
  amount = r.amount;
  currency = r.currency;
  payment_method = r.payment_method;
  status = pending;
  payment_at = none;
  refund_at = none;
  refund_amount = pos 0;
  transaction_id = [];
  channel = r.channel;
  ip = [];
  device_id = [];
}

module _ {S : Type 0} (dao : OrderDao S) where
  -- The switch over the operation.
  unfoldable pub operate : ℕ → List ℕ → Request → OrderRequest → S → S × Response Order
  operate now new_id req r s =
      if list_beq r.operation op_create
      then report 5006 req (create_order dao (order_of new_id req r) s)
      else if list_beq r.operation op_pay
      then report 5007 req (process_payment dao now r.order_id r.transaction_id s)
      else if list_beq r.operation op_cancel
      then report 5008 req (cancel_order dao now r.order_id s)
      else (s, respond_with 4003 none req)

module _ {S : Type 0} (dao : OrderDao S) (unmarshal : List ℕ → Option OrderRequest) where
  unfoldable pub handle_order_operation : ℕ → List ℕ → Request → S → S × Response Order
  handle_order_operation now new_id req s = elim (unmarshal req.data_) [
    | none ↦ (s, respond_with 4002 none req)
    | some r ↦ operate dao now new_id req r s
  ]
