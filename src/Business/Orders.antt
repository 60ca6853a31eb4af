-- ===== src/Business/Orders.antt =====
-- internal/business/common/order_service.go: OrderService, over the order methods of the
-- interface DAO (internal/data/dao/dao.go). The clock and the identifier that a new order draws
-- from it are arguments. The fields that gorm fills in itself are left out.
pub mod Lifecycle
use data_middleware.Prelude.{
  ℕ, ◌≡◌, Bool, true, false, List, [], ◌∷◌, Option, none, some, ℤ, pos, gtb, list_beq,
  if◌then◌else◌,
}
use data_middleware.Business.Dao.{Queried, answer, unavailable, Written, done, refused}

-- A status is a string; `other` stands for those that the service does not write.
pub data OrderStatus : Type 0 where
  pending paid cancelled refunded : OrderStatus
  other : List ℕ → OrderStatus

pub record Order : Type 0 where
  pub order_id : List ℕ
  pub user_id : List ℕ
  pub game_id : List ℕ
  pub product_id : List ℕ
  pub product_name : List ℕ
  pub amount : ℤ
  pub currency : List ℕ
  pub payment_method : List ℕ
  pub status : OrderStatus
  pub payment_at : Option ℕ
  pub refund_at : Option ℕ
  pub refund_amount : ℤ
  pub transaction_id : List ℕ
  pub channel : List ℕ
  pub ip : List ℕ
  pub device_id : List ℕ

pub record OrderDao (S : Type 0) : Type 0 where
  pub create_order : Order → S → S × Written
  pub get_order_by_id : List ℕ → S → Queried (Option Order)
  pub update_order_status : ℕ → List ℕ → OrderStatus → S → S × Written

-- `CNY`
abbrev pub cny : List ℕ
cny = 67 ∷ 78 ∷ 89 ∷ []

abbrev or_cny : List ℕ → List ℕ
or_cny [] = cny
or_cny (c ∷ cs) = c ∷ cs

abbrev or_pending : OrderStatus → OrderStatus
or_pending pending = pending
or_pending paid = paid
or_pending cancelled = cancelled
or_pending refunded = refunded
or_pending (other []) = pending
or_pending (other (c ∷ cs)) = other (c ∷ cs)

-- The row that the creation of an order stores, and leaves in the caller's struct: gorm gives a field
-- that is zero the default of its column.
abbrev pub order_stored : Order → Order
order_stored o = record o { currency = or_cny o.currency; status = or_pending o.status }

-- A row after UpdateOrderStatus, which writes the time of a payment too.
abbrev pub with_status : ℕ → OrderStatus → Order → Order
with_status now paid o = record o { status = paid; payment_at = some now }
with_status now pending o = record o { status = pending }
with_status now cancelled o = record o { status = cancelled }
with_status now refunded o = record o { status = refunded }
with_status now (other s) o = record o { status = other s }

-- What the service relies on, for `row s id`, the row of the table at the unique index `id`. The
-- replica that queries go to has no lag.
pub record IsOrderDao {S : Type 0} (dao : OrderDao S) (row : S → List ℕ → Option Order)
    : Type 0 where
  pub get_answer :
      (id : List ℕ) (s : S) (o : Option Order) → dao.get_order_by_id id s ≡ answer o → row s id ≡ o
  pub create_done :
      (o : Order) (s : S)
      → (dao.create_order o s).1 ≡ done
      → (row s o.order_id ≡ none)
        × ((j : List ℕ)
            → row (dao.create_order o s).0 j
              ≡ (if list_beq o.order_id j then some (order_stored o) else row s j))
  pub create_refused :
      (o : Order) (s : S) (j : List ℕ)
      → (dao.create_order o s).1 ≡ refused
      → row (dao.create_order o s).0 j ≡ row s j
  pub update_others :
      (now : ℕ) (id j : List ℕ) (status : OrderStatus) (s : S)
      → list_beq id j ≡ false
      → row (dao.update_order_status now id status s).0 j ≡ row s j
  pub update_done :
      (now : ℕ) (id : List ℕ) (status : OrderStatus) (s : S) (o : Order)
      → (dao.update_order_status now id status s).1 ≡ done
      → row s id ≡ some o
      → row (dao.update_order_status now id status s).0 id ≡ some (with_status now status o)
  pub update_refused :
      (now : ℕ) (id j : List ℕ) (status : OrderStatus) (s : S)
      → (dao.update_order_status now id status s).1 ≡ refused
      → row (dao.update_order_status now id status s).0 j ≡ row s j

pub data OrderError : Type 0 where
  database not_found refund_too_large not_owner : OrderError
  not_payable not_cancellable not_refundable : OrderStatus → OrderError

pub data Result : Type 0 where
  ok : Order → Result
  failed : OrderError → Result

pub is_pending : OrderStatus → Bool
is_pending pending = true
is_pending paid = false
is_pending cancelled = false
is_pending refunded = false
is_pending (other s) = false

pub is_paid : OrderStatus → Bool
is_paid pending = false
is_paid paid = true
is_paid cancelled = false
is_paid refunded = false
is_paid (other s) = false

-- The check that follows each query: an error, a nil order, or the order.
abbrev pub checked : Queried (Option Order) → Result
checked unavailable = failed database
checked (answer none) = failed not_found
checked (answer (some o)) = ok o

-- The end of each call that writes: the order it made, or the database's error.
abbrev pub written : {S : Type 0} → Order → S × Written → S × Result
written o (s, done) = (s, ok o)
written o (s, refused) = (s, failed database)

module _ {S : Type 0} (dao : OrderDao S) where
  unfoldable pub create_order : Order → S → S × Result
  create_order request s =
      let order : Order = record request {
        status = pending;
        payment_at = none;
        refund_at = none;
        refund_amount = pos 0;
        transaction_id = [];
      } in
      written (order_stored order) (dao.create_order order s)

  unfoldable pub get_order : List ℕ → S → Result
  get_order id s = checked (dao.get_order_by_id id s)

  -- ProcessPayment, from what the query gives.
  unfoldable pub pay : ℕ → List ℕ → List ℕ → S → Result → S × Result
  unfolding is_pending
  pay now id transaction s (failed e) = (s, failed e)
  pay now id transaction s (ok o) =
      if is_pending o.status
      then written (record o { status = paid; payment_at = some now; transaction_id = transaction })
          (dao.update_order_status now id paid s)
      else (s, failed (not_payable o.status))

  abbrev pub process_payment : ℕ → List ℕ → List ℕ → S → S × Result
  process_payment now id transaction s =
      pay now id transaction s (checked (dao.get_order_by_id id s))

  -- CancelOrder, from what the query gives.
  unfoldable pub cancel : ℕ → List ℕ → S → Result → S × Result
  unfolding is_pending
  cancel now id s (failed e) = (s, failed e)
  cancel now id s (ok o) =
      if is_pending o.status
      then written (record o { status = cancelled }) (dao.update_order_status now id cancelled s)
      else (s, failed (not_cancellable o.status))

  abbrev pub cancel_order : ℕ → List ℕ → S → S × Result
  cancel_order now id s = cancel now id s (checked (dao.get_order_by_id id s))

  -- RefundOrder, from what the query gives.
  unfoldable pub refund : ℕ → List ℕ → ℤ → S → Result → S × Result
  unfolding is_paid
  refund now id refund_amount s (failed e) = (s, failed e)
  refund now id refund_amount s (ok o) =
      if is_paid o.status
      then (if gtb refund_amount o.amount
          then (s, failed refund_too_large)
          else written
              (record o { status = refunded; refund_at = some now; refund_amount = refund_amount })
              (dao.update_order_status now id refunded s))
      else (s, failed (not_refundable o.status))

  abbrev pub refund_order : ℕ → List ℕ → ℤ → S → S × Result
  refund_order now id refund_amount s =
      refund now id refund_amount s (checked (dao.get_order_by_id id s))

  -- The errors of ValidateOrderOwnership, or `none`.
  unfoldable pub validate_order_ownership : List ℕ → List ℕ → S → Option OrderError
  validate_order_ownership id user s = elim (checked (dao.get_order_by_id id s)) [
    | failed e ↦ some e
    | ok o ↦ if list_beq o.user_id user then none else some not_owner
  ]
