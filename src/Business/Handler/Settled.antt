-- ===== src/Business/Handler/Settled.antt =====
-- game_handler.go: what the reply to an order operation says of the table.
use data_middleware.Prelude.{
  ℕ, ◌<◌, ◌≡◌, ◌⊎◌, refl, ap, ◌∙◌, List, [], pos, Option, none, some, list_beq, list_beq_iff,
  if◌then◌else◌, Bool-cases, inl, inr, arith,
}
use data_middleware.Routing.{Request, Response}
use data_middleware.Business.Dao.{Written, done, refused}
use data_middleware.Business.Orders.{
  Order, OrderDao, IsOrderDao, Result, ok, failed, written, paid, cancelled, pending, is_pending,
  create_order, pay, cancel, order_stored,
}
use data_middleware.Business.Orders.Lifecycle.{checked-row}
use data_middleware.Business.Handler.{
  OrderRequest, op_create, op_pay, op_cancel, report, order_of, operate, handle_order_operation,
}

module _ {S : Type 0} (row : S → List ℕ → Option Order) where
  -- The reply has code 0 and an order, whose status the row has too; or an error code, no order, and
  -- no row has changed.
  unfoldable pub Reported : S → List ℕ → S × Response Order → Type 0
  Reported s id (t, resp) =
      ((n : Order) × (x : Order) × (resp.code ≡ 0)
        × (resp.payload ≡ some n)
        × (row t id ≡ some x)
        × (x.status ≡ n.status))
      ⊎ ((0 < resp.code) × (resp.payload ≡ none) × ((j : List ℕ) → row t j ≡ row s j))

  Settled : S → List ℕ → S × Result → Type 0
  Settled s id (t, ok n) = (x : Order) × (row t id ≡ some x) × (x.status ≡ n.status)
  Settled s id (t, failed e) = (j : List ℕ) → row t j ≡ row s j

  report-Reported :
      (code : ℕ) (req : Request) (s : S) (id : List ℕ) (r : S × Result)
      → 0 < code
      → Settled s id r
      → Reported s id (report code req r)
  unfolding report Reported Settled
  report-Reported code req s id (t, ok n) l (x, e, f) = inl (n, x, refl, refl, e, f)
  report-Reported code req s id (t, failed _) l h = inr (l, refl, h)

  written-Settled :
      (s : S) (id : List ℕ) (n : Order) (r : S × Written)
      → (r.1 ≡ done → (x : Order) × (row r.0 id ≡ some x) × (x.status ≡ n.status))
      → (r.1 ≡ refused → (j : List ℕ) → row r.0 j ≡ row s j)
      → Settled s id (written n r)
  unfolding Settled
  written-Settled s id n (t, done) p q = p refl
  written-Settled s id n (t, refused) p q = q refl

module _ {S : Type 0} (dao : OrderDao S) (row : S → List ℕ → Option Order)
    (h : IsOrderDao dao row) where
  create_order-Settled : (o : Order) (s : S) → Settled row s o.order_id (create_order dao o s)
  unfolding create_order
  create_order-Settled o s =
      let made : Order = record o {
        status = pending;
        payment_at = none;
        refund_at = none;
        refund_amount = pos 0;
        transaction_id = [];
      } in
      written-Settled row s o.order_id (order_stored made) (dao.create_order made s)
        (λ wrote.
          let (absent, rows) = h.create_done made s wrote in
          let own = (list_beq_iff o.order_id o.order_id).1 refl in
          (
            order_stored made,
            rows o.order_id
                ∙ ap (λ b. if b then some (order_stored made) else row s o.order_id) own,
            refl,
          ))
        (λ failed_ j. h.create_refused made s j failed_)

  pay-Settled :
      (now : ℕ) (id transaction : List ℕ) (s : S) (r : Result)
      → ((o : Order) → r ≡ ok o → row s id ≡ some o)
      → Settled row s id (pay dao now id transaction s r)
  unfolding pay Settled
  pay-Settled now id transaction s (failed e) f = λ j. refl
  pay-Settled now id transaction s (ok o) f = elim (Bool-cases (is_pending o.status)) [
    | inl y ↦ rw y (
        written-Settled row s id _ (dao.update_order_status now id paid s)
          (λ wrote. (_, h.update_done now id paid s o wrote (f o refl), refl))
          (λ failed_ j. h.update_refused now id j paid s failed_))
    | inr n ↦ rw n (λ j. refl)
  ]

  cancel-Settled :
      (now : ℕ) (id : List ℕ) (s : S) (r : Result)
      → ((o : Order) → r ≡ ok o → row s id ≡ some o)
      → Settled row s id (cancel dao now id s r)
  unfolding cancel Settled
  cancel-Settled now id s (failed e) f = λ j. refl
  cancel-Settled now id s (ok o) f = elim (Bool-cases (is_pending o.status)) [
    | inl y ↦ rw y (
        written-Settled row s id _ (dao.update_order_status now id cancelled s)
          (λ wrote. (_, h.update_done now id cancelled s o wrote (f o refl), refl))
          (λ failed_ j. h.update_refused now id j cancelled s failed_))
    | inr n ↦ rw n (λ j. refl)
  ]

  -- The order that an operation is about: the new one, or the one that the request names.
  abbrev pub subject : List ℕ → OrderRequest → List ℕ
  subject new_id r = if list_beq r.operation op_create then new_id else r.order_id

  operate-Reported :
      (now : ℕ) (new_id : List ℕ) (req : Request) (r : OrderRequest) (s : S)
      → Reported row s (subject new_id r) (operate dao now new_id req r s)
  unfolding operate Reported
  operate-Reported now new_id req r s = elim (Bool-cases (list_beq r.operation op_create)) [
    | inl y ↦ rw y (
        report-Reported row 5006 req s new_id _ (omega arith)
          (create_order-Settled (order_of new_id req r) s))
    | inr n ↦ rw n (elim (Bool-cases (list_beq r.operation op_pay)) [
      | inl y ↦ rw y (
          report-Reported row 5007 req s r.order_id _ (omega arith) (
            pay-Settled now r.order_id r.transaction_id s _
              (checked-row dao row h r.order_id s _ refl)))
      | inr n ↦ rw n (elim (Bool-cases (list_beq r.operation op_cancel)) [
        | inl y ↦ rw y (
            report-Reported row 5008 req s r.order_id _ (omega arith)
              (cancel-Settled now r.order_id s _ (checked-row dao row h r.order_id s _ refl)))
        | inr n ↦ rw n (inr (omega arith, refl, λ j. refl))
      ])
    ])
  ]

  -- Over a DAO that meets `IsOrderDao`, whatever calls fail, the reply to an order operation is true
  -- to the table: where its code is 0 it has an order, and the row of the new order, or of the one
  -- that the request names, has that order's status; and any other code comes with no order, and no
  -- row has changed.
  pub handle_order_operation-Reported :
      (unmarshal : List ℕ → Option OrderRequest) (now : ℕ) (new_id : List ℕ) (req : Request)
      (r : OrderRequest) (s : S)
      → unmarshal req.data_ ≡ some r
      → Reported row s (subject new_id r) (handle_order_operation dao unmarshal now new_id req s)
  unfolding handle_order_operation
  handle_order_operation-Reported unmarshal now new_id req r s e =
      rw (e, handle_order_operation) (operate-Reported now new_id req r s)
