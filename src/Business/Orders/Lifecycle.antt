-- ===== src/Business/Orders/Lifecycle.antt =====
-- order_service.go: the life of an order in the table, over any history of calls.
use data_middleware.Prelude.{
  ℕ, ◌≡◌, refl, ◌∙◌, true, List, [], ◌∷◌, Option, none, some, ℤ, gtb, list_beq, list_beq_iff,
  Bool-cases, inl, inr,
}
use data_middleware.Business.Dao.{
  Queried, answer, unavailable, Written, done, refused, Written-cases,
}
use data_middleware.Business.Orders.{
  OrderStatus, pending, paid, cancelled, refunded, other, Order, OrderDao, IsOrderDao, with_status,
  Result, ok, failed, checked, written, is_pending, is_paid, create_order, pay, process_payment,
  cancel, cancel_order, refund, refund_order,
}

-- The documented changes of an order's status.
pub data Step : OrderStatus → OrderStatus → Type 0 where
  pays : Step pending paid
  cancels : Step pending cancelled
  refunds : Step paid refunded

pub data Reaches : OrderStatus → OrderStatus → Type 0 where
  here : {a : OrderStatus} → Reaches a a
  onward : {a b c : OrderStatus} → Step a b → Reaches b c → Reaches a c

Reaches-trans : {a b c : OrderStatus} → Reaches a b → Reaches b c → Reaches a c
Reaches-trans here q = q
Reaches-trans (onward s p) q = onward s (Reaches-trans p q)

-- The order `n` is a later state of `o`: its status was reached by documented changes, and no
-- other field differs but the time of the payment.
pub record IsLater (o n : Order) : Type 0 where
  pub reaches : Reaches o.status n.status
  pub same : n ≡ record o { status = n.status; payment_at = n.payment_at }

IsLater-trans : {o n m : Order} → IsLater o n → IsLater n m → IsLater o m
IsLater-trans {o = o} {n = n} {m = m} p q = record {
  reaches = Reaches-trans p.reaches q.reaches;
  same = q.same ∙ (λ i. record (p.same i) { status = m.status; payment_at = m.payment_at });
}

-- The calls, each with its time.
pub data Call : Type 0 where
  creates : Order → Call
  pays_for : ℕ → List ℕ → List ℕ → Call
  cancels_order : ℕ → List ℕ → Call
  refunds_order : ℕ → List ℕ → ℤ → Call

module _ {S : Type 0} (dao : OrderDao S) where
  pub after : S → Call → S
  after s (creates o) = (create_order dao o s).0
  after s (pays_for now id transaction) = (process_payment dao now id transaction s).0
  after s (cancels_order now id) = (cancel_order dao now id s).0
  after s (refunds_order now id amount) = (refund_order dao now id amount s).0

  pub run : S → List Call → S
  run s [] = s
  run s (call ∷ calls) = run (after s call) calls

is_pending-true : (status : OrderStatus) → is_pending status ≡ true → status ≡ pending
unfolding is_pending
is_pending-true pending e = refl
is_pending-true paid e = absurd (cc)
is_pending-true cancelled e = absurd (cc)
is_pending-true refunded e = absurd (cc)
is_pending-true (other s) e = absurd (cc)

is_paid-true : (status : OrderStatus) → is_paid status ≡ true → status ≡ paid
unfolding is_paid
is_paid-true pending e = absurd (cc)
is_paid-true paid e = refl
is_paid-true cancelled e = absurd (cc)
is_paid-true refunded e = absurd (cc)
is_paid-true (other s) e = absurd (cc)

written-0 : {S : Type 0} (o : Order) (r : S × Written) → (written o r).0 ≡ r.0
written-0 o (s, done) = refl
written-0 o (s, refused) = refl

module _ {S : Type 0} (dao : OrderDao S) (row : S → List ℕ → Option Order)
    (h : IsOrderDao dao row) where
  -- Every order of `s` is there in `t`, in a later state.
  Advances : S → S → Type 0
  Advances s t =
      (j : List ℕ) (o : Order) → row s j ≡ some o → (n : Order) × (row t j ≡ some n) × IsLater o n

  Advances-refl : (s : S) → Advances s s
  unfolding Advances
  Advances-refl s j o e = (o, e, record { reaches = here; same = refl })

  Advances-trans : (s t u : S) → Advances s t → Advances t u → Advances s u
  unfolding Advances
  Advances-trans s t u p q j o e =
      let (n, f, l) = p j o e in let (m, g, k) = q j n f in (m, g, IsLater-trans l k)

  same-Advances : (s t : S) → ((j : List ℕ) → row t j ≡ row s j) → Advances s t
  unfolding Advances
  same-Advances s t f j o e = (o, f j ∙ e, record { reaches = here; same = refl })

  with_status-IsLater :
      (now : ℕ) (b : OrderStatus) (o : Order) → Step o.status b → IsLater o (with_status now b o)
  with_status-IsLater now pending o s = record { reaches = onward s here; same = refl }
  with_status-IsLater now paid o s = record { reaches = onward s here; same = refl }
  with_status-IsLater now cancelled o s = record { reaches = onward s here; same = refl }
  with_status-IsLater now refunded o s = record { reaches = onward s here; same = refl }
  with_status-IsLater now (other x) o s = record { reaches = onward s here; same = refl }

  -- A statement on an order that a query has found, to a documented next status.
  update-Advances :
      (now : ℕ) (id : List ℕ) (b : OrderStatus) (s : S) (o : Order)
      → row s id ≡ some o
      → Step o.status b
      → Advances s (dao.update_order_status now id b s).0
  unfolding Advances
  update-Advances now id b s o e step = λ j x f.
      elim (Written-cases (dao.update_order_status now id b s).1) [
        | inr failed_ ↦
            (x, h.update_refused now id j b s failed_ ∙ f, record { reaches = here; same = refl })
        | inl wrote ↦ elim (Bool-cases (list_beq id j)) [
          | inr n ↦ (x, h.update_others now id j b s n ∙ f, record { reaches = here; same = refl })
          | inl y ↦
              let q : id ≡ j = (list_beq_iff id j).0 y in
              let same : o ≡ x = cc in
              (
                with_status now b x,
                rw (← q, ← same) (h.update_done now id b s o wrote e),
                rw (← same) (with_status-IsLater now b o step),
              )
        ]
      ]

  create-Advances : (order : Order) (s : S) → Advances s (dao.create_order order s).0
  unfolding Advances
  create-Advances order s = λ j x f. elim (Written-cases (dao.create_order order s).1) [
    | inr failed_ ↦
        (x, h.create_refused order s j failed_ ∙ f, record { reaches = here; same = refl })
    | inl wrote ↦
        let (absent, rows) = h.create_done order s wrote in
        elim (Bool-cases (list_beq order.order_id j)) [
          | inl y ↦ let q : order.order_id ≡ j = (list_beq_iff order.order_id j).0 y in absurd (cc)
          | inr n ↦ (x, rows j ∙ rw n f, record { reaches = here; same = refl })
        ]
  ]

  create_order-Advances : (request : Order) (s : S) → Advances s (create_order dao request s).0
  unfolding create_order
  create_order-Advances request s = rw (written-0 _ (dao.create_order _ s)) (create-Advances _ s)

  pay-Advances :
      (now : ℕ) (id transaction : List ℕ) (s : S) (r : Result)
      → ((o : Order) → r ≡ ok o → row s id ≡ some o)
      → Advances s (pay dao now id transaction s r).0
  unfolding pay
  pay-Advances now id transaction s (failed e) f = Advances-refl s
  pay-Advances now id transaction s (ok o) f = elim (Bool-cases (is_pending o.status)) [
    | inl y ↦
        rw (y, written-0 _ (dao.update_order_status now id paid s))
          (update-Advances now id paid s o (f o refl) (rw (is_pending-true o.status y) pays))
    | inr n ↦ rw n (Advances-refl s)
  ]

  cancel-Advances :
      (now : ℕ) (id : List ℕ) (s : S) (r : Result)
      → ((o : Order) → r ≡ ok o → row s id ≡ some o)
      → Advances s (cancel dao now id s r).0
  unfolding cancel
  cancel-Advances now id s (failed e) f = Advances-refl s
  cancel-Advances now id s (ok o) f = elim (Bool-cases (is_pending o.status)) [
    | inl y ↦
        rw (y, written-0 _ (dao.update_order_status now id cancelled s))
          (update-Advances now id cancelled s o (f o refl)
            (rw (is_pending-true o.status y) cancels))
    | inr n ↦ rw n (Advances-refl s)
  ]

  refund-Advances :
      (now : ℕ) (id : List ℕ) (amount : ℤ) (s : S) (r : Result)
      → ((o : Order) → r ≡ ok o → row s id ≡ some o)
      → Advances s (refund dao now id amount s r).0
  unfolding refund
  refund-Advances now id amount s (failed e) f = Advances-refl s
  refund-Advances now id amount s (ok o) f = elim (Bool-cases (is_paid o.status)) [
    | inr n ↦ rw n (Advances-refl s)
    | inl y ↦ elim (Bool-cases (gtb amount o.amount)) [
      | inl large ↦ rw (y, large) (Advances-refl s)
      | inr small ↦
          rw (y, small, written-0 _ (dao.update_order_status now id refunded s))
            (update-Advances now id refunded s o (f o refl) (rw (is_paid-true o.status y) refunds))
    ]
  ]

  pub checked-row :
      (id : List ℕ) (s : S) (r : Queried (Option Order))
      → dao.get_order_by_id id s ≡ r
      → (o : Order) → checked r ≡ ok o
      → row s id ≡ some o
  checked-row id s unavailable e o f = absurd (cc)
  checked-row id s (answer none) e o f = absurd (cc)
  checked-row id s (answer (some x)) e o f = let g = h.get_answer id s (some x) e in cc

  after-Advances : (call : Call) (s : S) → Advances s (after dao s call)
  unfolding after
  after-Advances (creates o) s = create_order-Advances o s
  after-Advances (pays_for now id transaction) s =
      pay-Advances now id transaction s _ (checked-row id s _ refl)
  after-Advances (cancels_order now id) s = cancel-Advances now id s _ (checked-row id s _ refl)
  after-Advances (refunds_order now id amount) s =
      refund-Advances now id amount s _ (checked-row id s _ refl)

  run-Advances : (calls : List Call) (s : S) → Advances s (run dao s calls)
  unfolding run after
  run-Advances [] s = Advances-refl s
  run-Advances (call ∷ calls) s =
      Advances-trans s (after dao s call) (run dao (after dao s call) calls) (after-Advances call s)
        (run-Advances calls (after dao s call))

  -- Over a DAO that meets `IsOrderDao`, whatever calls fail, an order in the table is still there
  -- after any history of CreateOrder, ProcessPayment, CancelOrder and RefundOrder. Its status went
  -- only from pending to paid or cancelled, and from paid to refunded. No other field has
  -- changed but the time of payment: the table never gets the transaction, nor the time and the
  -- amount of a refund.
  pub run-IsLater :
      (calls : List Call) (s : S) (id : List ℕ) (o : Order)
      → row s id ≡ some o
      → (n : Order) × (row (run dao s calls) id ≡ some n) × IsLater o n
  unfolding Advances
  run-IsLater calls s id o e = run-Advances calls s id o e
