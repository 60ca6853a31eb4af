-- ===== src/Business/Handler/Replies.antt =====
-- game_handler.go behind router.go: the replies to the requests of a game.
use data_middleware.Prelude.{
  ℕ, ◌≡◌, ◌≤◌, refl, ap, Bool, true, false, ◌||◌, List, [], ◌∷◌, Option, none, some, list_beq, ◌==◌,
  if◌then◌else◌, Bool-cases, Option-cases, ◌⊎◌, inl, inr, arith, string_eq,
}
use data_middleware.Protocol.Types.{
  message_type_player_login, message_type_player_logout, message_type_item_operation,
  message_type_order_operation,
}
use data_middleware.Routing.{Request, Response, Routed, answered, handler_failed}
use data_middleware.Business.Orders.{
  Order, OrderDao, Result, ok, failed, create_order, process_payment, cancel_order,
}
use data_middleware.Business.Items.{ItemError}
use data_middleware.Business.Items.Batch.{ItemResult, created, not_created}
use data_middleware.Business.Handler.{
  OrderRequest, op_create, op_pay, op_cancel, report, order_of, operate, handle_order_operation,
}
use data_middleware.Business.Handler.Game.{
  World, login_reply, logout_reply, created_reply, item_reply, order_reply,
}
use data_middleware.Business.Sessions
use data_middleware.Business.Sessions.{Libraries, ServiceError, LoginResult, LoginRequest}

abbrev pub elem : ℕ → List ℕ → Bool
elem n [] = false
elem n (m ∷ ms) = m == n || elem n ms

-- The codes of the replies to the requests of a type.
abbrev pub codes : ℕ → List ℕ
codes type =
    if type == message_type_player_login
    then 0 ∷ 4002 ∷ 5001 ∷ []
    else if type == message_type_player_logout
    then 0 ∷ 4002 ∷ 5002 ∷ []
    else if type == message_type_item_operation
    then 0 ∷ 4002 ∷ 4003 ∷ 5003 ∷ 5004 ∷ 5005 ∷ []
    else if type == message_type_order_operation
    then 0 ∷ 4002 ∷ 4003 ∷ 5006 ∷ 5007 ∷ 5008 ∷ []
    else 4005 ∷ []

-- A reply to a request, with one of some codes: nothing has changed, or the code is 0 or from 5000 on.
pub record IsReply {W D : Type 0} (req : Request) (w : W) (cs : List ℕ) (after : W) (r : Response D)
    : Type 0 where
  pub code_known : elem r.code cs ≡ true
  pub same_id : r.id ≡ req.id
  pub same_time : r.timestamp ≡ req.timestamp
  pub untouched : (after ≡ w) ⊎ ((r.code ≡ 0) ⊎ (5000 ≤ r.code))

abbrev pub IsAnswer : {W D : Type 0} → Request → W → List ℕ → W × Routed D → Type 0
IsAnswer req w cs (after, answered r) = IsReply req w cs after r
IsAnswer req w cs (after, handler_failed) = ⊥

-- A reply that a service's answer makes.
served :
    {W D : Type 0} {w : W} (req : Request) (cs : List ℕ) (after : W) (r : Response D)
    → elem r.code cs ≡ true
    → r.id ≡ req.id
    → r.timestamp ≡ req.timestamp
    → (r.code ≡ 0) ⊎ (5000 ≤ r.code)
    → IsReply req w cs after r
served req cs after r known id time served_by = record {
  code_known = known;
  same_id = id;
  same_time = time;
  untouched = inr served_by;
}

-- A reply that refuses a request before a service is called.
pub refused_at_once :
    {W D : Type 0} (req : Request) (w : W) (cs : List ℕ) (r : Response D)
    → elem r.code cs ≡ true
    → r.id ≡ req.id
    → r.timestamp ≡ req.timestamp
    → IsReply req w cs w r
refused_at_once req w cs r known id time = record {
  code_known = known;
  same_id = id;
  same_time = time;
  untouched = inl refl;
}

module _ {P Q I O : Type 0} (req : Request) (w : World P Q I O) where
  pub login_reply-IsReply :
      (r : (P × Q) × Sessions.Result LoginResult)
      → IsReply req w (0 ∷ 4002 ∷ 5001 ∷ []) (login_reply req w r).0 (login_reply req w r).1
  unfolding login_reply
  login_reply-IsReply (a, Sessions.ok result) = served req _ _ _ refl refl refl (inl refl)
  login_reply-IsReply (a, Sessions.failed e) = served req _ _ _ refl refl refl (inr (omega arith))

  pub logout_reply-IsReply :
      (r : (P × Q) × Option ServiceError)
      → IsReply req w (0 ∷ 4002 ∷ 5002 ∷ []) (logout_reply req w r).0 (logout_reply req w r).1
  unfolding logout_reply
  logout_reply-IsReply (a, none) = served req _ _ _ refl refl refl (inl refl)
  logout_reply-IsReply (a, some e) = served req _ _ _ refl refl refl (inr (omega arith))

  pub created_reply-IsReply :
      (r : I × ItemResult)
      → IsReply req w
          (0 ∷ 4002 ∷ 4003 ∷ 5003 ∷ 5004 ∷ 5005 ∷ [])
          (created_reply req w r).0
          (created_reply req w r).1
  unfolding created_reply
  created_reply-IsReply (i, created o) = served req _ _ _ refl refl refl (inl refl)
  created_reply-IsReply (i, not_created e) = served req _ _ _ refl refl refl (inr (omega arith))

  pub item_reply-IsReply :
      (code : ℕ) (r : I × Option ItemError)
      → elem code (0 ∷ 4002 ∷ 4003 ∷ 5003 ∷ 5004 ∷ 5005 ∷ []) ≡ true
      → 5000 ≤ code
      → IsReply req w
          (0 ∷ 4002 ∷ 4003 ∷ 5003 ∷ 5004 ∷ 5005 ∷ [])
          (item_reply code req w r).0
          (item_reply code req w r).1
  unfolding item_reply
  item_reply-IsReply code (i, none) known high = served req _ _ _ refl refl refl (inl refl)
  item_reply-IsReply code (i, some e) known high = served req _ _ _ known refl refl (inr high)

  pub order_reply-IsReply :
      (cs : List ℕ) (r : O × Response Order)
      → IsReply req w.orders cs r.0 r.1
      → IsReply req w cs (order_reply req w r).0 (order_reply req w r).1
  unfolding order_reply
  order_reply-IsReply cs (o, r) h = record {
    code_known = h.code_known;
    same_id = h.same_id;
    same_time = h.same_time;
    untouched = elim h.untouched [
      | inl same ↦ inl (ap (λ (x : O). record w { orders = x }) same)
      | inr code ↦ inr code
    ];
  }

pub flipped : (a b : ℕ) (c : Bool) → (a == b) ≡ c → (b == a) ≡ c
flipped a b true e = ground arith
flipped a b false e = ground arith

-- The codes of the replies to operations on orders.
abbrev pub order_codes : List ℕ
order_codes = 0 ∷ 4002 ∷ 4003 ∷ 5006 ∷ 5007 ∷ 5008 ∷ []

report-IsReply :
    {O : Type 0} (req : Request) (w : O) (code : ℕ) (r : O × Result)
    → elem code order_codes ≡ true
    → 5000 ≤ code
    → IsReply req w order_codes (report code req r).0 (report code req r).1
unfolding report
report-IsReply req w code (s, ok o) known high = served req _ _ _ refl refl refl (inl refl)
report-IsReply req w code (s, failed e) known high = served req _ _ _ known refl refl (inr high)

operate-IsReply :
    {O : Type 0} (dao : OrderDao O) (now : ℕ) (new_id : List ℕ) (req : Request) (r : OrderRequest)
    (s : O)
    → let x = operate dao now new_id req r s in IsReply req s order_codes x.0 x.1
unfolding operate
operate-IsReply dao now new_id req r s = elim (Bool-cases (list_beq r.operation op_create)) [
  | inl y ↦
      rw y
        (report-IsReply req s 5006 (create_order dao (order_of new_id req r) s) refl (omega arith))
  | inr n ↦ elim (Bool-cases (list_beq r.operation op_pay)) [
    | inl y ↦
        rw (n, y)
          (report-IsReply req s 5007 (process_payment dao now r.order_id r.transaction_id s) refl
            (omega arith))
    | inr m ↦ elim (Bool-cases (list_beq r.operation op_cancel)) [
      | inl y ↦
          rw (n, m, y)
            (report-IsReply req s 5008 (cancel_order dao now r.order_id s) refl (omega arith))
      | inr k ↦ rw (n, m, k) (refused_at_once req s order_codes _ refl refl refl)
    ]
  ]
]

pub handle_order_operation-IsReply :
    {O : Type 0} (dao : OrderDao O) (unmarshal : List ℕ → Option OrderRequest) (now : ℕ)
    (new_id : List ℕ) (req : Request) (s : O)
    → let x = handle_order_operation dao unmarshal now new_id req s in
      IsReply req s order_codes x.0 x.1
unfolding handle_order_operation
handle_order_operation-IsReply dao unmarshal now new_id req s =
    elim (Option-cases (unmarshal req.data_)) [
      | inl e ↦ rw (e, handle_order_operation) (refused_at_once req s order_codes _ refl refl refl)
      | inr (r, e) ↦ rw (e, handle_order_operation) (operate-IsReply dao now new_id req r s)
    ]
