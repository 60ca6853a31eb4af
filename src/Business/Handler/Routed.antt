-- ===== src/Business/Handler/Routed.antt =====
-- game_handler.go behind router.go: the requests of a game on their way through both.
use data_middleware.Prelude.{
  ◌≡◌, refl, true, false, [], ◌∷◌, Option, none, some, list_beq, ◌==◌, Bool-cases, inl, inr, arith,
  string_eq,
}
use data_middleware.Prelude.Assoc.{lookup}
use data_middleware.Protocol.Types.{
  message_type_player_login, message_type_player_logout, message_type_item_operation,
  message_type_order_operation,
}
use data_middleware.Routing.{Request, Router, supports, dispatch, route}
use data_middleware.Business.Orders.{OrderDao}
use data_middleware.Business.Players.{Player}
use data_middleware.Business.Items.{ItemDao, consume_item, transfer_item}
use data_middleware.Business.Items.Batch.{ItemRequest, create_item}
use data_middleware.Business.Handler.{op_create, handle_order_operation}
use data_middleware.Business.Handler.Game.{
  Bodies, Draws, World, Payload, LoginBody, LogoutBody, ItemBody, op_consume, op_transfer,
  login_with, logout_with, item_with, operate_item, handle_player_login, handle_player_logout,
  handle_item_operation, handle, game_handler,
}
use data_middleware.Data.Table.{Table}
use data_middleware.Data.Players.{Account, PlayerSession}
use data_middleware.Business.Sessions.{Libraries, LoginRequest}
use data_middleware.Business.Sessions.Login.{login_player, logout_player}
use data_middleware.Business.Handler.Replies.{
  codes, IsReply, IsAnswer, refused_at_once, flipped, order_codes, login_reply-IsReply,
  logout_reply-IsReply, created_reply-IsReply, item_reply-IsReply, order_reply-IsReply,
  handle_order_operation-IsReply,
}

module _ (lib : Libraries) {P Q I O : Type 0} (t : Table (Player Account) P)
    (u : Table PlayerSession Q) (items : ItemDao I) (orders : OrderDao O) (bodies : Bodies) where
  login_with-IsReply :
      (d : Draws) (req : Request) (w : World P Q I O) (b : Option LoginBody)
      → let x = login_with lib t u items orders bodies d req w b in
        IsReply req w (0 ∷ 4002 ∷ 5001 ∷ []) x.0 x.1
  login_with-IsReply d req w none = refused_at_once req w _ _ refl refl refl
  login_with-IsReply d req w (some b) =
      let r : LoginRequest = record {
        game_id = req.game_id;
        device_id = b.device_id;
        platform = b.platform;
        version = b.version;
      } in
      login_reply-IsReply req w (login_player lib t u d.clock b.user_id r d.random w.accounts)

  logout_with-IsReply :
      (req : Request) (w : World P Q I O) (b : Option LogoutBody)
      → let x = logout_with lib t u items orders bodies req w b in
        IsReply req w (0 ∷ 4002 ∷ 5002 ∷ []) x.0 x.1
  logout_with-IsReply req w none = refused_at_once req w _ _ refl refl refl
  logout_with-IsReply req w (some b) =
      logout_reply-IsReply req w (logout_player u b.user_id b.session_id w.accounts)

  operate_item-IsReply :
      (d : Draws) (req : Request) (w : World P Q I O) (b : ItemBody)
      → let x = operate_item lib t u items orders bodies d req w b in
        IsReply req w (0 ∷ 4002 ∷ 4003 ∷ 5003 ∷ 5004 ∷ 5005 ∷ []) x.0 x.1
  unfolding operate_item
  operate_item-IsReply d req w b =
      let r : ItemRequest = record {
        new_id = d.new_id;
        name = b.name;
        kind = b.kind;
        category = b.category;
        quantity = b.quantity;
      } in
      elim (Bool-cases (list_beq b.operation op_create)) [
        | inl y ↦
            rw y (created_reply-IsReply req w (create_item items b.user_id req.game_id r w.items))
        | inr n ↦ elim (Bool-cases (list_beq b.operation op_consume)) [
          | inl y ↦
              rw (n, y)
                (item_reply-IsReply req w 5004 (consume_item items b.item_id b.quantity w.items)
                  refl (omega arith))
          | inr m ↦ elim (Bool-cases (list_beq b.operation op_transfer)) [
            | inl y ↦
                rw (n, m, y)
                  (item_reply-IsReply req w 5005
                    (transfer_item items b.item_id b.user_id b.to_user_id d.new_id b.quantity
                      w.items)
                    refl (omega arith))
            | inr k ↦ rw (n, m, k) (refused_at_once req w _ _ refl refl refl)
          ]
        ]
      ]

  item_with-IsReply :
      (d : Draws) (req : Request) (w : World P Q I O) (b : Option ItemBody)
      → let x = item_with lib t u items orders bodies d req w b in
        IsReply req w (0 ∷ 4002 ∷ 4003 ∷ 5003 ∷ 5004 ∷ 5005 ∷ []) x.0 x.1
  item_with-IsReply d req w none = refused_at_once req w _ _ refl refl refl
  item_with-IsReply d req w (some b) = operate_item-IsReply d req w b

  supported-IsAnswer :
      (d : Draws) (req : Request) (w : World P Q I O)
      → IsAnswer req w
          (codes req.type)
          (dispatch req w (some (game_handler lib t u items orders bodies d)))
  unfolding dispatch supports handle handle_player_login handle_player_logout handle_item_operation
  supported-IsAnswer d req w = elim (Bool-cases (req.type == message_type_player_login)) [
    | inl y ↦
        rw (y, flipped req.type 4097 true y)
          (login_with-IsReply d req w (bodies.login_body req.data_))
    | inr a ↦ elim (Bool-cases (req.type == message_type_player_logout)) [
      | inl y ↦
          rw (a, flipped req.type 4097 false a, y, flipped req.type 4098 true y)
            (logout_with-IsReply req w (bodies.logout_body req.data_))
      | inr b ↦ elim (Bool-cases (req.type == message_type_item_operation)) [
        | inl y ↦
            rw
              (
                a,
                flipped req.type 4097 false a,
                b,
                flipped req.type 4098 false b,
                y,
                flipped req.type 4100 true y,
              )
              (item_with-IsReply d req w (bodies.item_body req.data_))
        | inr c ↦ elim (Bool-cases (req.type == message_type_order_operation)) [
          | inl y ↦
              rw
                (
                  a,
                  flipped req.type 4097 false a,
                  b,
                  flipped req.type 4098 false b,
                  c,
                  flipped req.type 4100 false c,
                  y,
                  flipped req.type 4101 true y,
                )
                (order_reply-IsReply req w order_codes
                  (handle_order_operation orders bodies.order_body d.clock.now d.new_id req
                    w.orders)
                  (handle_order_operation-IsReply orders bodies.order_body d.clock.now d.new_id req
                    w.orders))
          | inr e ↦
              rw
                (
                  a,
                  flipped req.type 4097 false a,
                  b,
                  flipped req.type 4098 false b,
                  c,
                  flipped req.type 4100 false c,
                  e,
                  flipped req.type 4101 false e,
                )
                (refused_at_once req w _ _ refl refl refl)
        ]
      ]
    ]
  ]

  -- Behind a router that has the handler of the game, every request gets an answer, with the
  -- request's identifier and time stamp and one of the codes of its type: a type that the handler does
  -- not support gets 4005 of the router, never 4001 of the handler; and nothing has changed, or the
  -- code is 0 or from 5000 on.
  pub route-IsAnswer :
      (d : Draws) (req : Request) (router : Router (World P Q I O) Payload) (w : World P Q I O)
      → lookup req.game_id router.handlers ≡ some (game_handler lib t u items orders bodies d)
      → IsAnswer req w (codes req.type) (route req router w)
  route-IsAnswer d req router w e = rw e (supported-IsAnswer d req w)
