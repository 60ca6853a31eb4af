-- ===== src/Business/Handler/Game.antt =====
-- internal/business/common/game_handler.go: GameHandler.Handle, over the services on players, items
-- and orders. json.Unmarshal is a parameter for each form of request. The texts of the replies are
-- left out. What a request draws from the clock and from the source of randomness are arguments.
use data_middleware.Prelude.{ℕ, ℤ, List, [], ◌∷◌, Option, none, some, list_beq, ◌==◌, if◌then◌else◌}
use data_middleware.Protocol.Types.{
  message_type_player_login, message_type_player_logout, message_type_item_operation,
  message_type_order_operation,
}
use data_middleware.Routing.{Request, Response, answered, GameHandler}
use data_middleware.Business.Players.{Player}
use data_middleware.Business.Items.{Item, ItemDao, ItemError, consume_item, transfer_item}
use data_middleware.Business.Items.Batch.{
  ItemRequest, ItemResult, created, not_created, create_item,
}
use data_middleware.Business.Orders.{Order, OrderDao}
use data_middleware.Business.Handler.{OrderRequest, op_create, handle_order_operation}
use data_middleware.Data.Table.{Table}
use data_middleware.Data.Players.{Account, PlayerSession}
use data_middleware.Business.Sessions.{
  Libraries, ServiceError, Result, ok, failed, LoginRequest, LoginResult, Readings,
}
use data_middleware.Business.Sessions.Login.{login_player, logout_player}

pub record LoginBody : Type 0 where
  pub user_id : List ℕ
  pub device_id : List ℕ
  pub platform : List ℕ
  pub version : List ℕ

pub record LogoutBody : Type 0 where
  pub user_id : List ℕ
  pub session_id : List ℕ

pub record ItemBody : Type 0 where
  pub user_id : List ℕ
  pub operation : List ℕ
  pub item_id : List ℕ
  pub name : List ℕ
  pub kind : List ℕ
  pub category : List ℕ
  pub quantity : ℤ
  pub to_user_id : List ℕ

-- `consume` and `transfer`
abbrev pub op_consume : List ℕ
op_consume = 99 ∷ 111 ∷ 110 ∷ 115 ∷ 117 ∷ 109 ∷ 101 ∷ []

abbrev pub op_transfer : List ℕ
op_transfer = 116 ∷ 114 ∷ 97 ∷ 110 ∷ 115 ∷ 102 ∷ 101 ∷ 114 ∷ []

-- The data of a reply.
pub data Payload : Type 0 where
  logged_in_as : LoginResult → Payload
  the_item : Item → Payload
  the_order : Order → Payload

pub record Bodies : Type 0 where
  pub login_body : List ℕ → Option LoginBody
  pub logout_body : List ℕ → Option LogoutBody
  pub item_body : List ℕ → Option ItemBody
  pub order_body : List ℕ → Option OrderRequest

pub record Draws : Type 0 where
  pub clock : Readings
  pub random : Option (List ℕ)
  pub new_id : List ℕ

-- The tables that the services write.
pub record World (P Q I O : Type 0) : Type 0 where
  pub accounts : P × Q
  pub items : I
  pub orders : O

abbrev pub reply_with : ℕ → Option Payload → Request → Response Payload
reply_with code payload req = record {
  id = req.id;
  code = code;
  message = [];
  payload = payload;
  timestamp = req.timestamp;
}

abbrev pub order_payload : Option Order → Option Payload
order_payload none = none
order_payload (some o) = some (the_order o)

abbrev pub supported_message_types : List ℕ
supported_message_types =
    message_type_player_login ∷ message_type_player_logout ∷ message_type_item_operation
    ∷ message_type_order_operation ∷ []

module _ {P Q I O : Type 0} where
  -- The ends of the handlers: the reply to a service's answer.
  unfoldable pub login_reply :
      Request → World P Q I O → (P × Q) × Result LoginResult → World P Q I O × Response Payload
  login_reply req w (a, ok result) =
      (record w { accounts = a }, reply_with 0 (some (logged_in_as result)) req)
  login_reply req w (a, failed e) = (record w { accounts = a }, reply_with 5001 none req)

  unfoldable pub logout_reply :
      Request → World P Q I O → (P × Q) × Option ServiceError → World P Q I O × Response Payload
  logout_reply req w (a, none) = (record w { accounts = a }, reply_with 0 none req)
  logout_reply req w (a, some e) = (record w { accounts = a }, reply_with 5002 none req)

  unfoldable pub created_reply :
      Request → World P Q I O → I × ItemResult → World P Q I O × Response Payload
  created_reply req w (i, created o) =
      (record w { items = i }, reply_with 0 (some (the_item o)) req)
  created_reply req w (i, not_created e) = (record w { items = i }, reply_with 5003 none req)

  unfoldable pub item_reply :
      ℕ → Request → World P Q I O → I × Option ItemError → World P Q I O × Response Payload
  item_reply code req w (i, none) = (record w { items = i }, reply_with 0 none req)
  item_reply code req w (i, some e) = (record w { items = i }, reply_with code none req)

  unfoldable pub order_reply :
      Request → World P Q I O → O × Response Order → World P Q I O × Response Payload
  order_reply req w (o, r) = (
    record w { orders = o },
    record {
      id = r.id;
      code = r.code;
      message = r.message;
      payload = order_payload r.payload;
      timestamp = r.timestamp;
    },
  )

module _ (lib : Libraries) {P Q I O : Type 0} (t : Table (Player Account) P)
    (u : Table PlayerSession Q) (items : ItemDao I) (orders : OrderDao O) (bodies : Bodies) where
  -- handlePlayerLogin, from what is unmarshalled.
  abbrev pub login_with :
      Draws → Request → World P Q I O → Option LoginBody → World P Q I O × Response Payload
  login_with d req w none = (w, reply_with 4002 none req)
  login_with d req w (some b) =
      let r : LoginRequest = record {
        game_id = req.game_id;
        device_id = b.device_id;
        platform = b.platform;
        version = b.version;
      } in
      login_reply req w (login_player lib t u d.clock b.user_id r d.random w.accounts)

  unfoldable pub handle_player_login :
      Draws → Request → World P Q I O → World P Q I O × Response Payload
  handle_player_login d req w = login_with d req w (bodies.login_body req.data_)

  -- handlePlayerLogout, from what is unmarshalled.
  abbrev pub logout_with :
      Request → World P Q I O → Option LogoutBody → World P Q I O × Response Payload
  logout_with req w none = (w, reply_with 4002 none req)
  logout_with req w (some b) =
      logout_reply req w (logout_player u b.user_id b.session_id w.accounts)

  unfoldable pub handle_player_logout : Request → World P Q I O → World P Q I O × Response Payload
  handle_player_logout req w = logout_with req w (bodies.logout_body req.data_)

  -- The switch over the operation on items.
  unfoldable pub operate_item :
      Draws → Request → World P Q I O → ItemBody → World P Q I O × Response Payload
  operate_item d req w b =
      let r : ItemRequest = record {
        new_id = d.new_id;
        name = b.name;
        kind = b.kind;
        category = b.category;
        quantity = b.quantity;
      } in
      if list_beq b.operation op_create
      then created_reply req w (create_item items b.user_id req.game_id r w.items)
      else if list_beq b.operation op_consume
      then item_reply 5004 req w (consume_item items b.item_id b.quantity w.items)
      else if list_beq b.operation op_transfer
      then item_reply 5005 req w
          (transfer_item items b.item_id b.user_id b.to_user_id d.new_id b.quantity w.items)
      else (w, reply_with 4003 none req)

  -- handleItemOperation, from what is unmarshalled.
  abbrev pub item_with :
      Draws → Request → World P Q I O → Option ItemBody → World P Q I O × Response Payload
  item_with d req w none = (w, reply_with 4002 none req)
  item_with d req w (some b) = operate_item d req w b

  unfoldable pub handle_item_operation :
      Draws → Request → World P Q I O → World P Q I O × Response Payload
  handle_item_operation d req w = item_with d req w (bodies.item_body req.data_)

  unfoldable pub handle : Draws → Request → World P Q I O → World P Q I O × Response Payload
  handle d req w =
      if req.type == message_type_player_login
      then handle_player_login d req w
      else if req.type == message_type_player_logout
      then handle_player_logout req w
      else if req.type == message_type_item_operation
      then handle_item_operation d req w
      else if req.type == message_type_order_operation
      then order_reply req w
          (handle_order_operation orders bodies.order_body d.clock.now d.new_id req w.orders)
      else (w, reply_with 4001 none req)

  -- The handler as the router knows it.
  abbrev pub game_handler : Draws → GameHandler (World P Q I O) Payload
  game_handler d = record {
    handle = λ game req w. let r = handle d req w in (r.0, answered r.1);
    supported = supported_message_types;
  }
