-- ===== src/Data/Tests/Game.antt =====
-- A request to create an item, through the router and the handler of a game.
use data_middleware.Prelude.{pos, [], ◌∷◌, Option, some, none, refl, string_eq}
use data_middleware.Protocol.Types.{message_type_item_operation}
use data_middleware.Routing.{Request, Router, route}
use data_middleware.Business.Handler.{op_create}
use data_middleware.Business.Handler.Game.{Bodies, Draws, World, Payload, ItemBody, game_handler}
use data_middleware.Business.Handler.Replies.{IsAnswer, codes}
use data_middleware.Business.Handler.Routed.{route-IsAnswer}
use data_middleware.Business.Items.{Item}
use data_middleware.Business.Orders.{Order}
use data_middleware.Business.Players.{Player}
use data_middleware.Data.Items.{item_key, item_dao}
use data_middleware.Data.Orders.{order_key, order_dao}
use data_middleware.Data.Players.{Account, PlayerSession, player_key, session_key}
use data_middleware.Data.Tests.OneRow.{one_row}
use data_middleware.Data.Tests.Sessions.{lib, clock}

abbrev Tables : Type 0
Tables = World (Option (Player Account)) (Option PlayerSession) (Option Item) (Option Order)

abbrev body : ItemBody
body = record {
  user_id = 1 ∷ [];
  operation = op_create;
  item_id = [];
  name = 2 ∷ [];
  kind = 3 ∷ [];
  category = [];
  quantity = pos 4;
  to_user_id = [];
}

abbrev bodies : Bodies
bodies = record {
  login_body = λ b. none;
  logout_body = λ b. none;
  item_body = λ b. some body;
  order_body = λ b. none;
}

abbrev draws : Draws
draws = record { clock = clock; random = none; new_id = 9 ∷ [] }

abbrev request : Request
request = record {
  id = 5 ∷ [];
  type = message_type_item_operation;
  game_id = 6 ∷ [];
  user_id = 1 ∷ [];
  data_ = [];
  timestamp = 7;
}

abbrev router : Router Tables Payload
router = record {
  handlers =
      (
        6 ∷ [],
        game_handler lib (one_row player_key) (one_row session_key) (item_dao (one_row item_key))
            (order_dao (one_row order_key)) bodies draws,
      )
      ∷ [];
}

abbrev empty : Tables
empty = record { accounts = (none, none); items = none; orders = none }

route-IsAnswer_example :
    IsAnswer request empty (codes message_type_item_operation) (route request router empty)
route-IsAnswer_example =
    route-IsAnswer lib (one_row player_key) (one_row session_key) (item_dao (one_row item_key))
      (order_dao (one_row order_key)) bodies draws request router empty refl
