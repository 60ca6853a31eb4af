-- ===== src/Routing.antt =====
-- internal/router/router.go: Router and MessageRouter without a TCP router of its own. A handler
-- is code of a game: what it does to the world is a parameter. json.Marshal and the identifier
-- that fmt.Sprintf makes are parameters too.
pub mod Registry
pub mod Reply
mod Tests
use data_middleware.Prelude.{
  ℕ, ◌%◌, ◌^◌, Bool, true, false, List, [], ◌∷◌, length, ◌==◌, if◌then◌else◌, Option, none, some,
  string_eq,
}
use data_middleware.Prelude.Assoc.{lookup, insert, delete}
use data_middleware.Protocol.Types.{Message, MessageHeader, flag_none}

-- A request; its own time stamp and the client's address stay at Go's zero values in this code.
pub record Request : Type 0 where
  pub id : List ℕ
  pub type : ℕ
  pub game_id : List ℕ
  pub user_id : List ℕ
  pub data_ : List ℕ
  pub timestamp : ℕ

-- A response; its data is a value that only json.Marshal looks at.
pub record Response (D : Type 0) : Type 0 where
  pub id : List ℕ
  pub code : ℕ
  pub message : List ℕ
  pub payload : Option D
  pub timestamp : ℕ

pub data Routed (D : Type 0) : Type 0 where
  answered : Response D → Routed D
  handler_failed : Routed D

-- `Handle` and `GetSupportedMessageTypes`.
pub record GameHandler (W D : Type 0) : Type 0 where
  pub handle : List ℕ → Request → W → W × Routed D
  pub supported : List ℕ

pub record Router (W D : Type 0) : Type 0 where
  pub handlers : List (List ℕ × GameHandler W D)

abbrev pub game_missing : ℕ
game_missing = 4004

abbrev pub type_unsupported : ℕ
type_unsupported = 4005

-- The loop of `supportsMessageType`.
unfoldable pub supports : List ℕ → ℕ → Bool
supports [] type = false
supports (t ∷ types) type = if t == type then true else supports types type

-- The text of the two refusals, which no code looks at, is left empty.
abbrev pub refused_with : {D : Type 0} → ℕ → Request → Response D
refused_with code req = record {
  id = req.id;
  code = code;
  message = [];
  payload = none;
  timestamp = req.timestamp;
}

-- `createTCPResponse`.
unfoldable pub create_tcp_response :
    {D : Type 0} → (Response D → List ℕ) → Message → Response D → Message
create_tcp_response marshal msg resp =
    let body = marshal resp in
    record {
      header = record {
        version = msg.header.version;
        type = msg.header.type;
        flags = flag_none;
        sequence_id = msg.header.sequence_id;
        game_id = msg.header.game_id;
        user_id = msg.header.user_id;
        timestamp = resp.timestamp;
        body_length = length body % 2 ^ 32;
        checksum = 0;
      };
      body = body;
    }

abbrev pub request_of : (List ℕ → ℕ → List ℕ) → List ℕ → Message → Request
request_of make_id conn_id msg = record {
  id = make_id conn_id msg.header.sequence_id;
  type = msg.header.type;
  game_id = msg.header.game_id;
  user_id = msg.header.user_id;
  data_ = msg.body;
  timestamp = 0;
}

module _ {W D : Type 0} where
  unfoldable pub new_router : Router W D
  new_router = record { handlers = [] }

  -- Whether the registration is accepted.
  unfoldable pub register_handler : List ℕ → GameHandler W D → Router W D → Router W D × Bool
  register_handler game handler r = elim (lookup game r.handlers) [
    | some _ ↦ (r, false)
    | none ↦ (record r { handlers = insert game handler r.handlers }, true)
  ]

  unfoldable pub unregister_handler : List ℕ → Router W D → Router W D
  unregister_handler game r = elim (lookup game r.handlers) [
    | some _ ↦ record r { handlers = delete game r.handlers }
    | none ↦ r
  ]

  -- `Route`, from what the map has.
  unfoldable pub dispatch : Request → W → Option (GameHandler W D) → W × Routed D
  unfolding supports
  dispatch req world none = (world, answered (refused_with game_missing req))
  dispatch req world (some h) =
      if supports h.supported req.type
      then h.handle req.game_id req world
      else (world, answered (refused_with type_unsupported req))

  abbrev pub route : Request → Router W D → W → W × Routed D
  route req r world = dispatch req world (lookup req.game_id r.handlers)

  -- The end of `RouteTCPMessage`; `none` is the handler's error.
  abbrev pub reply : (Response D → List ℕ) → Message → W × Routed D → W × Option Message
  reply marshal msg (world, handler_failed) = (world, none)
  reply marshal msg (world, answered resp) = (world, some (create_tcp_response marshal msg resp))

  unfoldable pub route_tcp_message :
      (List ℕ → ℕ → List ℕ)
      → (Response D → List ℕ)
      → List ℕ
      → Message
      → Router W D
      → W
      → W × Option Message
  route_tcp_message make_id marshal conn_id msg r world =
      reply marshal msg (route (request_of make_id conn_id msg) r world)
