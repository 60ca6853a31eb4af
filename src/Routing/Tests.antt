-- ===== src/Routing/Tests.antt =====
-- The router on concrete inputs.
use data_middleware.Prelude.{ℕ, ◌+◌, ◌≡◌, List, [], ◌∷◌, length, none, some, arith}
use data_middleware.Prelude.Bytes.{crc32}
use data_middleware.Protocol.Types.{Message, flag_none}
use data_middleware.Protocol.Binary.{encode, decode, decoded}
use data_middleware.Protocol.Binary.Frame.{covered}
use data_middleware.Protocol.Binary.RoundTrip.{Fits}
use data_middleware.Routing.{
  Request, Response, answered, GameHandler, new_router, route, create_tcp_response,
}
use data_middleware.Routing.Registry.{
  Call, registers, unregisters, run, registered, Decided, route-run,
}
use data_middleware.Routing.Reply.{decode-create_tcp_response}

-- A handler that counts the requests, and echoes their data.
abbrev echo : GameHandler ℕ (List ℕ)
echo = record {
  handle = λ game req n. (
    n + 1,
    answered
        (record { id = req.id; code = 0; message = []; payload = some req.data_; timestamp = 6 }),
  );
  supported = 5 ∷ 7 ∷ [];
}

abbrev request : Request
request = record {
  id = 1 ∷ [];
  type = 7;
  game_id = 103 ∷ [];
  user_id = 117 ∷ [];
  data_ = 9 ∷ [];
  timestamp = 0;
}

abbrev history : List (Call ℕ (List ℕ))
history = registers (103 ∷ []) echo ∷ unregisters (104 ∷ []) ∷ registers (103 ∷ []) echo ∷ []

route-run_example :
    Decided request 2
      (registered (103 ∷ []) none history)
      (route request (run new_router history) 2)
route-run_example = route-run history request 2

abbrev login : Message
login = record {
  header = record {
    version = 1;
    type = 0x1001;
    flags = 0;
    sequence_id = 5;
    game_id = 103 ∷ [];
    user_id = 117 ∷ [];
    timestamp = 9;
    body_length = 0;
    checksum = 0;
  };
  body = [];
}

login-Fits : Fits login
login-Fits = record {
  header_fits = record {
    version_fits = omega arith;
    type_fits = omega arith;
    flags_fits = omega arith;
    sequence_id_fits = omega arith;
    timestamp_fits = omega arith;
  };
  game_id_fits = omega arith;
  user_id_fits = omega arith;
  body_fits = omega arith;
}

abbrev welcome : Response (List ℕ)
welcome = record { id = 1 ∷ []; code = 0; message = []; payload = none; timestamp = 6 }

abbrev code_only : Response (List ℕ) → List ℕ
code_only resp = resp.code ∷ []

decode-create_tcp_response_example :
    decode (encode (create_tcp_response code_only login welcome)).0
    ≡ decoded
        (record {
          header = record {
            version = 1;
            type = 0x1001;
            flags = flag_none;
            sequence_id = 5;
            game_id = 103 ∷ [];
            user_id = 117 ∷ [];
            timestamp = 6;
            body_length = 1;
            checksum = crc32 (covered (create_tcp_response code_only login welcome));
          };
          body = 0 ∷ [];
        })
        (length (encode (create_tcp_response code_only login welcome)).0)
decode-create_tcp_response_example =
    decode-create_tcp_response code_only login welcome login-Fits (omega arith) (omega arith)
