-- ===== src/Routing/Reply.antt =====
-- router.go: the replies of RouteTCPMessage on the wire.
use data_middleware.Prelude.{ℕ, ◌≡◌, ◌<◌, List, length, arith}
use data_middleware.Prelude.Bytes.{crc32}
use data_middleware.Protocol.Types.{Message, flag_none}
use data_middleware.Protocol.Binary.{encode, decode, decoded}
use data_middleware.Protocol.Binary.Frame.{covered}
use data_middleware.Protocol.Binary.RoundTrip.{Fits, decode-encode}
use data_middleware.Routing.{Response, create_tcp_response}

-- A client that is sent the response to its message decodes it to a message with the request's
-- version, type, sequence number, game and user, no flags, the response's time stamp and its
-- marshalled form as the body, of the announced length. The request's strings and header, the time
-- stamp and the marshalled response have to fit the format.
pub decode-create_tcp_response :
    {D : Type 0} (marshal : Response D → List ℕ) (msg : Message) (resp : Response D)
    → Fits msg
    → resp.timestamp < 18446744073709551616
    → length (marshal resp) < 4294967296
    → let reply = create_tcp_response marshal msg resp in
      decode (encode reply).0
      ≡ decoded
          (record {
            header = record {
              version = msg.header.version;
              type = msg.header.type;
              flags = flag_none;
              sequence_id = msg.header.sequence_id;
              game_id = msg.header.game_id;
              user_id = msg.header.user_id;
              timestamp = resp.timestamp;
              body_length = length (marshal resp);
              checksum = crc32 (covered reply);
            };
            body = marshal resp;
          })
          (length (encode reply).0)
unfolding create_tcp_response
decode-create_tcp_response marshal msg resp f t b =
    decode-encode (create_tcp_response marshal msg resp) (record {
      header_fits = record {
        version_fits = f.header_fits.version_fits;
        type_fits = f.header_fits.type_fits;
        flags_fits = omega arith;
        sequence_id_fits = f.header_fits.sequence_id_fits;
        timestamp_fits = t;
      };
      game_id_fits = f.game_id_fits;
      user_id_fits = f.user_id_fits;
      body_fits = b;
    })
