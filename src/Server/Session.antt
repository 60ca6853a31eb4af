-- ===== src/Server/Session.antt =====
-- tcp_server.go: a connection against the session of its player.
use mathlib.Core.List.{flatten}
use data_middleware.Prelude.{
  ℕ, ◌≡◌, refl, ap, ◌∙◌, Bool, true, false, not, ◌||◌, List, [], ◌∷◌, map, Option, none, some, ◌==◌,
  if◌then◌else◌, list_beq, Bool-cases, inl, inr,
}
use data_middleware.Protocol.Types.{
  Message, ConnectionConfig, message_type_heartbeat, message_type_handshake,
  message_type_player_login, message_type_player_logout,
}
use data_middleware.Protocol.Binary.{encode}
use data_middleware.Protocol.Binary.RoundTrip.{Fits, received}
use data_middleware.Protocol.Connection.{
  Connection, new_connection, start, is_active, is_authenticated, authenticate, update_heartbeat,
  send_message, Read, bytes, message, read_message,
}
use data_middleware.Protocol.Connection.Reading.{read_message-Delivers}
use data_middleware.Protocol.Connection.Identity.{
  SameIdentity, send_message-SameIdentity, read_message-SameIdentity,
}
use data_middleware.Server.{
  Marshal, missing_identity, not_authenticated, unknown_message_type, create_heartbeat_message,
  create_handshake_message, create_error_message, send, handle_heartbeat, handle_handshake,
  handle_player_login, handle_player_logout, handle_unknown_message, handle_message, Round,
  reads_at, handle_connection_loop,
}

-- The game and the user that a connection has named, if it has.
abbrev pub Session : Type 0
Session = Option (List ℕ × List ℕ)

abbrev pub session_of : Connection → Session
session_of c = if is_authenticated c then some (c.info.game_id, c.info.user_id) else none

module _ (json : Marshal) (now : ℕ) where
  -- The session after a handshake, and the answer to it.
  unfoldable pub greet : Session → Message → Session × Option Message
  greet s m =
      let game_id = m.header.game_id in
      let user_id = m.header.user_id in
      if list_beq game_id [] || list_beq user_id []
      then (s, some (create_error_message json now 4001 missing_identity m.header.sequence_id))
      else (
        some (game_id, user_id),
        some (create_handshake_message json now game_id user_id m.header.sequence_id),
      )

  -- Without a session, the answer to a login or a logout is an error.
  unfoldable pub admit : Session → Message → Session × Option Message
  admit none m =
      (none, some (create_error_message json now 4002 not_authenticated m.header.sequence_id))
  admit (some who) m = (some who, none)

  unfoldable pub respond : Session → Message → Session × Option Message
  respond s m =
      let type_ = m.header.type in
      if type_ == message_type_heartbeat
      then (s, some (create_heartbeat_message now m.header.sequence_id))
      else if type_ == message_type_handshake
      then greet s m
      else if type_ == message_type_player_login || type_ == message_type_player_logout
      then admit s m
      else (s, some (create_error_message json now 4003 unknown_message_type m.header.sequence_id))

-- A message, the time of its reading, and the pieces in which it arrives.
pub record Delivery : Type 0 where
  pub at_time : ℕ
  pub sent_message : Message
  pub pieces : List (List ℕ)

pub record IsDelivery (d : Delivery) : Type 0 where
  pub fits : Fits d.sent_message
  pub complete : flatten d.pieces ≡ (encode d.sent_message).0

abbrev pub AllDelivered : List Delivery → Type 0
AllDelivered [] = Unit
AllDelivered (d ∷ ds) = IsDelivery d × AllDelivered ds

abbrev pub rounds_of : List Delivery → List Round
rounds_of [] = []
rounds_of (d ∷ ds) = reads_at d.at_time (map bytes d.pieces) ∷ rounds_of ds

-- The answers to the messages in turn.
unfoldable pub answers : Marshal → Session → List Delivery → List (Option Message)
answers json s [] = []
answers json s (d ∷ ds) =
    let (next, answer) = respond json d.at_time s d.sent_message in answer ∷ answers json next ds

record IsReady (c : Connection) : Type 0 where
  active : is_active c.state ≡ true
  drained : c.read_buffer ≡ []

-- A connection and an answer, against a session and an answer.
record Agrees (x : Connection × Option Message) (y : Session × Option Message) : Type 0 where
  ready : IsReady x.0
  in_session : session_of x.0 ≡ y.0
  same_answer : x.1 ≡ y.1

if_Agrees :
    (b : Bool) (x y : Connection × Option Message) (u v : Session × Option Message)
    → Agrees x u
    → Agrees y v
    → Agrees (if b then x else y) (if b then u else v)
if_Agrees true x y u v p q = p
if_Agrees false x y u v p q = q

either-Agrees :
    (a b : Bool) (x y z : Connection × Option Message) (u v : Session × Option Message)
    → Agrees x u
    → Agrees y u
    → Agrees z v
    → Agrees (if a then x else if b then y else z) (if a || b then u else v)
either-Agrees true b x y z u v p q r = p
either-Agrees false true x y z u v p q r = q
either-Agrees false false x y z u v p q r = r

SameIdentity-session_of : (c d : Connection) → SameIdentity c d → session_of d ≡ session_of c
SameIdentity-session_of c d h = rw (h.state_kept, h.game_id_kept, h.user_id_kept) refl

module _ (json : Marshal) (write : List ℕ → ℕ × Bool) (now : ℕ) where
  send-Agrees :
      (c : Connection) (r : Message) (s : Session)
      → IsReady c
      → session_of c ≡ s
      → Agrees (send json write now c r) (s, some r)
  send-Agrees c r s h e =
      let (k, b) = send_message-SameIdentity now write c r in
      record {
        ready = record { active = ap is_active k.state_kept ∙ h.active; drained = b ∙ h.drained };
        in_session = SameIdentity-session_of c (send_message now write c r).0 k ∙ e;
        same_answer = refl;
      }

  admit-Agrees :
      (c : Connection) (m : Message)
      → IsReady c
      → Agrees
          (if not (is_authenticated c)
            then send json write now c
                (create_error_message json now 4002 not_authenticated m.header.sequence_id)
            else (c, none))
          (admit json now (session_of c) m)
  unfolding admit
  admit-Agrees c m h = elim (Bool-cases (is_authenticated c)) [
    | inl y ↦ rw y (record { ready = h; in_session = rw y refl; same_answer = refl })
    | inr n ↦ rw n (
        send-Agrees c (create_error_message json now 4002 not_authenticated m.header.sequence_id)
          none h (rw n refl))
  ]

  greet-Agrees :
      (c : Connection) (m : Message)
      → IsReady c
      → Agrees (handle_handshake json write now c m) (greet json now (session_of c) m)
  unfolding greet handle_handshake authenticate
  greet-Agrees c m h =
      let g = m.header.game_id in
      let u = m.header.user_id in
      if_Agrees (list_beq g [] || list_beq u []) _ _ _ _ (send-Agrees c _ (session_of c) h refl) (
        send-Agrees (authenticate g u c) _ (some (g, u))
          (record { active = refl; drained = h.drained }) refl)

  respond-Agrees :
      (c : Connection) (m : Message)
      → IsReady c
      → Agrees (handle_message json write now c m) (respond json now (session_of c) m)
  unfolding respond handle_message handle_heartbeat handle_player_login handle_player_logout
      handle_unknown_message update_heartbeat
  respond-Agrees c m h =
      let type_ = m.header.type in
      if_Agrees (type_ == message_type_heartbeat) _ _ _ _
        (send-Agrees (update_heartbeat now c) _ (session_of c)
          (record { active = h.active; drained = h.drained }) refl)
        (if_Agrees (type_ == message_type_handshake) _ _ _ _ (greet-Agrees c m h) (
          either-Agrees (type_ == message_type_player_login) (type_ == message_type_player_logout) _
            _ _ _ _ (admit-Agrees c m h) (admit-Agrees c m h)
            (send-Agrees c _ (session_of c) h refl)))

module _ (json : Marshal) (write : List ℕ → ℕ × Bool) where
  loop_message :
      (now : ℕ) (reads : List Read) (rounds : List Round) (c : Connection) (m : Message)
      → (read_message now c reads).1 ≡ message m
      → (handle_connection_loop json write (reads_at now reads ∷ rounds) c).1 ≡ (
          let next = handle_message json write now (read_message now c reads).0 m in
          next.1 ∷ (handle_connection_loop json write rounds next.0).1)
  unfolding handle_connection_loop
  loop_message now reads rounds c m e = rw (e, handle_connection_loop) refl

  respond-received :
      (now : ℕ) (s : Session) (m : Message) → respond json now s (received m) ≡ respond json now s m
  unfolding respond greet admit
  respond-received now none m = refl
  respond-received now (some who) m = refl

  loop-answers :
      (ds : List Delivery) (c : Connection)
      → AllDelivered ds
      → IsReady c
      → (handle_connection_loop json write (rounds_of ds) c).1 ≡ answers json (session_of c) ds
  unfolding answers handle_connection_loop
  loop-answers [] c all h = refl
  loop-answers (d ∷ ds) c (g, all) h =
      let m = d.sent_message in
      let now = d.at_time in
      let reads = map bytes d.pieces in
      let after = (read_message now c reads).0 in
      let got_ = read_message-Delivers m now c d.pieces g.fits h.active h.drained g.complete in
      let same_ = read_message-SameIdentity now c reads in
      let ready_ : IsReady after = record {
        active = ap is_active same_.state_kept ∙ h.active;
        drained = got_.emptied;
      } in
      let a = respond-Agrees json write now after (received m) ready_ in
      let s : session_of after ≡ session_of c = SameIdentity-session_of c after same_ in
      let r : respond json now (session_of after) (received m) ≡ respond json now (session_of c) m =
        ap (λ t. respond json now t (received m)) s ∙ respond-received now (session_of c) m in
      let next = (handle_message json write now after (received m)).0 in
      let rest = loop-answers ds next all a.ready in
      let answer_is = a.same_answer ∙ ap (λ x. x.1) r in
      let session_is = a.in_session ∙ ap (λ x. x.0) r in
      loop_message now reads (rounds_of ds) c (received m) got_.returned
      ∙ ap (λ x. x ∷ (handle_connection_loop json write (rounds_of ds) next).1) answer_is
      ∙ ap (λ l. (respond json now (session_of c) m).1 ∷ l)
          (rest ∙ ap (λ t. answers json t ds) session_is)

  -- Over a connection that the server has just started, messages that fit and arrive one after the
  -- other, each by reads of its own that cut it anywhere, are answered as the session demands: a
  -- heartbeat by one with its sequence number; a handshake that names a game and a user by a
  -- handshake, and the session is theirs from then on, while one that lacks either gets error 4001;
  -- a login or a logout by error 4002 before there is a session, and by nothing after; and any other
  -- type by error 4003.
  pub handle_connection_loop-answers :
      (id : List ℕ) (now : ℕ) (config : ConnectionConfig) (ds : List Delivery)
      → AllDelivered ds
      → (handle_connection_loop json write (rounds_of ds) (start (new_connection id now config))).1
        ≡ answers json none ds
  unfolding start new_connection
  handle_connection_loop-answers id now config ds all =
      loop-answers ds (start (new_connection id now config)) all
        (record { active = refl; drained = refl })
