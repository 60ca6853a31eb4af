-- ===== src/Protocol/Connection.antt =====
-- internal/protocol/connection.go. Times are nanoseconds, handed in where the source reads the
-- clock; what the network answers is an argument. Counters do not wrap. A method that holds the
-- lock is one step.
pub mod Heartbeat
pub mod Reading
pub mod Identity
use data_middleware.Prelude.{
  ℕ, ◌+◌, ◌-◌, ◌≤◌, ◌<◌, ◌≡◌, refl, Bool, true, false, List, [], ◌∷◌, ◌++◌, ltb, leb, ◌==◌,
  if◌then◌else◌, length, drop, Option, none, some,
}
use data_middleware.Protocol.Types.{
  Message, ConnectionState, connecting, connected, authenticated, closing, closed, ConnectionConfig,
  ConnectionInfo,
}
use data_middleware.Protocol.Binary.{
  DecodeError, Outcome, decoded, failed, encode, decode, is_insufficient_data_error,
}

-- `loops` counts the background loops that wait for `closeChan`; `conn_open` is the state of the
-- network connection.
pub record Connection : Type 0 where
  pub id : List ℕ
  pub conn_open : Bool
  pub state : ConnectionState
  pub info : ConnectionInfo
  pub config : ConnectionConfig
  pub loops : ℕ
  pub last_heartbeat : ℕ
  pub missed_heartbeats : ℕ
  pub read_buffer : List ℕ

unfoldable pub new_connection : List ℕ → ℕ → ConnectionConfig → Connection
new_connection id now config = record {
  id = id;
  conn_open = true;
  state = connecting;
  info = record {
    state = connecting;
    connected_at = now;
    last_activity = now;
    game_id = [];
    user_id = [];
    bytes_received = 0;
    bytes_sent = 0;
    messages_received = 0;
    messages_sent = 0;
  };
  config = config;
  loops = 0;
  last_heartbeat = now;
  missed_heartbeats = 0;
  read_buffer = [];
}

abbrev pub set_state : Connection → ConnectionState → Connection
set_state c s = record c { state = s; info = record (c.info) { state = s } }

abbrev pub update_activity : ℕ → Connection → Connection
update_activity now c = record c { info = record (c.info) { last_activity = now } }

-- `State == StateConnected || State == StateAuthenticated`
abbrev pub is_active : ConnectionState → Bool
is_active connecting = false
is_active connected = true
is_active authenticated = true
is_active closing = false
is_active closed = false

abbrev pub is_closed : ConnectionState → Bool
is_closed closed = true
is_closed _ = false

unfoldable pub start : Connection → Connection
start c =
    let heartbeat_loops = if c.config.heartbeat.enabled then 1 else 0 in
    let idle_loops = if ltb 0 c.config.idle_timeout then 1 else 0 in
    set_state (record c { loops = c.loops + heartbeat_loops + idle_loops }) connected

-- The send on `closeChan` reaches one loop, if any waits.
unfoldable pub close : Connection → Connection
close c =
    if is_closed c.state
    then c
    else set_state (record (set_state c closing) { conn_open = false; loops = c.loops - 1 }) closed

-- What `SendMessage` returns.
pub data SendResult : Type 0 where
  sent connection_closed write_failed : SendResult

-- The network wrote `n` bytes, with or without an error.
unfoldable pub send_message :
    ℕ → (List ℕ → ℕ × Bool) → Connection → Message → Connection × SendResult
send_message now write c m =
    if is_active c.state
    then (let (n, fine) = write (encode m).0 in
        let counted = record c {
          info = record (c.info) {
            bytes_sent = c.info.bytes_sent + n;
            messages_sent = c.info.messages_sent + 1;
          };
        } in
        (update_activity now counted, if fine then sent else write_failed))
    else (c, connection_closed)

-- What an attempt to decode the buffer leads to.
pub data Attempt : Type 0 where
  got : Message → Connection → Attempt
  broken : DecodeError → Attempt
  more : Attempt

-- `tryDecodeMessage`: the bytes of a decoded message leave the buffer.
abbrev pub consume : Connection → ℕ → Connection
consume c consumed = record c {
  read_buffer = if ltb consumed (length c.read_buffer) then drop consumed c.read_buffer else [];
}

after_decode : ℕ → Connection → Outcome → Attempt
after_decode now c (decoded m consumed) = got m (
    update_activity now (record (consume c consumed) {
      info = record (c.info) { messages_received = c.info.messages_received + 1 };
    }))
after_decode now c (failed consumed e) = if is_insufficient_data_error e then more else broken e

unfoldable pub attempt : ℕ → Connection → Attempt
unfolding after_decode
attempt now c =
    if leb 28 (length c.read_buffer) then after_decode now c (decode c.read_buffer) else more

pub data Read : Type 0 where
  bytes : List ℕ → Read
  read_error : Read

-- What `ReadMessage` returns; `waiting` where it still waits for the network.
pub data ReadResult : Type 0 where
  message : Message → ReadResult
  not_open : ReadResult
  undecodable : DecodeError → ReadResult
  network_error : ReadResult
  waiting : ReadResult

abbrev pub receive : Connection → List ℕ → Connection
receive c chunk = record c {
  read_buffer = c.read_buffer ++ chunk;
  info = record (c.info) { bytes_received = c.info.bytes_received + length chunk };
}

-- The end of a round of the loop in `ReadMessage`; it goes on if the data did not suffice.
round : Connection → Attempt → Connection × ReadResult → Connection × ReadResult
round c (got m d) next = (d, message m)
round c (broken e) next = (c, undecodable e)
round c more next = next

-- The loop of `ReadMessage`, over what the network will deliver.
unfoldable pub read_loop : ℕ → Connection → List Read → Connection × ReadResult
unfolding round
read_loop now c [] = round c (attempt now c) (c, waiting)
read_loop now c (bytes chunk ∷ reads) =
    let next = read_loop now (receive c chunk) reads in round c (attempt now c) next
read_loop now c (read_error ∷ reads) = round c (attempt now c) (c, network_error)

unfoldable pub read_message : ℕ → Connection → List Read → Connection × ReadResult
read_message now c reads = if is_active c.state then read_loop now c reads else (c, not_open)

unfoldable pub authenticate : List ℕ → List ℕ → Connection → Connection
authenticate game_id user_id c =
    set_state (record c { info = record (c.info) { game_id = game_id; user_id = user_id } })
      authenticated

abbrev pub is_authenticated : Connection → Bool
is_authenticated c = elim (c.state) [ authenticated ↦ true | _ ↦ false ]

unfoldable pub update_heartbeat : ℕ → Connection → Connection
update_heartbeat now c =
    update_activity now (record c { last_heartbeat = now; missed_heartbeats = 0 })

-- The new state, and whether `go c.Close()` was called.
unfoldable pub check_heartbeat : ℕ → Connection → Connection × Bool
check_heartbeat now c =
    let reset = record c { missed_heartbeats = 0 } in
    let missed = record c { missed_heartbeats = c.missed_heartbeats + 1 } in
    if is_active c.state
    then (if ltb (c.last_heartbeat + c.config.heartbeat.timeout) now
        then (if leb c.config.heartbeat.max_missed (c.missed_heartbeats + 1)
            then (missed, true)
            else (reset, false))
        else (reset, false))
    else (c, false)

-- Whether `go c.Close()` is called.
unfoldable pub check_idle : ℕ → Connection → Bool
check_idle now c =
    if is_active c.state then ltb (c.info.last_activity + c.config.idle_timeout) now else false
