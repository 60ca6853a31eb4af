-- ===== src/Protocol/Manager.antt =====
-- internal/protocol/manager.go: ConnectionManager. The identifier that a new connection draws
-- from the clock is an argument. Each method holds the lock and is one step.
pub mod Capacity
pub mod Cleanup
use data_middleware.Prelude.{
  ℕ, ◌+◌, ◌≤◌, ◌<◌, ◌≡◌, refl, Bool, true, false, List, [], ◌∷◌, ◌++◌, ltb, leb, ◌==◌, ◌&&◌,
  list_beq, if◌then◌else◌, length, map, Option, none, some, string_eq,
}
use data_middleware.Prelude.Assoc.{lookup, insert, delete}
use data_middleware.Protocol.Types.{Message, ConnectionConfig}
use data_middleware.Protocol.Connection.{
  Connection, new_connection, start, close, send_message, is_closed,
}

pub record ConnectionManager : Type 0 where
  pub config : ConnectionConfig
  pub connections : List (List ℕ × Connection)

unfoldable pub new_connection_manager : ConnectionConfig → ConnectionManager
new_connection_manager config = record { config = config; connections = [] }

-- `none` where the limit is reached.
unfoldable pub add_connection :
    List ℕ → ℕ → ConnectionManager → ConnectionManager × Option Connection
add_connection id now cm =
    if ltb 0 cm.config.max_connections && leb cm.config.max_connections (length cm.connections)
    then (cm, none)
    else (let connection = start (new_connection id now cm.config) in
        (record cm { connections = insert id connection cm.connections }, some connection))

unfoldable pub remove_connection : List ℕ → ConnectionManager → ConnectionManager
remove_connection id cm = elim (lookup id cm.connections) [
  | none ↦ cm
  | some _ ↦ record cm { connections = delete id cm.connections }
]

abbrev pub get_connection : List ℕ → ConnectionManager → Option Connection
get_connection id cm = lookup id cm.connections

abbrev pub get_connection_count : ConnectionManager → ℕ
get_connection_count cm = length cm.connections

close_all : List (List ℕ × Connection) → List (List ℕ × Connection)
close_all [] = []
close_all ((id, c) ∷ m) = (id, close c) ∷ close_all m

-- The manager without its connections, and what became of them.
unfoldable pub stop : ConnectionManager → ConnectionManager × List (List ℕ × Connection)
unfolding close_all
stop cm = (record cm { connections = [] }, close_all cm.connections)

-- The connections that a test selects.
unfoldable pub connections_where :
    (Connection → Bool) → List (List ℕ × Connection) → List Connection
connections_where test [] = []
connections_where test ((id, c) ∷ m) =
    if test c then c ∷ connections_where test m else connections_where test m

abbrev pub get_connections_by_game : List ℕ → ConnectionManager → List Connection
get_connections_by_game game_id cm =
    connections_where (λ c. list_beq c.info.game_id game_id) cm.connections

abbrev pub get_connections_by_user : List ℕ → ConnectionManager → List Connection
get_connections_by_user user_id cm =
    connections_where (λ c. list_beq c.info.user_id user_id) cm.connections

-- The connections are shared, so a broadcast changes them where they stand in the map.
broadcast_where :
    (Connection → Bool)
    → ℕ
    → (List ℕ → List ℕ → ℕ × Bool)
    → Message
    → List (List ℕ × Connection)
    → List (List ℕ × Connection)
broadcast_where test now write msg [] = []
broadcast_where test now write msg ((id, c) ∷ m) =
    (id, if test c then (send_message now (write id) c msg).0 else c)
    ∷ broadcast_where test now write msg m

unfoldable pub broadcast_to_game :
    List ℕ → ℕ → (List ℕ → List ℕ → ℕ × Bool) → Message → ConnectionManager → ConnectionManager
unfolding broadcast_where
broadcast_to_game game_id now write msg cm = record cm {
  connections = broadcast_where (λ c. list_beq c.info.game_id game_id) now write msg cm.connections;
}

unfoldable pub broadcast_to_user :
    List ℕ → ℕ → (List ℕ → List ℕ → ℕ × Bool) → Message → ConnectionManager → ConnectionManager
unfolding broadcast_where
broadcast_to_user user_id now write msg cm = record cm {
  connections = broadcast_where (λ c. list_beq c.info.user_id user_id) now write msg cm.connections;
}

-- `stats[key]++` on a map of counters.
abbrev pub bump : List ℕ → List (List ℕ × ℕ) → List (List ℕ × ℕ)
bump key stats = insert key (elim (lookup key stats) [ none ↦ 1 | some n ↦ n + 1 ]) stats

abbrev pub is_empty : List ℕ → Bool
is_empty [] = true
is_empty (x ∷ xs) = false

-- The loop of `GetStats` over one of its maps.
unfoldable pub count_by :
    (Connection → List ℕ) → List (List ℕ × Connection) → List (List ℕ × ℕ) → List (List ℕ × ℕ)
count_by key [] stats = stats
count_by key ((id, c) ∷ m) stats =
    count_by key m (if is_empty (key c) then stats else bump (key c) stats)

-- `GameStats` and `UserStats` of `GetStats`.
abbrev pub get_stats : ConnectionManager → List (List ℕ × ℕ) × List (List ℕ × ℕ)
get_stats cm = (
  count_by (λ c. c.info.game_id) cm.connections [],
  count_by (λ c. c.info.user_id) cm.connections [],
)

-- The two loops of `cleanup`.
to_remove : List (List ℕ × Connection) → List (List ℕ)
to_remove [] = []
to_remove ((id, c) ∷ m) = if is_closed c.state then id ∷ to_remove m else to_remove m

delete_all : List (List ℕ) → List (List ℕ × Connection) → List (List ℕ × Connection)
delete_all [] m = m
delete_all (id ∷ ids) m = delete_all ids (delete id m)

unfoldable pub cleanup : ConnectionManager → ConnectionManager
unfolding to_remove delete_all
cleanup cm = record cm { connections = delete_all (to_remove cm.connections) cm.connections }
