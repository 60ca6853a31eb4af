-- ===== src/Lib.antt =====
-- A verification library for the data middleware: a Go server between game clients and their
-- database, in internal/.
--
-- A client's bytes reach a Connection (internal/protocol/connection.go), which cuts them into
-- messages by a codec (internal/protocol/codec.go) and is one of those of a ConnectionManager
-- (internal/protocol/manager.go); the TCP server (internal/api/handlers/tcp_server.go) answers
-- them. The router (internal/router/router.go) finds the game's handler
-- for a request and makes the reply. The business services (internal/business/common) read and
-- write the tables through the interface DAO (internal/data/dao/dao.go). The two-level cache
-- (internal/infrastructure/cache), the task queue (internal/infrastructure/async) and the shared
-- data structures (internal/common) are used by the handlers.
--
-- The files, and the code that each of them is about:
--   Prelude          tests, lists over the native numbers, Go's maps, bytes, CRC-32
--   Protocol/Types   internal/common/types/protocol.go: messages, states, configuration
--   Protocol/Binary  internal/protocol/codec.go: BinaryCodec.Encode is `encode`, Decode is `decode`
--   Protocol/Connection  internal/protocol/connection.go: ReadMessage is `read_message`, which goes
--                    through the pieces that the network delivers; checkHeartbeat, Authenticate
--                    and the others are functions on the record Connection
--   Protocol/Manager internal/protocol/manager.go
--   Server           internal/api/handlers/tcp_server.go: handleConnectionLoop and the handlers of
--                    messages; the message builders of internal/protocol/codec.go
--   Async/Queue, Async/Scheduler  internal/infrastructure/async/queue.go: PriorityQueue, Worker
--                    and TaskScheduler, with a panic as a result
--   Cache/Tier       the interface Cache of internal/common/types/business.go, a parameter
--   Cache/Wrappers   internal/infrastructure/cache/local_cache.go and redis_cache.go
--   Cache/Manager    internal/infrastructure/cache/manager.go and BatchInvalidate of invalidator.go
--   Cache/Protection internal/infrastructure/cache/protection.go
--   Business/Orders  internal/business/common/order_service.go
--   Business/Items   internal/business/common/item_service.go
--   Business/Players internal/business/common/player_service.go: UpdatePlayerStats
--   Business/Sessions  internal/business/common/player_service.go: the other methods; Register and
--                    Login have the code, and the other children what a history of calls does
--   Data             internal/data/dao/dao.go: daoImpl over gorm, which is the record Table
--   Business/Handler internal/business/common/game_handler.go: handleOrderOperation; Handle with
--                    the other handlers in Game
--   Routing          internal/router/router.go
--   Utils/RingBuffer, Utils/Bulk  internal/common/memory.go: RingBuffer and BulkAllocator
--   Utils/Errors     internal/common/errors/errors.go, pkg/constants/error_codes.go
--   Utils/Lru        internal/common/datastruct.go: LRUCache, its linked nodes in a memory of
--                    addresses; Delete is `remove`
--   Utils/TimeWheel  internal/common/datastruct.go: TimeWheel
--   Utils/Pool       internal/common/pool.go: ObjectPool, with its lock as part of the state
--   Utils/Goroutines  internal/common/goroutine_pool.go: GoroutinePool; Registry is
--                    AdaptiveGoroutinePool
--   Tests modules    the theorems on concrete inputs
--
-- A method that holds its lock is one step, so that a history of calls is a list, in the order in
-- which they take the lock. Times are numbers of nanoseconds, and the clock is an argument. What
-- the network answers is an argument too. Machine words keep their wrap-around where the code
-- relies on them, or where a caller chooses what is added: the lengths and the checksum of a frame
-- are uint16 and uint32, and the experience and the balances of a player are int64. Counters do
-- not overflow, and a statement that would take a quantity out of int64 is refused by the
-- database. The loops go through lists, and the reading loop of a connection goes through the
-- reads that the network answers. Only `level_loop` has fuel: `calculate_level` gives it a round
-- for each point of experience and one more, and each further round of the loop asks for a hundred
-- points more.
--
-- The caches' and the database's own code is not part of the repository: BigCache, Redis and gorm
-- stand behind the records BigCache, RedisClient and Table, which may fail at any call, and the
-- ants library, which runs tasks, behind the record Ants. What the code relies on is stated by
-- IsTable and IsAnts, and of a tier of the cache by IsCache; the tests have caches and tables in
-- memory for them. A table is a list of rows, a unique index is a key of it, and the replica that a query
-- goes to has no lag. gorm gives a field of a created struct that is zero the default of its
-- column, in the struct too: `item_stored` and `order_stored` do so for items and orders, and the
-- services set those fields of a player and of a session themselves. The services on orders and
-- items are over any data access object, OrderDao and ItemDao, that meets IsOrderDao and
-- IsItemDao; bcrypt and the source of randomness are arguments.
--
-- Not modelled: logging, metrics and configuration, which are I/O; the HTTP server, the TCP server's
-- listener and the connections to the database, which wire libraries together; the JWT library and
-- JSON, which are not part of the repository; GoroutineMonitor, which logs; and the methods that
-- only list or count rows.
pub mod Prelude
pub mod Protocol
pub mod Async
pub mod Cache
pub mod Business
pub mod Data
pub mod Utils
pub mod Routing
pub mod Server
