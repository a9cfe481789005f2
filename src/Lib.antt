-- ===== src/Lib.antt =====
-- The matching server (MatchingServer/src) and its older variant, the game socket server
-- (GameSocketServer/src), which register users, open rooms for them and keep track of who is connected;
-- the gateway before them (APIGatewayServer/src); and a console client (GameSocketTestClient).
--
-- Parts and files (those of the matching server by their paths in MatchingServer/src):
--   DbPool          util/db_pool.{h,cpp}: `get_connection`, `return_connection`, the constructor
--   Db              the tables of MatchingServer/db-init.sql, and game_users of
--                   MatchingServer/postgres-init.sh; Db.Query has the SQL statements that the
--                   repositories share, Db.Transaction what pqxx::work gives them
--   World           the frame of every repository method: connection, transaction, commit or abort
--   RoomRepository  repository/room_repository.cpp: `createRoomWithHost`, `addPlayer`,
--                   `removePlayer`, `getPlayerCount`, `getPlayersInRoom`, `findAllOpen`
--   GameRepository  repository/game_repository.cpp: `createGame`, `endGame`
--   UserRepository  repository/user_repository.cpp: `findByUsername`, `create`, `updateLastLogin`,
--                   `updateUserNickName`
--   PasswordUtil    util/password_util.cpp
--   Names           `isValidUserName`, `isValidNickName`, `isValidRoomName` of the services
--   Request, Response   what the services read of a json, and what they answer
--   AuthService, RoomService, GameService   service/*_service.cpp with the dispatch of the
--                   controllers (controller/*_controller.cpp)
--   Server          core/server.cpp: the maps of mirrors, sessions, tokens and addresses
--   Lifecycle       core/server.cpp: `run`, `stop`, the two timers and the broadcasts;
--                   Lifecycle.Accepting has the constructor, `do_accept`, and the
--                   constructor of the session
--   Session         core/session.cpp: Session.Requests is `process_request` and `read_message`,
--                   Session.Handshake `read_handshake`; `handle_error`, `handlePing` and the destructor
--                   are in Session itself; Session.Runs has the sequences of all these steps,
--                   Session.Sockets the reads and writes that each session waits for
--   Stable          properties of the tables that each change of a repository keeps, which the
--                   Consistency modules carry through services and sessions; Stable.Accounts is about
--                   the accounts
--   Lobby           the abstract view of the rooms, a transition system; Lobby.Refinement relates the
--                   runs of the sessions to it, Lifecycle.Refinement those of the whole server
--   GameSocket      GameSocketServer/src, an older variant of the matching server, with modules of the
--                   same names: repository/, service/, controller/, core/session.cpp and
--                   core/server.cpp (GameSocket.Server), util/db_pool.cpp and util/password_util.cpp.
--                   Where it runs the code of the matching server, so does the model. `World.Leaky`
--                   is the frame of a method that returns without giving its connection back
--   Gateway         APIGatewayServer/src/core/request_router.cpp and api_gateway.cpp
--   TestClient      GameSocketTestClient/GameTestClient.cpp; TestClient.System has the steps of its
--                   threads in every interleaving, and of the connection
--   Examples        sample data, and each theorem at an example
--
-- A session reads a message, looks at its action, and passes the request on with its own user to a
-- controller; what comes back may change the session, the server's maps and the mirror server of a
-- room. These steps run on a `Site`: the server, a `World`, and the messages written so far.
-- A request goes from a controller to its service, which calls the methods of the repositories. A
-- method takes a connection of the pool, begins a transaction, runs statements on a copy of the tables
-- and commits or aborts. So the state of a service is a `World`: the pool, the tables, the clock, and a
-- schedule that says which of the coming statements throw. An `Action` runs on a world and returns a
-- value or throws; what was committed before stays. A transaction (`Txn`) runs on the tables and
-- either is done with a `Verdict`, commit or abort, or has failed.
--
-- Parameters. `Driver` is libpqxx: which connections are open, and whether a new one can be made; a
-- new one differs from those held. `Engine` is PostgreSQL and OpenSSL: LOWER, the next id of a SERIAL
-- column, which no row has, the default nickname, and SHA-256, whose digest consists of bytes. `Library`
-- of the gateway is what it takes from the json library, and the registry of services, whose methods
-- have no body in the repository. `TestClient.Library` is what the console client reads of a json.
--
-- Columns. The widths VARCHAR(16) of nick_name and VARCHAR(50) of user_name are checked where a row is
-- written, in characters of UTF-8; the other texts that the services store are shorter than their columns.
--
-- Numbers. An `int` is its 32-bit pattern, -1 is 4294967295; the numbers of a json are 64-bit patterns
-- and are cut to 32 bits where the code converts them. Fuel is not used: every loop is a recursion on
-- a list or a number. Tokens and addresses are numbers that stand for their texts, objects the numbers of their
-- pointers.
--
-- Undefined behaviour (`setSessionStatus` of a session that is gone dereferences a null pointer) clears
-- `is_defined` of the site; the steps after it say nothing of the program.
--
-- Not modelled: the bytes of the sockets (a message is written when the code sends it, and what a
-- handler is called with is a parameter of its step), threads of the servers (each method is one step,
-- as it runs under its mutexes), concurrent transactions, logging, the three files main.cpp of the
-- servers, which read the settings and run the event loop, GameSocketServer/src/util/session_pool.cpp, of
-- which every line is a comment, and the other programs of the repository (indicator, logging).
mod Common
pub mod DbPool
pub mod Names
pub mod Db
pub mod World
pub mod Request
pub mod RoomRepository
pub mod GameRepository
pub mod UserRepository
pub mod PasswordUtil
pub mod Response
pub mod AuthService
pub mod RoomService
pub mod GameService
pub mod Server
pub mod Session
pub mod Lifecycle
pub mod Stable
pub mod Lobby
pub mod GameSocket
pub mod Gateway
pub mod TestClient
mod Examples
