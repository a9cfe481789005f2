-- ===== src/GameSocket/Server.antt =====
-- GameSocketServer/src/core/server.cpp: the loop that accepts connections. What the handler of
-- `async_accept` is called with is an `Accepted`.
pub mod Loop
use back_end_doc.Common.{
  ℕ, ◌+◌, ◌-◌, Bool, true, false, List, [], ◌∷◌, ◌==◌, if◌then◌else◌, Outcome, returned, threw,
}
use back_end_doc.GameSocket.DbPool
use back_end_doc.DbPool.{Driver, DbPool}

-- `gone`: the client has left before its session is made. The constructor of the session asks for the
-- address of the other end, and that throws.
pub data Accepted : Type 0 where
  connection : ℕ → Accepted
  gone : Accepted
  failed : Accepted

-- `pending` counts the calls of `async_accept` whose handlers have not run; `sessions` are those that
-- were started, the newest first.
pub record Server : Type 0 where
  pub pool : DbPool
  pub is_running : Bool
  pub is_open : Bool
  pub pending : ℕ
  pub sessions : List ℕ

initial : DbPool → Server
initial p = record { pool = p; is_running = false; is_open = true; pending = 0; sessions = [] }

made : Outcome DbPool → Outcome Server
unfolding initial
made threw = threw
made (returned p) = returned (initial p)

-- The constructor: five connections, and an acceptor that is open.
unfoldable pub create : Driver → Outcome Server
unfolding made
create d = made (DbPool.create d 5)

unfoldable pub do_accept : Server → Server
do_accept s = record s { pending = s.pending + 1 }

unfoldable pub run : Server → Server
unfolding do_accept
run s = do_accept (record s { is_running = true })

unfoldable pub stop : Server → Server
stop s = record s { is_running = false; is_open = false }

next_accept : Server → Server
unfolding do_accept
next_accept s = if s.is_running then do_accept s else s

-- The handler. The exception leaves `io_context::run`, and `main` ends.
unfoldable pub accepted : Accepted → Server → Outcome Server
unfolding next_accept
accepted (connection id) s =
    returned (next_accept (record s { pending = s.pending - 1; sessions = id ∷ s.sessions }))
accepted gone s = threw
accepted failed s = returned (next_accept (record s { pending = s.pending - 1 }))

goes_on : Outcome Server → (Server → Outcome Server) → Outcome Server
goes_on threw k = threw
goes_on (returned s) k = k s

-- `io_context::run`: handlers run as long as one is pending.
unfoldable pub serve : List Accepted → Server → Outcome Server
unfolding goes_on
serve [] s = returned s
serve (a ∷ rest) s = if s.pending == 0 then returned s else goes_on (accepted a s) (serve rest)
