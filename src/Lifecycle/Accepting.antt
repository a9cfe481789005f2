-- ===== src/Lifecycle/Accepting.antt =====
-- The constructor and `do_accept` of MatchingServer/src/core/server.cpp, around the server's life: each
-- connection becomes a session as the constructor of MatchingServer/src/core/session.cpp makes it.
use back_end_doc.Common.{
  ℕ, ◌+◌, ◌-◌, ◌≡◌, ◌≢◌, true, false, none, [], if◌then◌else◌, Outcome, returned, threw, Bytes,
  Bytes, false, true,
}
use back_end_doc.DbPool
use back_end_doc.DbPool.{DbPool}
use back_end_doc.World.{World}
use back_end_doc.Lifecycle.{Machine, run, stop, check_fires, broadcast_fires}
use back_end_doc.Server.{Session, Server, unset}
use back_end_doc.Server.Table.{lookup, insert}
use back_end_doc.Session.{Site}
use back_end_doc.Session.Runs
use back_end_doc.Session.Runs.{Happens, IsNew}

-- What the handler of `async_accept` is called with: a connection from an address, with the number of
-- the session that is made for it; one whose client has left, so that the constructor of the session
-- throws as it asks for the address; or an error.
pub data Accepted : Type 0 where
  connection : ℕ → ℕ → Accepted
  gone : Accepted
  failed : Accepted

-- `pending` counts the calls of `async_accept` whose handlers have not run.
pub record Listening : Type 0 where
  pub machine : Machine
  pub pending : ℕ

-- The server that the constructor makes: its maps are empty, and sessions may be silent for 12 seconds.
unfoldable pub initial_server : Bytes → Server
initial_server version = record {
  mirrors = [];
  sessions = [];
  tokens = [];
  connected_ips = [];
  objects = [];
  timeout = 12;
  version = version;
}

unfoldable pub initial_machine : Bytes → World → DbPool → Machine
unfolding initial_server
initial_machine version w p = record {
  site = record {
    is_defined = true;
    server = initial_server version;
    world = record w { pool = p };
    sent = [];
  };
  is_running = false;
  is_checking = false;
  is_broadcasting = false;
  is_accepting = false;
  check_armed = false;
  broadcast_armed = false;
  heard = [];
}

unfoldable pub made_machine : Bytes → World → Outcome DbPool → Outcome Listening
unfolding initial_machine
made_machine version w threw = threw
made_machine version w (returned p) =
    returned (record { machine = initial_machine version w p; pending = 0 })

-- The constructor, which opens twenty connections. Its controllers, services and repositories have no
-- state of their own.
unfoldable pub create : Bytes → World → Outcome Listening
unfolding made_machine
create version w = made_machine version w (DbPool.create w.driver 20)

-- The session's constructor. What `mirror_port_` holds is not set; it is read of mirrors only.
abbrev pub new_session : ℕ → ℕ → Session
new_session ip now = record {
  user_id = 0;
  user_name = [];
  nick_name = [];
  status = unset;
  token = none;
  is_mirror = false;
  mirror_port = 0;
  remote_ip = ip;
  last_activity = now;
  is_open = true;
}

abbrev pub with_session : ℕ → ℕ → Site → Site
with_session sid ip x = record x {
  server = record x.server { objects = insert sid (new_session ip x.world.now) x.server.objects };
}

unfoldable pub do_accept : Listening → Listening
do_accept l = record l { pending = l.pending + 1 }

unfoldable pub start_up : Listening → Listening
unfolding do_accept
start_up l = do_accept (record l { machine = run l.machine })

unfoldable pub shut_down : Listening → Listening
shut_down l = record l { machine = stop l.machine }

unfoldable pub next_accept : Listening → Listening
unfolding do_accept
next_accept l = if l.machine.is_running then do_accept l else l

-- The handler. An exception leaves `io_context::run`, and the program ends.
unfoldable pub accepted : Accepted → Listening → Outcome Listening
unfolding next_accept
accepted (connection sid ip) l = returned (
    next_accept (record l {
      machine = record l.machine { site = with_session sid ip l.machine.site };
      pending = l.pending - 1;
    }))
accepted gone l = threw
accepted failed l = returned (next_accept (record l { pending = l.pending - 1 }))

-- The object of a new session is none of those that are alive.
abbrev pub IsNewObject : Accepted → Site → Type 0
IsNewObject (connection sid ip) x = lookup sid x.server.objects ≡ none
IsNewObject _ x = Unit

-- All that happens to sessions but their beginning.
abbrev pub IsLater : {x y : Site} → Happens x y → Type 0
IsLater (Runs.accepts sid s e n) = ⊥
IsLater _ = Unit

pub data Hears (l : Listening) : Listening → Type 0 where
  accepts :
      (a : Accepted) (k : Listening)
      → l.pending ≢ 0
      → IsNewObject a l.machine.site
      → accepted a l ≡ returned k
      → Hears l k
  stops : Hears l (shut_down l)
  checks : l.machine.check_armed ≡ true → Hears l (record l { machine = check_fires l.machine })
  broadcasts :
      l.machine.broadcast_armed ≡ true → Hears l (record l { machine = broadcast_fires l.machine })
  serves :
      {x : Site} (h : Happens l.machine.site x)
      → IsLater h
      → Hears l (record l { machine = record l.machine { site = x } })

-- From `run` on, which `main` calls once.
pub data Listens (start : Listening) : Listening → Type 0 where
  begins : Listens start (start_up start)
  hears : {l k : Listening} → Listens start l → Hears l k → Listens start k
