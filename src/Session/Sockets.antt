-- ===== src/Session/Sockets.antt =====
-- What the sockets of the sessions wait for (MatchingServer/src/core/session.cpp). The handler of a read
-- writes the answers; the handlers of `write_handshake_response`, `write_mirror` and `write_response` read
-- the next message of the session that was written to.
use back_end_doc.Common.{
  ℕ, ◌+◌, ◌-◌, ◌≡◌, ◌≢◌, Option, none, some, List, [], ◌∷◌, ◌++◌, ◌==◌, if◌then◌else◌,
}
use back_end_doc.Request.{Request}
use back_end_doc.Server.{Session}
use back_end_doc.Server.Table.{lookup, insert}
use back_end_doc.Session.{Site, Message, handle_error}
use back_end_doc.Session.Handshake.{Handshake, read_handshake}
use back_end_doc.Session.Requests.{read_message}

-- What is pending for each session: the read of its handshake (`hails`), reads of messages, and writes
-- but those of broadcasts. `begun` counts how often a session was started, and `log` is all that was ever
-- written, the newest first.
pub record Sockets : Type 0 where
  pub site : Site
  pub log : List (ℕ × Message)
  pub begun : ℕ → ℕ
  pub hails : ℕ → ℕ
  pub reads : ℕ → ℕ
  pub writes : ℕ → ℕ

abbrev pub bump : ℕ → (ℕ → ℕ) → ℕ → ℕ
bump sid f k = if k == sid then f k + 1 else f k

abbrev pub drop_one : ℕ → (ℕ → ℕ) → ℕ → ℕ
drop_one sid f k = if k == sid then f k - 1 else f k

abbrev pub bump_all : List (ℕ × Message) → (ℕ → ℕ) → ℕ → ℕ
bump_all [] f = f
bump_all ((sid, a) ∷ ms) f = bump sid (bump_all ms f)

-- `start`, on the object of a session that was accepted.
unfoldable pub begin_session : ℕ → Session → Sockets → Sockets
begin_session sid s io = record io {
  site = record io.site {
    server = record io.site.server { objects = insert sid s io.site.server.objects };
  };
  begun = bump sid io.begun;
  hails = bump sid io.hails;
}

-- The handler of `read_handshake` without an error.
unfoldable pub hail_done : ℕ → ℕ → ℕ → Session → Option Handshake → Sockets → Sockets
hail_done uuid next sid s h io =
    let y = read_handshake uuid next sid s h (record io.site { sent = [] }) in
    record io {
      site = y;
      log = y.sent ++ io.log;
      hails = drop_one sid io.hails;
      writes = bump_all y.sent io.writes;
    }

unfoldable pub hail_broken : ℕ → Session → Sockets → Sockets
hail_broken sid s io = record io {
  site = handle_error sid s io.site;
  hails = drop_one sid io.hails;
}

-- The handler of a read without an error.
unfoldable pub read_done : ℕ → ℕ → Session → Option Request → Sockets → Sockets
read_done uuid sid s m io =
    let y = read_message uuid sid s m (record io.site { sent = [] }) in
    record io {
      site = y;
      log = y.sent ++ io.log;
      reads = drop_one sid io.reads;
      writes = bump_all y.sent io.writes;
    }

-- The handler of a write without an error.
unfoldable pub write_done : ℕ → Sockets → Sockets
write_done sid io = record io { reads = bump sid io.reads; writes = drop_one sid io.writes }

-- The handlers, with an error.
unfoldable pub read_broken : ℕ → Session → Sockets → Sockets
read_broken sid s io = record io {
  site = handle_error sid s io.site;
  reads = drop_one sid io.reads;
}

unfoldable pub write_broken : ℕ → Session → Sockets → Sockets
write_broken sid s io = record io {
  site = handle_error sid s io.site;
  writes = drop_one sid io.writes;
}

-- The handler of `write_broadcast`; without an error it does nothing.
unfoldable pub broadcast_broken : ℕ → Session → Sockets → Sockets
broadcast_broken sid s io = record io { site = handle_error sid s io.site }

-- `passes` is whatever else happens to the server between two handlers: timers, `stop`, sessions that end.
pub data Turns (io : Sockets) : Sockets → Type 0 where
  begins :
      (sid : ℕ) (s : Session)
      → lookup sid io.site.server.objects ≡ none
      → Turns io (begin_session sid s io)
  passes : (x : Site) → Turns io (record io { site = x })
  hail_ends :
      (uuid next sid : ℕ) (s : Session) (h : Option Handshake)
      → io.hails sid ≢ 0
      → lookup sid io.site.server.objects ≡ some s
      → Turns io (hail_done uuid next sid s h io)
  hail_breaks :
      (sid : ℕ) (s : Session)
      → io.hails sid ≢ 0
      → lookup sid io.site.server.objects ≡ some s
      → Turns io (hail_broken sid s io)
  read_ends :
      (uuid sid : ℕ) (s : Session) (m : Option Request)
      → io.reads sid ≢ 0
      → lookup sid io.site.server.objects ≡ some s
      → Turns io (read_done uuid sid s m io)
  write_ends : (sid : ℕ) → io.writes sid ≢ 0 → Turns io (write_done sid io)
  read_breaks :
      (sid : ℕ) (s : Session)
      → io.reads sid ≢ 0
      → lookup sid io.site.server.objects ≡ some s
      → Turns io (read_broken sid s io)
  write_breaks :
      (sid : ℕ) (s : Session)
      → io.writes sid ≢ 0
      → lookup sid io.site.server.objects ≡ some s
      → Turns io (write_broken sid s io)
  broadcast_breaks :
      (sid : ℕ) (s : Session)
      → lookup sid io.site.server.objects ≡ some s
      → Turns io (broadcast_broken sid s io)

pub data Runs (start : Sockets) : Sockets → Type 0 where
  starts : Runs start start
  turns : {io jo : Sockets} → Runs start io → Turns io jo → Runs start jo
