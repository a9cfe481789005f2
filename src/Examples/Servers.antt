-- ===== src/Examples/Servers.antt =====
-- Tests of the accept loop of the game socket server.
use back_end_doc.Common.{◌≡◌, refl, false, true, [], ◌∷◌, List, ℕ, if◌then◌else◌, returned, threw}
use back_end_doc.GameSocket.Server.{
  Server, Accepted, connection, failed, create, run, stop, accepted, serve,
}
use back_end_doc.GameSocket.Server.Loop.{some_gone, with_sessions, create-serve}
use back_end_doc.Examples.{sample_driver}

abbrev fresh_server : Server
fresh_server = record {
  pool = record {
    connections = 1 ∷ 3 ∷ 7 ∷ 15 ∷ 31 ∷ [];
    in_use = false ∷ false ∷ false ∷ false ∷ false ∷ [];
  };
  is_running = false;
  is_open = true;
  pending = 0;
  sessions = [];
}

five_connections : create sample_driver ≡ returned fresh_server
unfolding create back_end_doc.DbPool.create back_end_doc.GameSocket.DbPool.create
five_connections = refl

-- A connection fails, and the next one is served.
abbrev visitors : List Accepted
visitors = failed ∷ connection 8 ∷ []

create-serve_example :
    (serve visitors (run fresh_server) ≡ (
      if some_gone visitors
      then threw
      else returned (record (run fresh_server) { sessions = with_sessions visitors [] })))
    × ((run fresh_server).pending ≡ 1)
    × ((a : Accepted) (rest : List Accepted) (ids : List ℕ)
        → serve (a ∷ rest) (stop (record (run fresh_server) { sessions = ids }))
          ≡ accepted a (stop (record (run fresh_server) { sessions = ids })))
create-serve_example = create-serve sample_driver fresh_server visitors five_connections
