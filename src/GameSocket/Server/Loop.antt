-- ===== src/GameSocket/Server/Loop.antt =====
-- How long the loop of GameSocketServer/src/core/server.cpp goes on.
use back_end_doc.Common.{
  arith, subst, inl, inr, Outcome-cases, ℕ, ◌≡◌, refl, Bool, true, false, List, [], ◌∷◌,
  if◌then◌else◌, returned, threw,
}
use back_end_doc.GameSocket.DbPool
use back_end_doc.DbPool.{DbPool, Driver}
use back_end_doc.GameSocket.Server.{
  create, made, initial, Server, Accepted, connection, gone, failed, do_accept, run, stop,
  next_accept, accepted, goes_on, serve,
}

-- Some client leaves before its session is made.
abbrev pub some_gone : List Accepted → Bool
some_gone [] = false
some_gone (gone ∷ rest) = true
some_gone (_ ∷ rest) = some_gone rest

-- The sessions of the connections, in front of others.
abbrev pub with_sessions : List Accepted → List ℕ → List ℕ
with_sessions [] ids = ids
with_sessions (connection id ∷ rest) ids = with_sessions rest (id ∷ ids)
with_sessions (gone ∷ rest) ids = with_sessions rest ids
with_sessions (failed ∷ rest) ids = with_sessions rest ids

-- A server that waits for a connection; `b` says whether it runs.
abbrev waits : Bool → DbPool → Bool → List ℕ → Server
waits b p o ids = record { pool = p; is_running = b; is_open = o; pending = 1; sessions = ids }

waits-serve :
    (p : DbPool) (o : Bool) (es : List Accepted) (ids : List ℕ)
    → serve es (waits true p o ids)
      ≡ (if some_gone es then threw else returned (waits true p o (with_sessions es ids)))
unfolding serve goes_on accepted next_accept do_accept
waits-serve p o [] ids = refl
waits-serve p o (connection id ∷ rest) ids = waits-serve p o rest (id ∷ ids)
waits-serve p o (gone ∷ rest) ids = refl
waits-serve p o (failed ∷ rest) ids = waits-serve p o rest ids

-- After `stop` one handler still runs, and then none is pending.
stops-serve :
    (p : DbPool) (a : Accepted) (rest : List Accepted) (ids : List ℕ)
    → serve (a ∷ rest) (waits false p false ids) ≡ accepted a (waits false p false ids)
unfolding serve goes_on accepted next_accept
stops-serve p (connection id) [] ids = refl
stops-serve p (connection id) (b ∷ rest) ids = refl
stops-serve p gone rest ids = refl
stops-serve p failed [] ids = refl
stops-serve p failed (b ∷ rest) ids = refl

abbrev Loops : List Accepted → Server → Type 0
Loops es s =
    (serve es (run s) ≡ (
      if some_gone es then threw else returned (record (run s) { sessions = with_sessions es [] })))
    × ((run s).pending ≡ 1)
    × ((a : Accepted) (rest : List Accepted) (ids : List ℕ)
        → serve (a ∷ rest) (stop (record (run s) { sessions = ids }))
          ≡ accepted a (stop (record (run s) { sessions = ids })))

initial-Loops : (p : DbPool) (es : List Accepted) → Loops es (initial p)
unfolding initial run do_accept stop
initial-Loops p es = (waits-serve p true es [], refl, stops-serve p)

-- A server that was made, and runs. While it runs, whatever connections fail, each that succeeds becomes
-- a session, in order, and one call of `async_accept` is pending; but a client that has left when its
-- session is made ends the server by an exception. If it is stopped, at most one more handler runs,
-- whatever there is to accept.
pub create-serve :
    (d : Driver) (s : Server) (es : List Accepted)
    → create d ≡ returned s
    → (serve es (run s) ≡ (
        if some_gone es
        then threw
        else returned (record (run s) { sessions = with_sessions es [] })))
      × ((run s).pending ≡ 1)
      × ((a : Accepted) (rest : List Accepted) (ids : List ℕ)
          → serve (a ∷ rest) (stop (record (run s) { sessions = ids }))
            ≡ accepted a (stop (record (run s) { sessions = ids })))
unfolding create made
create-serve d s es e = elim (Outcome-cases (DbPool.create d 5)) [
  | inl fails ↦ absurd (ground (arith))
  | inr (p, done) ↦
      let same : initial p ≡ s = ground (arith) in subst (Loops es) same (initial-Loops p es)
]
