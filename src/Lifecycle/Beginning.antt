-- ===== src/Lifecycle/Beginning.antt =====
-- The matching server (MatchingServer/src/core/server.cpp) from its constructor on.
use back_end_doc.Common.{
  arith, ◌≤◌, ◌≡◌, refl, sym, subst, if◌then◌else◌, returned, Bytes, inl, inr, Outcome-cases,
  Bool-cases,
}
use back_end_doc.DbPool
use back_end_doc.DbPool.{DbPool}
use back_end_doc.DbPool.Lending.{IsFresh, create-IsFresh}
use back_end_doc.World.{World}
use back_end_doc.Lifecycle.Timers.{IsTimed, Lives-IsTimed}
use back_end_doc.Lifecycle.Refinement.{Lives-Plays}
use back_end_doc.Lifecycle.Accepting.{Listening, create, initial_machine, made_machine, Listens}
use back_end_doc.Lifecycle.Listening.{Listens-IsListening}
use back_end_doc.Lobby.{Plays, lobby_of}
use back_end_doc.RoomRepository.Consistent.{IsConsistent}

-- A server that was made and does not run yet.
record IsBorn (w : World) (l : Listening) : Type 0 where
  pub silent : l.pending ≡ 0
  pub timed : IsTimed l.machine
  pub tables : l.machine.site.world.db ≡ w.db
  pub pool : IsFresh 20 l.machine.site.world.pool

create-IsBorn :
    (version : Bytes) (w : World) (l : Listening) → create version w ≡ returned l → IsBorn w l
unfolding create made_machine initial_machine
create-IsBorn version w l e = elim (Outcome-cases (DbPool.create w.driver 20)) [
  | inl fails ↦ absurd (ground (arith))
  | inr (p, done) ↦
      let born : Listening = record { machine = initial_machine version w p; pending = 0 } in
      let same : born ≡ l = ground (arith) in
      subst (IsBorn w) same (record {
        silent = refl;
        timed = record {
          checking = refl;
          broadcasting = refl;
          check_waits = refl;
          broadcast_waits = refl;
        };
        tables = refl;
        pool = create-IsFresh w.driver 20 p done;
      })
]

-- The server, made on consistent tables. Over every sequence of connections and of what the server and
-- its sessions do from `run` on, `stop` included: the tables stay consistent, and change by moves of the
-- lobby only; the flags and the timers agree with `running_`; and one accept is pending while it runs,
-- never more.
pub create-Listens :
    (version : Bytes) (w : World) (start l : Listening)
    → IsConsistent w.db
    → create version w ≡ returned start
    → Listens start l
    → IsConsistent l.machine.site.world.db
      × Plays (lobby_of w.db) (lobby_of l.machine.site.world.db)
      × IsTimed l.machine
      × (l.pending ≤ 1)
      × ((if l.machine.is_running then 1 else 0) ≤ l.pending)
create-Listens version w start l c e run =
    let born = create-IsBorn version w start e in
    let tables : IsConsistent start.machine.site.world.db =
      subst IsConsistent (sym born.tables) c in
    let (life, most, one) = Listens-IsListening start l born.silent run in
    let (kept, timed) = Lives-IsTimed start.machine l.machine life tables born.timed in
    (
      kept,
      subst (λ d. Plays (lobby_of d) (lobby_of l.machine.site.world.db)) born.tables
          (Lives-Plays start.machine l.machine life tables born.timed),
      timed,
      most,
      elim (Bool-cases l.machine.is_running) [
        | inl on ↦ ground (arith, one on)
        | inr off ↦ ground (arith)
      ],
    )
