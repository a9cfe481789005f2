-- ===== src/World/Healthy.antt =====
-- Runs in which no statement throws and every connection can be made.
use back_end_doc.Common.{ℕ, ◌≡◌, refl, [], Outcome, returned}
use back_end_doc.DbPool.{DbPool, get_connection}
use back_end_doc.DbPool.Vectors.{IsValid}
use back_end_doc.DbPool.Lending.{get-return}
use back_end_doc.DbPool.Supply.{Connects, get_connection-Returns}
use back_end_doc.Db.{Db}
use back_end_doc.Db.Transaction.{done, failed, Txn, Verdict, commit, abort}
use back_end_doc.World.{World, give_back, try_commit, finish, begin_work, connected, transact}

pub record IsHealthy (w : World) : Type 0 where
  pub valid : IsValid w.pool
  pub connects : Connects w.driver
  pub quiet : w.faults ≡ []

-- What a healthy run leaves: an outcome, the tables, and a world that is healthy again.
pub record Runs {ℓ} {A : Type ℓ} (w : World) (o : Outcome A) (db : Db) (r : Outcome A × World)
    : Type ℓ where
  pub outcome : r.0 ≡ o
  pub tables : r.1.db ≡ db
  pub healthy : IsHealthy r.1
  pub engine : r.1.engine ≡ w.engine
  pub clock : r.1.now ≡ w.now

module _ {ℓ} {A : Type ℓ} (fallback : A) (body : Txn (Verdict A)) (w : World)
    (h : IsHealthy w) where
  returned_to :
      (c : ℕ) (p : DbPool) (db : Db)
      → get_connection w.driver w.pool ≡ (returned c, p)
      → IsHealthy (give_back c (record w { pool = p; db = db; faults = [] }))
  unfolding give_back
  returned_to c p db e = record {
    valid = (get-return w.driver w.pool p c h.valid e).1;
    connects = h.connects;
    quiet = refl;
  }

  -- A body that commits leaves its tables; one that aborts, those of before.
  pub commit-Runs :
      (o : Outcome A) (db : Db)
      → body w.db [] ≡ done (commit o) db []
      → Runs w o db (transact fallback body w)
  unfolding transact connected begin_work finish try_commit give_back
  commit-Runs o db e =
      let (c, p, got) = get_connection-Returns w.driver w.pool h.connects in
      rw (got, connected, h.quiet, begin_work, e, finish)
        (record {
          outcome = refl;
          tables = refl;
          healthy = returned_to c p db got;
          engine = refl;
          clock = refl;
        })

  pub abort-Runs :
      (a : A) (db : Db)
      → body w.db [] ≡ done (abort a) db []
      → Runs w (returned a) w.db (transact fallback body w)
  unfolding transact connected begin_work finish give_back
  abort-Runs a db e =
      let (c, p, got) = get_connection-Returns w.driver w.pool h.connects in
      rw (got, connected, h.quiet, begin_work, e, finish)
        (record {
          outcome = refl;
          tables = refl;
          healthy = returned_to c p w.db got;
          engine = refl;
          clock = refl;
        })

  -- A statement that violates the schema: the default, and the tables of before.
  pub fail-Runs :
      body w.db [] ≡ failed [] → Runs w (returned fallback) w.db (transact fallback body w)
  unfolding transact connected begin_work finish give_back
  fail-Runs e =
      let (c, p, got) = get_connection-Returns w.driver w.pool h.connects in
      rw (got, connected, h.quiet, begin_work, e, finish)
        (record {
          outcome = refl;
          tables = refl;
          healthy = returned_to c p w.db got;
          engine = refl;
          clock = refl;
        })
