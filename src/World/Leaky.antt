-- ===== src/World/Leaky.antt =====
-- The frame of a repository method with a `return` that leaves the connection out of the pool, as in
-- GameSocketServer/src/repository: the transaction is rolled back by its destructor.
use back_end_doc.Common.{
  ℕ, suc, ◌≡◌, refl, Bool, true, false, List, [], ◌∷◌, Outcome, returned, threw,
}
use back_end_doc.DbPool.{DbPool, get_connection}
use back_end_doc.DbPool.Vectors.{busy}
use back_end_doc.DbPool.Lending.{get-Lends, get-IsValid, get-return}
use back_end_doc.DbPool.Supply.{get_connection-Returns}
use back_end_doc.Db.{Db}
use back_end_doc.Db.Transaction.{Reply, done, failed, Txn, Verdict, commit, Yields}
use back_end_doc.World.{World, Action, finish, try_commit, give_back}
use back_end_doc.World.Frame.{Settles, finish-Holds}
use back_end_doc.World.Healthy.{IsHealthy, Runs}

-- How the body of such a method ends: `kept` is a bare `return`.
pub data Ending {ℓ} (A : Type ℓ) : Type ℓ where
  settled : Verdict A → Ending A
  kept : A → Ending A

module _ {ℓ} {A : Type ℓ} where
  abbrev end_work : A → World → ℕ → Reply (Ending A) → Outcome A × World
  end_work fallback w c (failed fs) = finish fallback w c (failed fs)
  end_work fallback w c (done (settled v) db fs) = finish fallback w c (done v db fs)
  end_work fallback w c (done (kept a) db fs) = (returned a, record w { faults = fs })

  abbrev begin : A → Txn (Ending A) → World → ℕ → List Bool → Outcome A × World
  begin fallback body w c [] = end_work fallback w c (body w.db [])
  begin fallback body w c (true ∷ fs) = (threw, record w { faults = fs })
  begin fallback body w c (false ∷ fs) = end_work fallback w c (body w.db fs)

  abbrev with_connection : A → Txn (Ending A) → World → Outcome ℕ × DbPool → Outcome A × World
  with_connection fallback body w (threw, p) = (threw, record w { pool = p })
  with_connection fallback body w (returned c, p) =
      begin fallback body (record w { pool = p }) c w.faults

  unfoldable pub transact_leaky : A → Txn (Ending A) → Action A
  unfolding finish
  transact_leaky fallback body w = with_connection fallback body w (get_connection w.driver w.pool)

-- What a method leaves that keeps its connection: one more in use, and all else as it was.
pub record Leaks {ℓ} {A : Type ℓ} (w : World) (a : A) (r : Outcome A × World) : Type ℓ where
  pub outcome : r.0 ≡ returned a
  pub tables : r.1.db ≡ w.db
  pub one_more : busy r.1.pool.in_use ≡ suc (busy w.pool.in_use)
  pub healthy : IsHealthy r.1
  pub engine : r.1.engine ≡ w.engine

module _ {ℓ} {A : Type ℓ} (fallback : A) (body : Txn (Ending A)) (w : World) (h : IsHealthy w) where
  pub kept-Leaks :
      (a : A) (db : Db)
      → body w.db [] ≡ done (kept a) db []
      → Leaks w a (transact_leaky fallback body w)
  unfolding transact_leaky
  kept-Leaks a db e =
      let (c, p, got) = get_connection-Returns w.driver w.pool h.connects in
      rw (got, h.quiet, e)
        (record {
          outcome = refl;
          tables = refl;
          one_more = (get-Lends w.driver w.pool p c h.valid got).one_more;
          healthy = record {
            valid = get-IsValid w.driver w.pool p c h.valid got;
            connects = h.connects;
            quiet = refl;
          };
          engine = refl;
        })

module _ {ℓ} {A : Type ℓ} (fallback : A) (body : Txn (Ending A)) (w : World) (h : IsHealthy w) where
  pub settled-Runs :
      (o : Outcome A) (db : Db)
      → body w.db [] ≡ done (settled (commit o)) db []
      → Runs w o db (transact_leaky fallback body w)
  unfolding transact_leaky finish try_commit give_back
  settled-Runs o db e =
      let (c, p, got) = get_connection-Returns w.driver w.pool h.connects in
      rw (got, h.quiet, e)
        (record {
          outcome = refl;
          tables = refl;
          healthy = record {
            valid = (get-return w.driver w.pool p c h.valid got).1;
            connects = h.connects;
            quiet = refl;
          };
          engine = refl;
          clock = refl;
        })

-- What an ending means for the tables.
abbrev pub Ends {ℓ κ} : {A : Type ℓ} → (Outcome A → Db → Type κ) → Db → Ending A → Db → Type κ
Ends Q before (settled v) after = Settles Q before v after
Ends Q before (kept a) after = Q (returned a) before

module _ {ℓ κ} {A : Type ℓ} (Q : Outcome A → Db → Type κ) (fallback : A) (w : World) where
  end_work-rule :
      (c : ℕ) (p : DbPool) (r : Reply (Ending A))
      → Q (returned fallback) w.db
      → Yields (Ends Q w.db) r
      → Q
          (end_work fallback (record w { pool = p }) c r).0
          (end_work fallback (record w { pool = p }) c r).1.db
  end_work-rule c p (failed fs) hf h = finish-Holds Q fallback w c p (failed fs) hf tt
  end_work-rule c p (done (settled v) db fs) hf h =
      finish-Holds Q fallback w c p (done v db fs) hf h
  end_work-rule c p (done (kept a) db fs) hf h = h

  -- The rule of `transact_rule`, for a method that may keep its connection.
  pub leaky_rule :
      (body : Txn (Ending A))
      → Q threw w.db
      → Q (returned fallback) w.db
      → ((fs' : List Bool) → Yields (Ends Q w.db) (body w.db fs'))
      → Q (transact_leaky fallback body w).0 (transact_leaky fallback body w).1.db
  unfolding transact_leaky
  leaky_rule body ht hf h = go (get_connection w.driver w.pool)
    where
      started :
          (c : ℕ) (p : DbPool) (fs : List Bool)
          → Q
              (begin fallback body (record w { pool = p }) c fs).0
              (begin fallback body (record w { pool = p }) c fs).1.db
      started c p [] = end_work-rule c p (body w.db []) hf (h [])
      started c p (true ∷ fs) = ht
      started c p (false ∷ fs) = end_work-rule c p (body w.db fs) hf (h fs)

      go :
          (g : Outcome ℕ × DbPool)
          → Q (with_connection fallback body w g).0 (with_connection fallback body w g).1.db
      go (threw, p) = ht
      go (returned c, p) = started c p w.faults
