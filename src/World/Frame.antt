-- ===== src/World/Frame.antt =====
-- What the frame of a repository method promises: all or nothing on the tables, and the connection
-- goes back to the pool.
use back_end_doc.Common.{
  ℕ, suc, ◌≡◌, ◌≢◌, refl, Bool, true, false, List, [], ◌∷◌, Outcome, returned, threw, some, head?,
}
use back_end_doc.DbPool.{DbPool, get_connection, return_connection}
use back_end_doc.DbPool.Vectors.{IsValid, busy}
use back_end_doc.DbPool.Lending.{get-return, get-threw, get-Lends}
use back_end_doc.Db.{Db}
use back_end_doc.Db.Transaction.{Reply, done, failed, Txn, Verdict, commit, abort, Yields}
use back_end_doc.World.{World, try_commit, finish, begin_work, connected, transact}

-- What a verdict means for the tables: after an abort they are as before.
abbrev pub Settles {ℓ κ} : {A : Type ℓ} → (Outcome A → Db → Type κ) → Db → Verdict A → Db → Type κ
Settles Q before (commit o) after = Q o after
Settles Q before (abort a) after = Q (returned a) before

module _ {ℓ κ} {A : Type ℓ} (Q : Outcome A → Db → Type κ) (fallback : A) (w : World) where
  abbrev Holds : Outcome A × World → Type κ
  Holds r = Q r.0 r.1.db

  try_commit-Holds :
      (v : World) (c : ℕ) (o : Outcome A) (db : Db) (fs : List Bool)
      → v.db ≡ w.db
      → Q (returned fallback) v.db
      → Q o db
      → Holds (try_commit fallback v c o db fs)
  unfolding try_commit
  try_commit-Holds v c o db [] e hf h = h
  try_commit-Holds v c o db (true ∷ fs) e hf h = hf
  try_commit-Holds v c o db (false ∷ fs) e hf h = h

  pub finish-Holds :
      (c : ℕ) (p : DbPool) (r : Reply (Verdict A))
      → Q (returned fallback) w.db
      → Yields (Settles Q w.db) r
      → Holds (finish fallback (record w { pool = p }) c r)
  unfolding finish
  finish-Holds c p (failed fs) hf h = hf
  finish-Holds c p (done (abort a) db fs) hf h = h
  finish-Holds c p (done (commit o) db fs) hf h =
      try_commit-Holds (record w { pool = p }) c o db fs refl hf h

  begin_work-Holds :
      (body : Txn (Verdict A)) (c : ℕ) (p : DbPool) (fs : List Bool)
      → Q threw w.db
      → Q (returned fallback) w.db
      → ((fs' : List Bool) → Yields (Settles Q w.db) (body w.db fs'))
      → Holds (begin_work fallback body (record w { pool = p }) c fs)
  unfolding begin_work
  begin_work-Holds body c p [] ht hf h = finish-Holds c p (body w.db []) hf (h [])
  begin_work-Holds body c p (true ∷ fs) ht hf h = ht
  begin_work-Holds body c p (false ∷ fs) ht hf h = finish-Holds c p (body w.db fs) hf (h fs)

  connected-Holds :
      (body : Txn (Verdict A)) (g : Outcome ℕ × DbPool)
      → Q threw w.db
      → Q (returned fallback) w.db
      → ((fs' : List Bool) → Yields (Settles Q w.db) (body w.db fs'))
      → Holds (connected fallback body w g)
  unfolding connected
  connected-Holds body (threw, p) ht hf h = ht
  connected-Holds body (returned c, p) ht hf h = begin_work-Holds body c p w.faults ht hf h

  -- The rule for a repository method: `Q` holds of its outcome and the tables afterwards if it holds
  -- of an exception and of the default with the tables as they were, and of each verdict of the body.
  pub transact_rule :
      (body : Txn (Verdict A))
      → Q threw w.db
      → Q (returned fallback) w.db
      → ((fs' : List Bool) → Yields (Settles Q w.db) (body w.db fs'))
      → Q (transact fallback body w).0 (transact fallback body w).1.db
  unfolding transact
  transact_rule body ht hf h = connected-Holds body (get_connection w.driver w.pool) ht hf h

module _ {ℓ} {A : Type ℓ} (fallback : A) (body : Txn (Verdict A)) where
  finish_returns :
      (w : World) (c : ℕ) (r : Reply (Verdict A))
      → (finish fallback w c r).1.pool ≡ return_connection c w.pool
  unfolding finish
  finish_returns w c (failed fs) = refl
  finish_returns w c (done (abort a) db fs) = refl
  finish_returns w c (done (commit o) db []) = refl
  finish_returns w c (done (commit o) db (true ∷ fs)) = refl
  finish_returns w c (done (commit o) db (false ∷ fs)) = refl

  begin_returns :
      (w : World) (c : ℕ) (fs : List Bool)
      → head? fs ≢ some true
      → (begin_work fallback body w c fs).1.pool ≡ return_connection c w.pool
  unfolding begin_work
  begin_returns w c [] h = finish_returns w c (body w.db [])
  begin_returns w c (true ∷ fs) h = absurd (h refl)
  begin_returns w c (false ∷ fs) h = finish_returns w c (body w.db fs)

  -- A method leaves the parameters of the world alone.
  finish_engine :
      (w : World) (c : ℕ) (r : Reply (Verdict A)) → (finish fallback w c r).1.engine ≡ w.engine
  unfolding finish
  finish_engine w c (failed fs) = refl
  finish_engine w c (done (abort a) db fs) = refl
  finish_engine w c (done (commit o) db []) = refl
  finish_engine w c (done (commit o) db (true ∷ fs)) = refl
  finish_engine w c (done (commit o) db (false ∷ fs)) = refl

  begin_engine :
      (w : World) (c : ℕ) (fs : List Bool) → (begin_work fallback body w c fs).1.engine ≡ w.engine
  unfolding begin_work
  begin_engine w c [] = finish_engine w c (body w.db [])
  begin_engine w c (true ∷ fs) = refl
  begin_engine w c (false ∷ fs) = finish_engine w c (body w.db fs)

  connected_engine :
      (w : World) (g : Outcome ℕ × DbPool) → (connected fallback body w g).1.engine ≡ w.engine
  unfolding connected
  connected_engine w (threw, p) = refl
  connected_engine w (returned c, p) = begin_engine (record w { pool = p }) c w.faults

  pub transact_engine : (w : World) → (transact fallback body w).1.engine ≡ w.engine
  unfolding transact
  transact_engine w = connected_engine w (get_connection w.driver w.pool)

  -- In a valid pool: whatever the statements of a method do, commit, abort or throw, as many
  -- connections are in use behind it as before, and the pool stays valid, unless BEGIN is what throws.
  pub transact_returns :
      (w : World)
      → IsValid w.pool
      → head? w.faults ≢ some true
      → (busy (transact fallback body w).1.pool.in_use ≡ busy w.pool.in_use)
        × IsValid (transact fallback body w).1.pool
  unfolding transact connected
  transact_returns w v h =
      go (get_connection w.driver w.pool).0 (get_connection w.driver w.pool).1 refl
    where
      go :
          (r : Outcome ℕ) (p : DbPool)
          → get_connection w.driver w.pool ≡ (r, p)
          → (busy (connected fallback body w (r, p)).1.pool.in_use ≡ busy w.pool.in_use)
            × IsValid (connected fallback body w (r, p)).1.pool
      go threw p e = rw (get-threw w.driver w.pool p v e) (refl, v)
      go (returned c) p e =
          rw (begin_returns (record w { pool = p }) c w.faults h)
            (get-return w.driver w.pool p c v e)

  -- If a valid pool lends a connection and BEGIN throws, the exception reaches the caller and the
  -- connection stays in use: one more than before.
  pub begin_leaks :
      (w : World) (c : ℕ) (p : DbPool) (fs : List Bool)
      → IsValid w.pool
      → get_connection w.driver w.pool ≡ (returned c, p)
      → w.faults ≡ true ∷ fs
      → ((transact fallback body w).0 ≡ threw)
        × (busy (transact fallback body w).1.pool.in_use ≡ suc (busy w.pool.in_use))
  unfolding transact connected begin_work
  begin_leaks w c p fs v e f =
      rw (e, connected, f, begin_work) (refl, (get-Lends w.driver w.pool p c v e).one_more)
