-- ===== src/World.antt =====
-- What the repositories of MatchingServer/src/repository share: the pool, the tables, and the frame
-- of every method, `get_connection`, `pqxx::work`, a `try` block with `commit` or `abort` on each
-- path, `return_connection`, and a `catch` that aborts and returns a default.
pub mod Frame
pub mod Binding
pub mod Keeps
pub mod Healthy
pub mod Leaky
pub mod Sequence
use back_end_doc.Common.{
  ℕ, ◌≡◌, Bool, true, false, List, [], ◌∷◌, Outcome, returned, threw, Bytes, All, ◌<◌,
}
use back_end_doc.DbPool.{Driver, DbPool, get_connection, return_connection}
use back_end_doc.Db.{Db, User, Game}
use back_end_doc.Db.Query.{has_user, find_game}
use back_end_doc.Db.Transaction.{Reply, done, failed, Txn, Verdict, commit, abort}
use mathlib.Core.Option.{Option, none, some}

-- PostgreSQL: LOWER, the ids that the SERIAL columns give, and the default nickname. OpenSSL: the
-- SHA-256 digest, which is of bytes.
pub record Engine : Type 0 where
  pub lower : Bytes → Bytes
  pub next_user : List User → ℕ
  pub next_user_fresh : (us : List User) → has_user (next_user us) us ≡ false
  pub next_game : List Game → ℕ
  pub next_game_fresh : (gs : List Game) → find_game (next_game gs) gs ≡ none
  pub default_nick : List User → Bytes
  pub sha256 : Bytes → Bytes
  pub sha256_bytes : (text : Bytes) → All (λ b. b < 256) (sha256 text)

-- `faults` says which of the coming statements throw; `now` is CURRENT_TIMESTAMP.
pub record World : Type 0 where
  pub driver : Driver
  pub engine : Engine
  pub pool : DbPool
  pub db : Db
  pub faults : List Bool
  pub now : ℕ

-- A method of a repository or a service: it may throw, and what it did before stays done.
abbrev pub Action {ℓ} : Type ℓ → Type ℓ
Action A = World → Outcome A × World

module _ {ℓ} {A : Type ℓ} where
  abbrev pub return : A → Action A
  return a w = (returned a, w)

  abbrev pub throw : Action A
  throw w = (threw, w)

  abbrev pub lift : Outcome A → Action A
  lift o w = (o, w)

  -- try { m } catch (...) { return fallback }
  abbrev or_else : A → Outcome A × World → Outcome A × World
  or_else fallback (returned a, w) = (returned a, w)
  or_else fallback (threw, w) = (returned fallback, w)

  unfoldable pub catching : A → Action A → Action A
  catching fallback m w = or_else fallback (m w)

module _ {ℓ κ} {A : Type ℓ} {B : Type κ} where
  abbrev pub continue : Outcome A × World → (A → Action B) → Outcome B × World
  continue (returned a, w) k = k a w
  continue (threw, w) k = (threw, w)

  infixl 5 ◌>>=◌
  unfoldable pub ◌>>=◌ : Action A → (A → Action B) → Action B
  ◌>>=◌ m k w = continue (m w) k

give_back : ℕ → World → World
give_back c w = record w { pool = return_connection c w.pool }

module _ {ℓ} {A : Type ℓ} where
  -- `txn.commit()` may throw too; then the `catch` block aborts.
  try_commit : A → World → ℕ → Outcome A → Db → List Bool → Outcome A × World
  unfolding give_back
  try_commit fallback w c o db [] = (o, give_back c (record w { db = db; faults = [] }))
  try_commit fallback w c o db (true ∷ fs) =
      (returned fallback, give_back c (record w { faults = fs }))
  try_commit fallback w c o db (false ∷ fs) = (o, give_back c (record w { db = db; faults = fs }))

  pub finish : A → World → ℕ → Reply (Verdict A) → Outcome A × World
  unfolding give_back try_commit
  finish fallback w c (failed fs) = (returned fallback, give_back c (record w { faults = fs }))
  finish fallback w c (done (abort a) db fs) = (returned a, give_back c (record w { faults = fs }))
  finish fallback w c (done (commit o) db fs) = try_commit fallback w c o db fs

  -- `pqxx::work txn(*conn)` sends BEGIN outside of the `try` block: if it throws, the exception
  -- leaves the method and the connection is not returned.
  begin_work : A → Txn (Verdict A) → World → ℕ → List Bool → Outcome A × World
  unfolding finish
  begin_work fallback body w c [] = finish fallback w c (body w.db [])
  begin_work fallback body w c (true ∷ fs) = (threw, record w { faults = fs })
  begin_work fallback body w c (false ∷ fs) = finish fallback w c (body w.db fs)

  connected : A → Txn (Verdict A) → World → Outcome ℕ × DbPool → Outcome A × World
  unfolding begin_work
  connected fallback body w (threw, p) = (threw, record w { pool = p })
  connected fallback body w (returned c, p) =
      begin_work fallback body (record w { pool = p }) c w.faults

  unfoldable pub transact : A → Txn (Verdict A) → Action A
  unfolding connected
  transact fallback body w = connected fallback body w (get_connection w.driver w.pool)
