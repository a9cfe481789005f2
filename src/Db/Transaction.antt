-- ===== src/Db/Transaction.antt =====
-- What `pqxx::work` gives the repositories: statements run on a copy of the tables until `commit`.
-- Each statement uses up one entry of a schedule of faults; `true` stands for an exception.
use back_end_doc.Common.{
  ◌≡◌, refl, Bool, true, false, Option, none, some, List, [], ◌∷◌, Outcome, if◌then◌else◌,
}
use back_end_doc.Db.{Db}

pub data Reply {ℓ} (A : Type ℓ) : Type ℓ where
  done : A → Db → List Bool → Reply A
  failed : List Bool → Reply A

abbrev pub Txn {ℓ} : Type ℓ → Type ℓ
Txn A = Db → List Bool → Reply A

-- How the body of a repository method ends: `txn.commit()` and then the reading of the result, which
-- may throw, or `txn.abort()` and a value.
pub data Verdict {ℓ} (A : Type ℓ) : Type ℓ where
  commit : Outcome A → Verdict A
  abort : A → Verdict A

module _ {ℓ} {A : Type ℓ} where
  abbrev ran : Option (A × Db) → List Bool → Reply A
  ran none fs = failed fs
  ran (some (a, db)) fs = done a db fs

  -- `txn.exec_params(...)`; `none` is a constraint of the schema that the statement violates.
  unfoldable pub exec : (Db → Option (A × Db)) → Txn A
  exec statement db [] = ran (statement db) []
  exec statement db (true ∷ fs) = failed fs
  exec statement db (false ∷ fs) = ran (statement db) fs

  unfoldable pub query : (Db → A) → Txn A
  unfolding exec
  query read = exec (λ db. some (read db, db))

  unfoldable pub pure : A → Txn A
  pure a db fs = done a db fs

-- A statement whose rows are not read.
unfoldable pub update : (Db → Db) → Txn (Unit {0})
unfolding exec
update change = exec (λ db. some (tt, change db))

module _ {ℓ κ} {A : Type ℓ} {B : Type κ} where
  abbrev pub and_then : Reply A → (A → Txn B) → Reply B
  and_then (done a db fs) k = k a db fs
  and_then (failed fs) k = failed fs

  infixl 5 ◌>>=◌
  unfoldable pub ◌>>=◌ : Txn A → (A → Txn B) → Txn B
  ◌>>=◌ m k db fs = and_then (m db fs) k

-- `P` holds of what the transaction yields, whichever statements throw.
abbrev pub Yields {ℓ κ} : {A : Type ℓ} → (A → Db → Type κ) → Reply A → Type κ
Yields P (done a db fs) = P a db
Yields P (failed fs) = Unit

module _ {ℓ κ ι ζ} {A : Type ℓ} {B : Type κ} (Q : A → Db → Type ι) (P : B → Db → Type ζ) where
  and_then-Yields :
      (r : Reply A) (k : A → Txn B)
      → Yields Q r
      → ((a : A) (db' : Db) (fs' : List Bool) → Q a db' → Yields P (k a db' fs'))
      → Yields P (and_then r k)
  and_then-Yields (done a db fs) k q h = h a db fs q
  and_then-Yields (failed fs) k q h = tt

  pub bind-Yields :
      (m : Txn A) (k : A → Txn B) (db : Db) (fs : List Bool)
      → Yields Q (m db fs)
      → ((a : A) (db' : Db) (fs' : List Bool) → Q a db' → Yields P (k a db' fs'))
      → Yields P ((m >>= k) db fs)
  unfolding ◌>>=◌
  bind-Yields m k db fs q h = and_then-Yields (m db fs) k q h

-- One rule for each way in which a body goes on.
module _ {ℓ κ ι} {A : Type ℓ} {B : Type κ} (P : B → Db → Type ι) (k : A → Txn B) (db : Db) where
  pub query-Yields :
      (read : Db → A) (fs : List Bool)
      → ((fs' : List Bool) → Yields P (k (read db) db fs'))
      → Yields P ((query read >>= k) db fs)
  unfolding query ◌>>=◌
  query-Yields read [] h = h []
  query-Yields read (true ∷ fs) h = tt
  query-Yields read (false ∷ fs) h = h fs

  ran-Yields :
      (o : Option (A × Db)) (fs : List Bool)
      → ((a : A) (db' : Db) → o ≡ some (a, db') → Yields P (k a db' fs))
      → Yields P (and_then (ran o fs) k)
  ran-Yields none fs h = tt
  ran-Yields (some (a, db')) fs h = h a db' refl

  pub exec-Yields :
      (statement : Db → Option (A × Db)) (fs : List Bool)
      → ((a : A) (db' : Db) (fs' : List Bool)
          → statement db ≡ some (a, db')
          → Yields P (k a db' fs'))
      → Yields P ((exec statement >>= k) db fs)
  unfolding exec ◌>>=◌
  exec-Yields statement [] h = ran-Yields (statement db) [] (λ a db' e. h a db' [] e)
  exec-Yields statement (true ∷ fs) h = tt
  exec-Yields statement (false ∷ fs) h = ran-Yields (statement db) fs (λ a db' e. h a db' fs e)

module _ {κ ι} {B : Type κ} (P : B → Db → Type ι) (k : Unit {0} → Txn B) (db : Db) where
  pub update-Yields :
      (change : Db → Db) (fs : List Bool)
      → ((fs' : List Bool) → Yields P (k tt (change db) fs'))
      → Yields P ((update change >>= k) db fs)
  unfolding update ◌>>=◌
  update-Yields change [] h = h []
  update-Yields change (true ∷ fs) h = tt
  update-Yields change (false ∷ fs) h = h fs

module _ {ℓ κ} {A : Type ℓ} (P : A → Db → Type κ) (db : Db) (fs : List Bool) where
  pub if-Yields :
      (b : Bool) (m n : Txn A)
      → (b ≡ true → Yields P (m db fs))
      → (b ≡ false → Yields P (n db fs))
      → Yields P ((if b then m else n) db fs)
  if-Yields true m n ht hf = ht refl
  if-Yields false m n ht hf = hf refl

module _ {ℓ κ} {A : Type ℓ} (P : A → Db → Type κ) where
  pub pure-Yields : (a : A) (db : Db) (fs : List Bool) → P a db → Yields P (pure a db fs)
  unfolding pure
  pure-Yields a db fs h = h
