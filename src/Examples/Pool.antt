-- ===== src/Examples/Pool.antt =====
-- Tests of the pool and of the frame of the repository methods.
use back_end_doc.Common.{ℕ, ◌≡◌, ◌≢◌, ◌↔◌, refl, true, false, some, [], ◌∷◌, returned, head?}
use back_end_doc.DbPool.{DbPool, get_connection, create, scan}
use back_end_doc.DbPool.Vectors.{IsValid, busy}
use back_end_doc.DbPool.Lending.{Got, get_connection-Got}
use back_end_doc.Db.Transaction.{pure, commit}
use back_end_doc.World.{World, transact}
use back_end_doc.World.Frame.{transact_returns}
use back_end_doc.PasswordUtil.{
  verify_password, hash_password, verify-hash, is_hex, hash_password-bounds,
}
use back_end_doc.Common.{Bytes, All, length, ◌≤◌, ◌++◌}
use back_end_doc.Examples.{
  al, secret, sample_driver, sample_engine, sample_pool, sample_pool-IsValid, sample_world,
}

get_connection-Got_example :
    Got sample_pool
      (get_connection sample_driver sample_pool).0
      (get_connection sample_driver sample_pool).1
get_connection-Got_example = get_connection-Got sample_driver sample_pool sample_pool-IsValid

-- The closed connection 2 is replaced by connection 6.
abbrev lent_pool : DbPool
lent_pool = record { connections = 1 ∷ 6 ∷ []; in_use = true ∷ true ∷ [] }

lends_six : get_connection sample_driver sample_pool ≡ (returned 6, lent_pool)
unfolding get_connection scan
lends_six = refl

abbrev new_pool : DbPool
new_pool = record { connections = 1 ∷ 3 ∷ []; in_use = false ∷ false ∷ [] }

makes_two : create sample_driver 2 ≡ returned new_pool
unfolding create
makes_two = refl

-- The second statement throws; BEGIN is the first.
abbrev shaky_world : World
shaky_world = record sample_world { faults = false ∷ true ∷ [] }

begins : head? shaky_world.faults ≢ some true
begins e = absurd (cc)

transact_returns_example :
    (busy (transact {A = ℕ} 0 (pure (commit (returned 1))) shaky_world).1.pool.in_use
      ≡ busy sample_pool.in_use)
    × IsValid (transact {A = ℕ} 0 (pure (commit (returned 1))) shaky_world).1.pool
transact_returns_example =
    transact_returns {A = ℕ} 0 (pure (commit (returned 1))) shaky_world sample_pool-IsValid begins

verify-hash_example :
    (verify_password sample_engine al (hash_password sample_engine secret) ≡ true)
    ↔ (sample_engine.sha256 al ≡ sample_engine.sha256 secret)
verify-hash_example = verify-hash sample_engine al secret

abbrev four_times : Bytes → Bytes
four_times text = text ++ text ++ text ++ text

hash_password-bounds_example :
    (length (hash_password sample_engine (four_times (four_times al))) ≡ 64)
    × (length (hash_password sample_engine (four_times (four_times al))) ≤ 255)
    × All (λ c. is_hex c ≡ true) (hash_password sample_engine (four_times (four_times al)))
hash_password-bounds_example = hash_password-bounds sample_engine (four_times (four_times al)) refl
