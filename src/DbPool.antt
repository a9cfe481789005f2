-- ===== src/DbPool.antt =====
-- MatchingServer/src/util/db_pool.{h,cpp}: the pool of database connections. A connection is the
-- number of its shared pointer; what libpqxx does (is a connection open, does a new one succeed)
-- is the parameter `Driver`.
pub mod Vectors
mod Scan
pub mod Lending
pub mod Supply
use back_end_doc.Common.{
  ℕ, zero, suc, ◌≡◌, Bool, true, false, Option, none, some, List, [], ◌∷◌, ◌++◌, ◌==◌,
  if◌then◌else◌, member, Outcome, returned, threw,
}

-- `connect live` is the pointer of a new connection, made while the pointers `live` are held, or
-- `none` where the constructor of `pqxx::connection` throws.
pub record Driver : Type 0 where
  pub is_open : ℕ → Bool
  pub connect : List ℕ → Option ℕ
  pub connect_fresh : (live : List ℕ) (c : ℕ) → connect live ≡ some c → member c live ≡ false

pub record DbPool : Type 0 where
  pub connections : List ℕ
  pub in_use : List Bool

add_connection : Driver → DbPool → Outcome DbPool
add_connection d p = elim (d.connect p.connections) [
  | none ↦ threw
  | some c ↦
      returned (record { connections = p.connections ++ c ∷ []; in_use = p.in_use ++ false ∷ [] })
]

-- The constructor: `size` connections, none in use, or an exception from one of them.
unfoldable pub create : Driver → ℕ → Outcome DbPool
unfolding add_connection
create d zero = returned (record { connections = []; in_use = [] })
create d (suc size) = elim (create d size) [ threw ↦ threw | returned p ↦ add_connection d p ]

-- What the loop of `get_connection` does at the first slot that is not in use.
pub data Slot : Type 0 where
  claimed : ℕ → List ℕ → List Bool → Slot
  broken : Slot
  exhausted : Slot

behind : ℕ → Slot → Slot
behind c (claimed got cs us) = claimed got (c ∷ cs) (true ∷ us)
behind c broken = broken
behind c exhausted = exhausted

-- An open connection is lent as it is; a closed one is replaced, and if that throws the slot is
-- free again. `live` are the pointers of the whole pool.
take_slot : Driver → List ℕ → ℕ → List ℕ → List Bool → Slot
take_slot d live c cs us =
    if d.is_open c then claimed c (c ∷ cs) (true ∷ us) else elim (d.connect live) [
      | none ↦ broken
      | some fresh ↦ claimed fresh (fresh ∷ cs) (true ∷ us)
    ]

unfoldable pub scan : Driver → List ℕ → List ℕ → List Bool → Slot
unfolding behind take_slot
scan d live (c ∷ cs) (false ∷ us) = take_slot d live c cs us
scan d live (c ∷ cs) (true ∷ us) = behind c (scan d live cs us)
scan d live _ _ = exhausted

grow : Driver → DbPool → Outcome ℕ × DbPool
grow d p = elim (d.connect p.connections) [
  | none ↦ (threw, p)
  | some c ↦
      (returned c, record { connections = p.connections ++ c ∷ []; in_use = p.in_use ++ true ∷ [] })
]

unfoldable pub get_connection : Driver → DbPool → Outcome ℕ × DbPool
unfolding scan grow
get_connection d p = elim (scan d p.connections p.connections p.in_use) [
  | claimed c cs us ↦ (returned c, record { connections = cs; in_use = us })
  | broken ↦ (threw, p)
  | exhausted ↦ grow d p
]

pub release : ℕ → List ℕ → List Bool → List Bool
release c (x ∷ cs) (u ∷ us) = if x == c then false ∷ us else u ∷ release c cs us
release c cs us = us

unfoldable pub return_connection : ℕ → DbPool → DbPool
unfolding release
return_connection c p = record p { in_use = release c p.connections p.in_use }
