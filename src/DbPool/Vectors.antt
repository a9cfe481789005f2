-- ===== src/DbPool/Vectors.antt =====
-- The two parallel vectors of the pool (MatchingServer/src/util/db_pool.h): which connections are
-- in use, and what changes when a slot is added.
use back_end_doc.Common.{
  ℕ, suc, ◌+◌, ◌≡◌, ◌≢◌, refl, Bool, true, false, List, [], ◌∷◌, ◌++◌, arith, ◌==◌, if◌then◌else◌,
  length, member,
}
use back_end_doc.DbPool.{DbPool, release}

-- Each pointer stands in one slot.
abbrev pub Distinct : List ℕ → Type 0
Distinct [] = Unit
Distinct (c ∷ cs) = (member c cs ≡ false) × Distinct cs

-- The two vectors have one length, and each pointer stands in one slot.
pub record IsValid (p : DbPool) : Type 0 where
  pub same_length : length p.in_use ≡ length p.connections
  pub distinct : Distinct p.connections

-- Is the connection `c` marked as in use?
unfoldable pub lent : ℕ → List ℕ → List Bool → Bool
lent c (x ∷ cs) (u ∷ us) = if x == c then u else lent c cs us
lent c cs us = false

-- The number of connections in use.
unfoldable pub busy : List Bool → ℕ
busy [] = 0
busy (true ∷ us) = suc (busy us)
busy (false ∷ us) = busy us

-- `cs'` and `us'` are the vectors after the free connection `c` was put in use.
pub record Lends (c : ℕ) (cs : List ℕ) (us : List Bool) (cs' : List ℕ) (us' : List Bool)
    : Type 0 where
  pub was_free : lent c cs us ≡ false
  pub now_lent : lent c cs' us' ≡ true
  pub others : (e : ℕ) → lent e cs us ≡ true → lent e cs' us' ≡ true
  pub one_more : busy us' ≡ suc (busy us)
  pub returned_free : busy (release c cs' us') ≡ busy us

pub lent-member : (e : ℕ) (cs : List ℕ) (us : List Bool) → lent e cs us ≡ true → member e cs ≡ true
unfolding lent member
lent-member e [] us h = cc
lent-member e (x ∷ cs) [] h = cc
lent-member e (x ∷ cs) (u ∷ us) h = ground (arith, lent-member e cs us)

pub not_lent : (e : ℕ) (cs : List ℕ) (us : List Bool) → member e cs ≡ false → lent e cs us ≡ false
unfolding lent member
not_lent e [] us h = refl
not_lent e (x ∷ cs) [] h = refl
not_lent e (x ∷ cs) (u ∷ us) h = ground (arith, not_lent e cs us)

-- The pool grown by one slot.
module _ (c : ℕ) where
  pub lent_outside :
      (e : ℕ) (cs : List ℕ) (us : List Bool)
      → length us ≡ length cs
      → member c cs ≡ false
      → lent e cs us ≡ true
      → lent e (cs ++ c ∷ []) (us ++ true ∷ []) ≡ true
  unfolding lent member
  lent_outside e [] us len new h = cc
  lent_outside e (x ∷ cs) [] len new h = cc
  lent_outside e (x ∷ cs) (u ∷ us) len new h = ground (arith, lent_outside e cs us)

  pub lent_last :
      (cs : List ℕ) (us : List Bool)
      → length us ≡ length cs
      → member c cs ≡ false
      → lent c (cs ++ c ∷ []) (us ++ true ∷ []) ≡ true
  unfolding lent member
  lent_last [] [] len new = ground arith
  lent_last [] (u ∷ us) len new = absurd (omega arith)
  lent_last (x ∷ cs) [] len new = absurd (omega arith)
  lent_last (x ∷ cs) (u ∷ us) len new = ground (arith, lent_last cs us)

  pub busy_last : (us : List Bool) (u : Bool) → busy (us ++ u ∷ []) ≡ busy us + busy (u ∷ [])
  unfolding busy
  busy_last [] u = omega arith
  busy_last (true ∷ us) u = omega (arith, busy_last us u)
  busy_last (false ∷ us) u = omega (arith, busy_last us u)

  pub release_last :
      (cs : List ℕ) (us : List Bool)
      → length us ≡ length cs
      → member c cs ≡ false
      → release c (cs ++ c ∷ []) (us ++ true ∷ []) ≡ us ++ false ∷ []
  unfolding release member
  release_last [] [] len new = ground arith
  release_last [] (u ∷ us) len new = absurd (omega arith)
  release_last (x ∷ cs) [] len new = absurd (omega arith)
  release_last (x ∷ cs) (u ∷ us) len new = ground (arith, release_last cs us)

  pub member_last :
      (e : ℕ) (cs : List ℕ) → e ≢ c → member e cs ≡ false → member e (cs ++ c ∷ []) ≡ false
  unfolding member
  member_last e [] ne h = ground arith
  member_last e (x ∷ cs) ne h = ground (arith, member_last e cs)

  pub Distinct-last : (cs : List ℕ) → Distinct cs → member c cs ≡ false → Distinct (cs ++ c ∷ [])
  unfolding member
  Distinct-last [] dis new = (refl, tt)
  Distinct-last (x ∷ cs) dis new =
      (member_last x cs (λ e. ground arith) dis.0, Distinct-last cs dis.1 (ground arith))

  pub append-Lends :
      (cs : List ℕ) (us : List Bool)
      → length us ≡ length cs
      → member c cs ≡ false
      → Lends c cs us (cs ++ c ∷ []) (us ++ true ∷ [])
  unfolding busy
  append-Lends cs us len new = record {
    was_free = not_lent c cs us new;
    now_lent = lent_last cs us len new;
    others = λ e h. lent_outside e cs us len new h;
    one_more = omega (arith, busy_last us true);
    returned_free = rw (release_last cs us len new) (omega (arith, busy_last us false));
  }
