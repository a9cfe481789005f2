-- ===== src/DbPool/Lending.antt =====
-- What `get_connection`, `return_connection` and the constructor of the pool promise.
use back_end_doc.Common.{
  ℕ, zero, suc, ◌≡◌, inl, inr, refl, subst, List, [], ◌∷◌, ◌++◌, Bool, true, false, arith, length,
  length-append, Option-cases, Outcome-cases, member, Outcome, returned, threw,
}
use back_end_doc.DbPool.{
  Driver, DbPool, Slot, claimed, broken, exhausted, scan, grow, get_connection, release,
  return_connection, add_connection, create,
}
use back_end_doc.DbPool.Vectors.{IsValid, Lends, busy, busy_last, Distinct-last, append-Lends}
use back_end_doc.DbPool.Scan.{Scanned, scan-Scanned}

-- What `get_connection` may answer: a connection that was free, or an exception with the pool as
-- it was.
pub data Got (p : DbPool) : Outcome ℕ → DbPool → Type 0 where
  lends :
      {c : ℕ} {q : DbPool}
      → IsValid q
      → Lends c p.connections p.in_use q.connections q.in_use
      → Got p (returned c) q
  fails : Got p threw p

grow-Got : (d : Driver) (p : DbPool) → IsValid p → Got p (grow d p).0 (grow d p).1
unfolding grow
grow-Got d p v = elim (Option-cases (d.connect p.connections)) [
  | inl e ↦ rw (e, grow) fails
  | inr (c, e) ↦
      let new = d.connect_fresh p.connections c e in
      rw (e, grow)
        (lends
          (record {
            same_length = omega (
              arith,
              length-append p.in_use (true ∷ []),
              length-append p.connections (c ∷ []),
              v.same_length,
            );
            distinct = Distinct-last c p.connections v.distinct new;
          })
          (append-Lends c p.connections p.in_use v.same_length new))
]

-- From a valid pool `get_connection` lends a connection that was not in use, in a pool that is
-- valid again, or throws and leaves the pool as it was.
pub get_connection-Got :
    (d : Driver) (p : DbPool) → IsValid p → Got p (get_connection d p).0 (get_connection d p).1
unfolding get_connection
get_connection-Got d p v =
    go (scan d p.connections p.connections p.in_use) refl
      (scan-Scanned d p.connections p.connections p.in_use (λ e h. h) v.distinct v.same_length)
  where
    go :
        (s : Slot)
        → scan d p.connections p.connections p.in_use ≡ s
        → Scanned p.connections p.connections p.in_use s
        → Got p (get_connection d p).0 (get_connection d p).1
    go (claimed c cs us) e f =
        rw (e, get_connection)
          (lends (record { same_length = f.same_length; distinct = f.distinct }) f.lends)
    go broken e f = rw (e, get_connection) fails
    go exhausted e f = rw (e, get_connection) (grow-Got d p v)

Got-Lends :
    {p q : DbPool} {c : ℕ}
    → Got p (returned c) q
    → Lends c p.connections p.in_use q.connections q.in_use
Got-Lends (lends v l) = l

Got-threw : {p q : DbPool} → Got p threw q → q ≡ p
Got-threw fails = refl

Got-IsValid : {p q : DbPool} {c : ℕ} → Got p (returned c) q → IsValid q
Got-IsValid (lends v l) = v

get-Got :
    (d : Driver) (p q : DbPool) (r : Outcome ℕ)
    → IsValid p
    → get_connection d p ≡ (r, q)
    → Got p r q
get-Got d p q r v e = subst (λ x. Got p x.0 x.1) e (get_connection-Got d p v)

pub get-Lends :
    (d : Driver) (p q : DbPool) (c : ℕ)
    → IsValid p
    → get_connection d p ≡ (returned c, q)
    → Lends c p.connections p.in_use q.connections q.in_use
get-Lends d p q c v e = Got-Lends (get-Got d p q (returned c) v e)

pub get-IsValid :
    (d : Driver) (p q : DbPool) (c : ℕ)
    → IsValid p
    → get_connection d p ≡ (returned c, q)
    → IsValid q
get-IsValid d p q c v e = Got-IsValid (get-Got d p q (returned c) v e)

pub get-threw : (d : Driver) (p q : DbPool) → IsValid p → get_connection d p ≡ (threw, q) → q ≡ p
get-threw d p q v e = Got-threw (get-Got d p q threw v e)

length-release : (c : ℕ) (cs : List ℕ) (us : List Bool) → length (release c cs us) ≡ length us
unfolding release
length-release c [] us = refl
length-release c (x ∷ cs) [] = refl
length-release c (x ∷ cs) (u ∷ us) = ground (arith, length-release c cs us)

-- A connection that was lent and is returned leaves as many connections in use as before, in a
-- valid pool.
pub get-return :
    (d : Driver) (p q : DbPool) (c : ℕ)
    → IsValid p
    → get_connection d p ≡ (returned c, q)
    → (busy (return_connection c q).in_use ≡ busy p.in_use) × IsValid (return_connection c q)
unfolding return_connection
get-return d p q c v e = (
  (get-Lends d p q c v e).returned_free,
  record {
    same_length = omega (arith, length-release c q.connections q.in_use, valid.same_length);
    distinct = valid.distinct;
  },
)
  where
    valid : IsValid q
    valid = get-IsValid d p q c v e

-- The pool that a constructor makes: valid, of a given size, with no connection in use.
pub record IsFresh (n : ℕ) (p : DbPool) : Type 0 where
  pub valid : IsValid p
  pub size : length p.connections ≡ n
  pub idle : busy p.in_use ≡ 0

add_connection-IsFresh :
    (d : Driver) (n : ℕ) (q p : DbPool)
    → IsFresh n q
    → add_connection d q ≡ returned p
    → IsFresh (suc n) p
unfolding add_connection
add_connection-IsFresh d n q p f e = elim (Option-cases (d.connect q.connections)) [
  | inl failed ↦ absurd (cc (rw (failed, add_connection) at e))
  | inr (c, made) ↦
      subst (IsFresh (suc n)) (ground arith) (grown c (d.connect_fresh q.connections c made))
]
  where
    grown :
        (c : ℕ)
        → member c q.connections ≡ false
        → IsFresh
            (suc n)
            (record { connections = q.connections ++ c ∷ []; in_use = q.in_use ++ false ∷ [] })
    grown c new = record {
      valid = record {
        same_length = omega (
          arith,
          length-append q.in_use (false ∷ []),
          length-append q.connections (c ∷ []),
          f.valid.same_length,
        );
        distinct = Distinct-last c q.connections f.valid.distinct new;
      };
      size = omega (arith, length-append q.connections (c ∷ []), f.size);
      idle = unfold busy in omega (arith, busy_last c q.in_use false, f.idle);
    }

-- If no connection attempt throws, the constructor makes a valid pool of the size that is asked
-- for, with no connection in use.
pub create-IsFresh : (d : Driver) (n : ℕ) (p : DbPool) → create d n ≡ returned p → IsFresh n p
unfolding create busy
create-IsFresh d zero p e =
    subst (IsFresh 0) {x = record { connections = []; in_use = [] }} (ground arith)
      (record { valid = record { same_length = refl; distinct = tt }; size = refl; idle = refl })
create-IsFresh d (suc n) p e = elim (Outcome-cases (create d n)) [
  | inl failed ↦ absurd (ground arith)
  | inr (q, made) ↦ add_connection-IsFresh d n q p (create-IsFresh d n q made) (ground arith)
]
