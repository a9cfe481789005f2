-- ===== src/DbPool/Scan.antt =====
-- The loop of `get_connection` (MatchingServer/src/util/db_pool.cpp).
use back_end_doc.Common.{
  ℕ, suc, ◌≡◌, ◌≢◌, ◌⊎◌, inl, inr, refl, ap, Bool, true, false, List, [], ◌∷◌, arith, length,
  member, Bool-cases, Option-cases,
}
use back_end_doc.DbPool.{Driver, Slot, claimed, broken, exhausted, take_slot, behind, scan, release}
use back_end_doc.DbPool.Vectors.{Distinct, Lends, lent, busy, lent-member, not_lent}

-- What the scan of a part of the pool tells of the rest.
pub record Found (live : List ℕ) (c : ℕ) (cs : List ℕ) (us : List Bool) (cs' : List ℕ)
    (us' : List Bool) : Type 0 where
  pub lends : Lends c cs us cs' us'
  pub origin : (member c cs ≡ true) ⊎ (member c live ≡ false)
  pub kept : (e : ℕ) → e ≢ c → member e cs ≡ false → member e cs' ≡ false
  pub distinct : Distinct cs'
  pub same_length : length us' ≡ length cs'

abbrev pub Within : List ℕ → List ℕ → Type 0
Within cs live = (e : ℕ) → member e cs ≡ true → member e live ≡ true

module _ (d : Driver) (live : List ℕ) where
  reuse-Found :
      (c : ℕ) (cs : List ℕ) (us : List Bool)
      → member c cs ≡ false
      → Distinct cs
      → length us ≡ length cs
      → Found live c (c ∷ cs) (false ∷ us) (c ∷ cs) (true ∷ us)
  unfolding lent member busy release
  reuse-Found c cs us new dis len = record {
    lends = record {
      was_free = ground arith;
      now_lent = ground arith;
      others = λ e h. ground arith;
      one_more = refl;
      returned_free = ground arith;
    };
    origin = inl (ground arith);
    kept = λ e ne h. h;
    distinct = (new, dis);
    same_length = omega arith;
  }

  replace-Found :
      (c fresh : ℕ) (cs : List ℕ) (us : List Bool)
      → member c live ≡ true
      → Within cs live
      → member fresh live ≡ false
      → Distinct cs
      → length us ≡ length cs
      → Found live fresh (c ∷ cs) (false ∷ us) (fresh ∷ cs) (true ∷ us)
  unfolding lent member busy release
  replace-Found c fresh cs us held sub new dis len = record {
    lends = record {
      was_free = ground (arith, not_lent fresh cs us, absent);
      now_lent = ground arith;
      others = λ e h. ground (arith, lent-member e cs us, sub e);
      one_more = refl;
      returned_free = ground arith;
    };
    origin = inr new;
    kept = λ e ne h. ground arith;
    distinct = (absent, dis);
    same_length = omega arith;
  }
    where
      absent : member fresh cs ≡ false
      absent = ground (arith, sub fresh)

  behind-Found :
      (x c : ℕ) (cs : List ℕ) (us : List Bool) (cs' : List ℕ) (us' : List Bool)
      → member x cs ≡ false
      → member x live ≡ true
      → Found live c cs us cs' us'
      → Found live c (x ∷ cs) (true ∷ us) (x ∷ cs') (true ∷ us')
  unfolding lent member busy release
  behind-Found x c cs us cs' us' new held f = record {
    lends = record {
      was_free = ground (arith, f.lends.was_free, apart);
      now_lent = ground (arith, f.lends.now_lent, apart);
      others = λ e h. ground (arith, f.lends.others e);
      one_more = ground (arith, f.lends.one_more);
      returned_free = ground (arith, f.lends.returned_free, apart);
    };
    origin = ground (arith, f.origin);
    kept = λ e ne h. ground (arith, f.kept e);
    distinct = (f.kept x (λ e. apart e) new, f.distinct);
    same_length = omega (arith, f.same_length);
  }
    where
      apart : x ≢ c
      apart e = ground (arith, f.origin)

abbrev pub Scanned : List ℕ → List ℕ → List Bool → Slot → Type 0
Scanned live cs us (claimed c cs' us') = Found live c cs us cs' us'
Scanned live cs us broken = Unit
Scanned live cs us exhausted = busy us ≡ length cs

take_slot-Scanned :
    (d : Driver) (live : List ℕ) (c : ℕ) (cs : List ℕ) (us : List Bool)
    → member c live ≡ true
    → Within cs live
    → member c cs ≡ false
    → Distinct cs
    → length us ≡ length cs
    → Scanned live (c ∷ cs) (false ∷ us) (take_slot d live c cs us)
unfolding take_slot
take_slot-Scanned d live c cs us held sub new dis len = elim (Bool-cases (d.is_open c)) [
  | inl e ↦ rw e (reuse-Found d live c cs us new dis len)
  | inr e ↦ elim (Option-cases (d.connect live)) [
    | inl none_made ↦ rw (e, none_made) tt
    | inr (fresh, made) ↦
        rw (e, made)
          (replace-Found d live c fresh cs us held sub (d.connect_fresh live fresh made) dis len)
  ]
]

behind-Scanned :
    (d : Driver) (live : List ℕ) (c : ℕ) (cs : List ℕ) (us : List Bool) (s : Slot)
    → member c live ≡ true
    → member c cs ≡ false
    → Scanned live cs us s
    → Scanned live (c ∷ cs) (true ∷ us) (behind c s)
unfolding behind busy
behind-Scanned d live c cs us (claimed got cs' us') held new f =
    behind-Found d live c got cs us cs' us' new held f
behind-Scanned d live c cs us broken held new f = tt
behind-Scanned d live c cs us exhausted held new f = ap suc f

Within-head : (c : ℕ) (cs live : List ℕ) → Within (c ∷ cs) live → member c live ≡ true
unfolding member
Within-head c cs live sub = sub c (ground arith)

Within-tail : (c : ℕ) (cs live : List ℕ) → Within (c ∷ cs) live → Within cs live
unfolding member
Within-tail c cs live sub e h = sub e (ground arith)

pub scan-Scanned :
    (d : Driver) (live cs : List ℕ) (us : List Bool)
    → Within cs live
    → Distinct cs
    → length us ≡ length cs
    → Scanned live cs us (scan d live cs us)
unfolding scan busy
scan-Scanned d live [] [] sub dis len = refl
scan-Scanned d live [] (u ∷ us) sub dis len = absurd (omega arith)
scan-Scanned d live (c ∷ cs) [] sub dis len = absurd (omega arith)
scan-Scanned d live (c ∷ cs) (false ∷ us) sub dis len =
    take_slot-Scanned d live c cs us (Within-head c cs live sub) (Within-tail c cs live sub) dis.0
      dis.1 (omega arith)
scan-Scanned d live (c ∷ cs) (true ∷ us) sub dis len =
    behind-Scanned d live c cs us (scan d live cs us) (Within-head c cs live sub) dis.0
      (scan-Scanned d live cs us (Within-tail c cs live sub) dis.1 (omega arith))
