-- ===== src/DbPool/Supply.antt =====
-- The pool where every connection can be made (MatchingServer/src/util/db_pool.cpp).
use back_end_doc.Common.{
  ℕ, ◌≡◌, refl, Bool, true, false, List, [], ◌∷◌, ◌++◌, Outcome, returned, some, Bool-cases, inl,
  inr,
}
use back_end_doc.DbPool.{
  Driver, DbPool, Slot, claimed, broken, exhausted, scan, take_slot, behind, grow, get_connection,
}

abbrev pub Connects : Driver → Type 0
Connects d = (live : List ℕ) → (c : ℕ) × (d.connect live ≡ some c)

abbrev Whole : Slot → Type 0
Whole broken = ⊥
Whole _ = Unit

take_slot-Whole :
    (d : Driver) (live : List ℕ) (c : ℕ) (cs : List ℕ) (us : List Bool)
    → Connects d
    → Whole (take_slot d live c cs us)
unfolding take_slot
take_slot-Whole d live c cs us h = elim (Bool-cases (d.is_open c)) [
  | inl e ↦ rw e tt
  | inr e ↦ let (fresh, made) = h live in rw (e, made) tt
]

behind-Whole : (c : ℕ) (s : Slot) → Whole s → Whole (behind c s)
unfolding behind
behind-Whole c (claimed got cs us) h = tt
behind-Whole c broken h = h
behind-Whole c exhausted h = tt

scan-Whole :
    (d : Driver) (live cs : List ℕ) (us : List Bool) → Connects d → Whole (scan d live cs us)
unfolding scan
scan-Whole d live [] us h = tt
scan-Whole d live (c ∷ cs) [] h = tt
scan-Whole d live (c ∷ cs) (false ∷ us) h = take_slot-Whole d live c cs us h
scan-Whole d live (c ∷ cs) (true ∷ us) h = behind-Whole c _ (scan-Whole d live cs us h)

abbrev pub Returns : Outcome ℕ × DbPool → Type 0
Returns r = (c : ℕ) × (q : DbPool) × (r ≡ (returned c, q))

-- If every connection can be made, the pool always lends one.
pub get_connection-Returns : (d : Driver) (p : DbPool) → Connects d → Returns (get_connection d p)
unfolding get_connection grow
get_connection-Returns d p h =
    go (scan d p.connections p.connections p.in_use) refl
      (scan-Whole d p.connections p.connections p.in_use h)
  where
    go :
        (s : Slot)
        → scan d p.connections p.connections p.in_use ≡ s
        → Whole s
        → Returns (get_connection d p)
    go (claimed c cs us) e k = (c, record { connections = cs; in_use = us }, rw (e, get_connection))
    go broken e k = absurd k
    go exhausted e k =
        let (c, made) = h p.connections in
        rw (e, get_connection, made, grow)
          (
            c,
            record { connections = p.connections ++ c ∷ []; in_use = p.in_use ++ true ∷ [] },
            refl,
          )
