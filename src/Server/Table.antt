-- ===== src/Server/Table.antt =====
-- `std::unordered_map` with whole numbers for keys, as the server uses it.
use back_end_doc.Common.{ℕ, suc, ◌≡◌, Option, none, some, List, [], ◌∷◌, ◌==◌, if◌then◌else◌, arith}

module _ {ℓ} {V : Type ℓ} where
  unfoldable pub lookup : ℕ → List (ℕ × V) → Option V
  lookup k [] = none
  lookup k ((j, v) ∷ m) = if j == k then some v else lookup k m

  unfoldable pub erase : ℕ → List (ℕ × V) → List (ℕ × V)
  erase k [] = []
  erase k ((j, v) ∷ m) = let rest = erase k m in if j == k then rest else (j, v) ∷ rest

  -- m[k] = v
  unfoldable pub insert : ℕ → V → List (ℕ × V) → List (ℕ × V)
  insert k v m = (k, v) ∷ erase k m

  pub lookup-erase :
      (k j : ℕ) (m : List (ℕ × V)) → lookup j (erase k m) ≡ (if k == j then none else lookup j m)
  unfolding lookup erase
  lookup-erase k j [] = ground arith
  lookup-erase k j ((i, v) ∷ m) = ground (arith, lookup-erase k j m)

  pub lookup-insert :
      (k j : ℕ) (v : V) (m : List (ℕ × V))
      → lookup j (insert k v m) ≡ (if k == j then some v else lookup j m)
  unfolding insert lookup
  lookup-insert k j v m = ground (arith, lookup-erase k j m)

-- The first entry with a value is erased, as in the loops that stop at the first hit.
unfoldable pub erase_value : ℕ → List (ℕ × ℕ) → List (ℕ × ℕ)
erase_value a [] = []
erase_value a ((j, b) ∷ m) = if b == a then m else (j, b) ∷ erase_value a m

-- How many entries have a value.
unfoldable pub count_value : ℕ → List (ℕ × ℕ) → ℕ
count_value a [] = 0
count_value a ((j, b) ∷ m) = if b == a then suc (count_value a m) else count_value a m
