-- ===== src/World/Binding.antt =====
-- Case analysis on what an action does.
use back_end_doc.Common.{◌≡◌, refl, ap, Outcome, returned, threw}
use back_end_doc.World.{World, Action, continue, ◌>>=◌, catching, or_else}

-- The pair of an outcome that is known and the world that is left.
pub split_run {ℓ} : {A : Type ℓ} (r : Outcome A × World) (o : Outcome A) → r.0 ≡ o → r ≡ (o, r.1)
split_run r o e = λ i. (e i, r.1)

module _ {ℓ κ} {A : Type ℓ} {B : Type κ} where
  -- After a returned value the rest runs in the world that is left.
  pub bind-returned :
      (m : Action A) (k : A → Action B) (w : World) (a : A)
      → (m w).0 ≡ returned a
      → (m >>= k) w ≡ k a (m w).1
  unfolding ◌>>=◌
  bind-returned m k w a e = ap (λ o. continue (o, (m w).1) k) e

  continue_rule {ι} :
      (P : Outcome B × World → Type ι) (k : A → Action B) (r : Outcome A × World)
      → (r.0 ≡ threw → P (threw, r.1))
      → ((a : A) → r.0 ≡ returned a → P (k a r.1))
      → P (continue r k)
  continue_rule P k (threw, w) ht hr = ht refl
  continue_rule P k (returned a, w) ht hr = hr a refl

  -- A property of a bind: of the exception, and of the rest at each value.
  pub bind_rule {ι} :
      (P : Outcome B × World → Type ι) (m : Action A) (k : A → Action B) (w : World)
      → ((m w).0 ≡ threw → P (threw, (m w).1))
      → ((a : A) → (m w).0 ≡ returned a → P (k a (m w).1))
      → P ((m >>= k) w)
  unfolding ◌>>=◌
  bind_rule P m k w ht hr = continue_rule P k (m w) ht hr

module _ {ℓ} {A : Type ℓ} where
  or_else_rule {ι} :
      (P : Outcome A × World → Type ι) (fallback : A) (r : Outcome A × World)
      → (r.0 ≡ threw → P (returned fallback, r.1))
      → ((a : A) → r.0 ≡ returned a → P (returned a, r.1))
      → P (or_else fallback r)
  or_else_rule P fallback (threw, w) ht hr = ht refl
  or_else_rule P fallback (returned a, w) ht hr = hr a refl

  -- A property of a `try` block: of its value, and of the default where it throws.
  pub catching_rule {ι} :
      (P : Outcome A × World → Type ι) (fallback : A) (m : Action A) (w : World)
      → ((m w).0 ≡ threw → P (returned fallback, (m w).1))
      → ((a : A) → (m w).0 ≡ returned a → P (returned a, (m w).1))
      → P (catching fallback m w)
  unfolding catching
  catching_rule P fallback m w ht hr = or_else_rule P fallback (m w) ht hr

  pub catching-returned :
      (fallback : A) (m : Action A) (w : World) (a : A)
      → (m w).0 ≡ returned a
      → catching fallback m w ≡ (returned a, (m w).1)
  unfolding catching
  catching-returned fallback m w a e = ap (λ o. or_else fallback (o, (m w).1)) e
