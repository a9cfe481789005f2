-- ===== src/World/Keeps.antt =====
-- Invariants of the tables, through the ways in which an action is put together.
use back_end_doc.Common.{◌≡◌, refl, Bool, true, false, Outcome, returned, if◌then◌else◌}
use back_end_doc.Db.{Db}
use back_end_doc.Db.Transaction
use back_end_doc.Db.Transaction.{commit, query, pure, query-Yields, pure-Yields}
use back_end_doc.World.Frame.{Settles, transact_rule}
use back_end_doc.World.{World, Action, return, lift, catching, transact, ◌>>=◌}
use back_end_doc.World.Binding.{bind_rule, catching_rule}

-- Whatever it returns or throws, `m` leaves tables with `P`.
pub record Keeps {ℓ} {A : Type ℓ} (P : Db → Type 0) (m : Action A) : Type ℓ where
  pub after : (w : World) → P w.db → P (m w).1.db

module _ {ℓ} {A : Type ℓ} (P : Db → Type 0) where
  pub Keeps-return : (a : A) → Keeps P (return a)
  Keeps-return a = record { after = λ w h. h }

  pub Keeps-lift : (o : Outcome A) → Keeps P (lift o)
  Keeps-lift o = record { after = λ w h. h }

  pub Keeps-if :
      (b : Bool) (m n : Action A)
      → (b ≡ true → Keeps P m)
      → (b ≡ false → Keeps P n)
      → Keeps P (if b then m else n)
  Keeps-if true m n hm hn = hm refl
  Keeps-if false m n hm hn = hn refl

  pub Keeps-catching : (fallback : A) (m : Action A) → Keeps P m → Keeps P (catching fallback m)
  Keeps-catching fallback m h = record {
    after =
        λ w p. catching_rule (λ r. P r.1.db) fallback m w (λ e. h.after w p) (λ a e. h.after w p);
  }

module _ {ℓ κ} {A : Type ℓ} {B : Type κ} (P : Db → Type 0) where
  -- The rest may use the value, where `m` fixes it.
  pub Keeps-bind-lift :
      (o : Outcome A) (k : A → Action B)
      → ((a : A) → o ≡ returned a → Keeps P (k a))
      → Keeps P (lift o >>= k)
  Keeps-bind-lift o k h = record {
    after = λ w p. bind_rule (λ r. P r.1.db) (lift o) k w (λ e. p) (λ a e. (h a e).after w p);
  }

  pub Keeps-bind :
      (m : Action A) (k : A → Action B) → Keeps P m → ((a : A) → Keeps P (k a)) → Keeps P (m >>= k)
  Keeps-bind m k hm hk = record {
    after = λ w p.
        bind_rule (λ r. P r.1.db) m k w (λ e. hm.after w p) (λ a e. (hk a).after _ (hm.after w p));
  }

-- A method that reads the tables once and commits.
module _ {ℓ κ} {A : Type ℓ} {B : Type κ} (P : Db → Type 0) (fallback : B) (read : Db → A)
    (answer : A → Outcome B) where
  pub Keeps-read :
      Keeps P (transact fallback (Transaction.◌>>=◌ (query read) (λ a. pure (commit (answer a)))))
  Keeps-read = record {
    after = λ w p.
        transact_rule (λ o db. P db) fallback w _ p p
          λ fs. query-Yields (Settles (λ o db. P db) w.db) _ w.db read fs λ fs'.
            pure-Yields (Settles (λ o db. P db) w.db) (commit (answer (read w.db))) w.db fs' p;
  }
