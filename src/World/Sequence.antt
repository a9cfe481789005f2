-- ===== src/World/Sequence.antt =====
-- Healthy runs, one after the other, and under a `catch`.
use back_end_doc.Common.{◌≡◌, refl, sym, subst, ◌∙◌, Outcome, returned, threw}
use back_end_doc.Db.{Db}
use back_end_doc.World.{World, Action, return, continue, catching, or_else, ◌>>=◌}
use back_end_doc.World.Binding.{bind-returned, split_run}
use back_end_doc.World.Healthy.{IsHealthy, Runs}

-- The same run, with the outcome written out.
abbrev Split : {A : Type 0} → World → Outcome A → Db → Outcome A × World → Type 0
Split w o db y = Runs w o db (o, y.1)

Split-Runs :
    {A : Type 0} (w : World) (o : Outcome A) (db : Db) (y : Outcome A × World)
    → Runs w o db y
    → Split w o db y
Split-Runs w o db y r = record {
  outcome = refl;
  tables = r.tables;
  healthy = r.healthy;
  engine = r.engine;
  clock = r.clock;
}

module _ {A B : Type 0} (m : Action A) (k : A → Action B) (w : World) where
  -- What runs in the world that is left runs after.
  pub bind-Runs :
      (a : A) (o : Outcome B) (db after : Db)
      → Runs w (returned a) db (m w)
      → ((v : World) → v.db ≡ db → IsHealthy v → Runs v o after (k a v))
      → Runs w o after ((m >>= k) w)
  bind-Runs a o db after r h =
      let s = h (m w).1 r.tables r.healthy in
      subst (Runs w o after) (sym (bind-returned m k w a r.outcome)) (record {
        outcome = s.outcome;
        tables = s.tables;
        healthy = s.healthy;
        engine = s.engine ∙ r.engine;
        clock = s.clock ∙ r.clock;
      })

  pub bind-Runs_threw : (db : Db) → Runs w threw db (m w) → Runs w threw db ((m >>= k) w)
  unfolding ◌>>=◌
  bind-Runs_threw db r =
      let again : Runs {A = B} w threw db (threw, (m w).1) = record {
        outcome = refl;
        tables = r.tables;
        healthy = r.healthy;
        engine = r.engine;
        clock = r.clock;
      } in
      subst (λ y. Runs w threw db (continue y k)) (sym (split_run (m w) threw r.outcome)) again

pub return-Runs :
    {A : Type 0} (a : A) (w : World) (db : Db)
    → w.db ≡ db
    → IsHealthy w
    → Runs w (returned a) db (return a w)
return-Runs a w db e h = record {
  outcome = refl;
  tables = e;
  healthy = h;
  engine = refl;
  clock = refl;
}

-- What a `try` block answers.
abbrev pub caught_as : {A : Type 0} → A → Outcome A → A
caught_as fallback threw = fallback
caught_as fallback (returned a) = a

pub catching-Runs :
    {A : Type 0} (fallback : A) (m : Action A) (w : World) (o : Outcome A) (db : Db)
    → Runs w o db (m w)
    → Runs w (returned (caught_as fallback o)) db (catching fallback m w)
unfolding catching
catching-Runs fallback m w threw db r =
    subst (λ y. Runs w (returned fallback) db (or_else fallback y))
      (sym (split_run (m w) threw r.outcome))
      (record {
        outcome = refl;
        tables = r.tables;
        healthy = r.healthy;
        engine = r.engine;
        clock = r.clock;
      })
catching-Runs fallback m w (returned a) db r =
    subst (λ y. Runs w (returned a) db (or_else fallback y))
      (sym (split_run (m w) (returned a) r.outcome)) (Split-Runs w (returned a) db (m w) r)
