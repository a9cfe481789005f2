-- ===== src/Lifecycle/Timers.antt =====
-- The server's whole life: starts, stops, timers, and all that happens to its sessions
-- (MatchingServer/src/core/server.cpp).
use back_end_doc.Common.{
  ℕ, ◌≡◌, refl, sym, subst, ◌∙◌, Bool, true, false, not, ◌||◌, Option, none, some, List, [], ◌∷◌,
  if◌then◌else◌, Bool-cases, inl, inr, arith,
}
use back_end_doc.Db.{Db}
use back_end_doc.RoomRepository.Consistent.{IsConsistent}
use back_end_doc.Server.{Session, broadcast_ccu}
use back_end_doc.Server.Table.{lookup}
use back_end_doc.Session.{Site}
use back_end_doc.Session.Consistency.{handle_error-Kept}
use back_end_doc.Session.Runs.{Happens, Happens-Kept}
use back_end_doc.Stable.{IsStable}
use back_end_doc.Stable.Consistent.{consistent}
use back_end_doc.Lifecycle.{
  Broadcast, ccu_list, Machine, broadcast_active_user, send_ccu, close_if, close_all, sweep,
  check_inactive, start_session_timeout_check, schedule_broadcast, start_broadcast_timer, run,
  values, stop, check_fires, broadcast_fires,
}

-- One turn of the server. A timer fires only when it is armed.
pub data Turns (m : Machine) : Machine → Type 0 where
  starts : Turns m (run m)
  stops : Turns m (stop m)
  checks : m.check_armed ≡ true → Turns m (check_fires m)
  broadcasts : m.broadcast_armed ≡ true → Turns m (broadcast_fires m)
  serves : {x : Site} → Happens m.site x → Turns m (record m { site = x })

pub data Lives (m : Machine) : Machine → Type 0 where
  is_born : Lives m m
  lives_on : {n k : Machine} → Lives m n → Turns n k → Lives m k

-- All flags and timers agree with `running_`.
pub record IsTimed (m : Machine) : Type 0 where
  pub checking : m.is_checking ≡ m.is_running
  pub broadcasting : m.is_broadcasting ≡ m.is_running
  pub check_waits : m.check_armed ≡ m.is_running
  pub broadcast_waits : m.broadcast_armed ≡ m.is_running

-- Broadcasts are heard, and change nothing else.
pub record IsQuiet (m n : Machine) : Type 0 where
  pub same_site : n.site ≡ m.site
  pub same_running : n.is_running ≡ m.is_running
  pub same_checking : n.is_checking ≡ m.is_checking
  pub same_broadcasting : n.is_broadcasting ≡ m.is_broadcasting
  pub same_check : n.check_armed ≡ m.check_armed

pub broadcast-IsQuiet :
    (b : Broadcast) (sids : List ℕ) (m : Machine) → IsQuiet m (broadcast_active_user b sids m)
unfolding broadcast_active_user
broadcast-IsQuiet b [] m = record {
  same_site = refl;
  same_running = refl;
  same_checking = refl;
  same_broadcasting = refl;
  same_check = refl;
}
broadcast-IsQuiet b (sid ∷ sids) m =
    let q = broadcast-IsQuiet b sids (record m { heard = (sid, b) ∷ m.heard }) in
    record {
      same_site = q.same_site;
      same_running = q.same_running;
      same_checking = q.same_checking;
      same_broadcasting = q.same_broadcasting;
      same_check = q.same_check;
    }

-- What holds of the tables and of the timers.
pub record Good (P : Db → Type 0) (m : Machine) : Type 0 where
  pub tables : P m.site.world.db
  pub timed : IsTimed m

module _ {P : Db → Type 0} (st : IsStable P) where
  close_if-Kept :
      (sid : ℕ) (x : Site) (o : Option Session) → P x.world.db → P (close_if o sid x).world.db
  unfolding close_if
  close_if-Kept sid x none c = c
  close_if-Kept sid x (some s) c = handle_error-Kept st x c sid s

  close_all-Kept : (sids : List ℕ) (x : Site) → P x.world.db → P (close_all sids x).world.db
  unfolding close_all
  close_all-Kept [] x c = c
  close_all-Kept (sid ∷ sids) x c =
      close_all-Kept sids _ (close_if-Kept sid x (lookup sid x.server.objects) c)

  run-Good : (m : Machine) → Good P m → Good P (run m)
  unfolding run start_broadcast_timer schedule_broadcast start_session_timeout_check check_inactive
      sweep
  run-Good m g = elim (Bool-cases m.is_running) [
    | inl on ↦
        rw (g.timed.checking, g.timed.broadcasting, on)
          (record {
            tables = g.tables;
            timed = record {
              checking = refl;
              broadcasting = refl;
              check_waits = g.timed.check_waits ∙ on;
              broadcast_waits = g.timed.broadcast_waits ∙ on;
            };
          })
    | inr off ↦
        rw (g.timed.checking, g.timed.broadcasting, off)
          (record {
            tables = close_all-Kept _ _ g.tables;
            timed = record {
              checking = refl;
              broadcasting = refl;
              check_waits = refl;
              broadcast_waits = refl;
            };
          })
  ]

  Good-if :
      (b : Bool) (m n : Machine)
      → (b ≡ true → Good P m)
      → (b ≡ false → Good P n)
      → Good P (if b then m else n)
  Good-if true m n hm hn = hm refl
  Good-if false m n hm hn = hn refl

  stop-Good : (m : Machine) → Good P m → Good P (stop m)
  unfolding stop
  stop-Good m g =
      Good-if (not m.is_running) m _ (λ off. g)
        λ on. record {
          tables = close_all-Kept (values m.site.server.sessions) m.site g.tables;
          timed = record {
            checking = refl;
            broadcasting = refl;
            check_waits = refl;
            broadcast_waits = refl;
          };
        }

  check_fires-Good : (m : Machine) → Good P m → m.check_armed ≡ true → Good P (check_fires m)
  unfolding check_fires check_inactive sweep
  check_fires-Good m g armed =
      let on = sym g.timed.check_waits ∙ armed in
      Good-if (not m.is_running || not m.is_checking) _ _
        (λ off. absurd (ground (arith, on, g.timed.checking)))
        λ ready. record {
          tables = close_all-Kept _ _ g.tables;
          timed = record {
            checking = g.timed.checking;
            broadcasting = g.timed.broadcasting;
            check_waits = sym on;
            broadcast_waits = g.timed.broadcast_waits;
          };
        }

  scheduled-Good :
      (m n : Machine)
      → Good P m
      → m.broadcast_armed ≡ true
      → IsQuiet m n
      → Good P (schedule_broadcast n)
  unfolding schedule_broadcast
  scheduled-Good m n g armed q =
      let on = q.same_running ∙ sym g.timed.broadcast_waits ∙ armed in
      Good-if (not n.is_running || not n.is_broadcasting) n _
        (λ off.
          absurd (ground (arith, on, q.same_broadcasting, q.same_running, g.timed.broadcasting)))
        λ ready. record {
          tables = subst (λ x. P x.world.db) (sym q.same_site) g.tables;
          timed = record {
            checking = q.same_checking ∙ g.timed.checking ∙ sym q.same_running;
            broadcasting = q.same_broadcasting ∙ g.timed.broadcasting ∙ sym q.same_running;
            check_waits = q.same_check ∙ g.timed.check_waits ∙ sym q.same_running;
            broadcast_waits = sym on;
          };
        }

  broadcast_fires-Good :
      (m : Machine) → Good P m → m.broadcast_armed ≡ true → Good P (broadcast_fires m)
  unfolding broadcast_fires send_ccu
  broadcast_fires-Good m g armed =
      let (users, sids) = broadcast_ccu m.site.server in
      let q = broadcast-IsQuiet (ccu_list users) sids (record m { broadcast_armed = false }) in
      scheduled-Good m _ g armed (record {
        same_site = q.same_site;
        same_running = q.same_running;
        same_checking = q.same_checking;
        same_broadcasting = q.same_broadcasting;
        same_check = q.same_check;
      })

  Turns-Good : {m n : Machine} → Turns m n → Good P m → Good P n
  Turns-Good {m} starts g = run-Good m g
  Turns-Good {m} stops g = stop-Good m g
  Turns-Good {m} (checks armed) g = check_fires-Good m g armed
  Turns-Good {m} (broadcasts armed) g = broadcast_fires-Good m g armed
  Turns-Good {m} (serves h) g = record {
    tables = Happens-Kept st h g.tables;
    timed = record {
      checking = g.timed.checking;
      broadcasting = g.timed.broadcasting;
      check_waits = g.timed.check_waits;
      broadcast_waits = g.timed.broadcast_waits;
    };
  }

  pub Lives-Good : (m n : Machine) → Lives m n → Good P m → Good P n
  Lives-Good m n is_born g = g
  Lives-Good m n (lives_on l t) g = Turns-Good t (Lives-Good m _ l g)

-- From consistent tables, where the flags and the timers agree with `running_`: over every sequence of
-- starts, stops, fired timers and steps of the sessions, the tables stay consistent, and the sweep and
-- the broadcast are pending exactly while the server runs.
pub Lives-IsTimed :
    (m n : Machine)
    → Lives m n
    → IsConsistent m.site.world.db
    → IsTimed m
    → IsConsistent n.site.world.db × IsTimed n
Lives-IsTimed m n l c t =
    let g = Lives-Good consistent m n l (record { tables = c; timed = t }) in (g.tables, g.timed)
