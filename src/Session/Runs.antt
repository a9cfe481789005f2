-- ===== src/Session/Runs.antt =====
-- Everything that happens to the sessions, in any order (MatchingServer/src/core/session.cpp and
-- MatchingServer/src/core/server.cpp), and what stays true of the tables.
use back_end_doc.Common.{ℕ, ◌≡◌, Bool, true, false, Option, none, some, List, []}
use back_end_doc.Request.{Request}
use back_end_doc.RoomRepository.Consistent.{IsConsistent}
use back_end_doc.Server.{Session, unset, check_inactive_sessions}
use back_end_doc.Server.Table.{lookup, insert}
use back_end_doc.Db.{Db}
use back_end_doc.Stable.{IsStable}
use back_end_doc.Stable.Consistent.{consistent}
use back_end_doc.Session.{Site, handle_error, destroy}
use back_end_doc.Session.Consistency.{handle_error-Kept, read_message-Kept, read_handshake-Kept}
use back_end_doc.Session.Handshake.{Handshake, read_handshake}
use back_end_doc.Session.Requests.{read_message}

-- A session as its constructor leaves it.
pub record IsNew (s : Session) : Type 0 where
  pub no_user : s.user_id ≡ 0
  pub no_names : (s.user_name ≡ []) × (s.nick_name ≡ [])
  pub no_status : s.status ≡ unset
  pub no_token : s.token ≡ none
  pub no_mirror : s.is_mirror ≡ false
  pub connected : s.is_open ≡ true

-- What may happen to the sessions: a new connection, its handshake, a message, an error of the
-- socket, the end of the object, and the sweep of the server, which closes sessions by their errors.
pub data Happens (x : Site) : Site → Type 0 where
  accepts :
      (sid : ℕ) (s : Session)
      → lookup sid x.server.objects ≡ none
      → IsNew s
      → Happens x
          (record x { server = record x.server { objects = insert sid s x.server.objects } })
  shakes_hands :
      (uuid next sid : ℕ) (s : Session) (h : Option Handshake)
      → lookup sid x.server.objects ≡ some s
      → Happens x (read_handshake uuid next sid s h x)
  reads :
      (uuid sid : ℕ) (s : Session) (m : Option Request)
      → lookup sid x.server.objects ≡ some s
      → Happens x (read_message uuid sid s m x)
  breaks :
      (sid : ℕ) (s : Session)
      → lookup sid x.server.objects ≡ some s
      → Happens x (handle_error sid s x)
  dies :
      (sid : ℕ) (s : Session) → lookup sid x.server.objects ≡ some s → Happens x (destroy sid s x)
  sweeps : (now : ℕ) → Happens x (record x { server = (check_inactive_sessions now x.server).0 })
  -- Time passes, and the database and its driver behave differently from now on.
  turns :
      (now : ℕ) (faults : List Bool)
      → Happens x (record x { world = record x.world { now = now; faults = faults } })

pub data Reaches (x : Site) : Site → Type 0 where
  stays : Reaches x x
  goes_on : {y z : Site} → Reaches x y → Happens y z → Reaches x z

module _ {P : Db → Type 0} (st : IsStable P) where
  pub Happens-Kept : {x y : Site} → Happens x y → P x.world.db → P y.world.db
  unfolding destroy
  Happens-Kept (accepts sid s e n) c = c
  Happens-Kept {x} (shakes_hands uuid next sid s h e) c =
      read_handshake-Kept st uuid next sid s h x c
  Happens-Kept {x} (reads uuid sid s m e) c = read_message-Kept st uuid sid s m x c
  Happens-Kept {x} (breaks sid s e) c = handle_error-Kept st x c sid s
  Happens-Kept (dies sid s e) c = c
  Happens-Kept (sweeps now) c = c
  Happens-Kept (turns now faults) c = c

  -- A stable property stays, whatever happens.
  pub Reaches-Kept : (x y : Site) → Reaches x y → P x.world.db → P y.world.db
  Reaches-Kept x y stays c = c
  Reaches-Kept x y (goes_on r h) c = Happens-Kept h (Reaches-Kept x _ r c)

-- From consistent tables: whatever the sessions send and whichever statements throw, in every order,
-- the tables stay consistent: no room has more players than it admits, and a terminated room has none.
pub Reaches-IsConsistent :
    (x y : Site) → Reaches x y → IsConsistent x.world.db → IsConsistent y.world.db
Reaches-IsConsistent = Reaches-Kept consistent
