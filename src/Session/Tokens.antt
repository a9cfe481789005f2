-- ===== src/Session/Tokens.antt =====
-- What sessions do to the server's map of tokens (MatchingServer/src/core/session.cpp): entries are
-- registered and erased, and nothing else happens to it.
pub mod Steps
pub mod Runs
use back_end_doc.Common.{
  arith, ℕ, ◌≡◌, refl, sym, subst, ◌∙◌, ap, Bool, true, false, ◌||◌, Option, none, some, List, [],
  ◌∷◌, ◌==◌, if◌then◌else◌, Bool-cases, Option-cases, inl, inr,
}
use back_end_doc.Db.{is_negative}
use back_end_doc.Server.{
  Server, Session, get_mirror_session, set_status_of, set_session_status, allow_connection,
}
use back_end_doc.Server.Table.{lookup, erase, insert, erase_value}
use back_end_doc.Session.{
  Site, change_object, change_session, leave_room, handle_error, close_socket,
}

-- What survives the registration of a session and the erasing of an entry.
pub record IsTokenStable (P : List (ℕ × ℕ) → Type 0) : Type 0 where
  pub registers :
      (token sid : ℕ) (m : List (ℕ × ℕ)) → P m → P (insert token sid (erase_value sid m))
  pub erases : (token : ℕ) (m : List (ℕ × ℕ)) → P m → P (erase token m)

change_object-sessions :
    (f : Session → Session) (sid : ℕ) (o : Option Session) (v : Server)
    → (change_object f sid o v).sessions ≡ v.sessions
change_object-sessions f sid none v = refl
change_object-sessions f sid (some s) v = refl

pub change_session-sessions :
    (sid : ℕ) (f : Session → Session) (x : Site)
    → (change_session sid f x).server.sessions ≡ x.server.sessions
unfolding change_session
change_session-sessions sid f x =
    change_object-sessions f sid (lookup sid x.server.objects) x.server

pub leave_room-server : (u : ℕ) (x : Site) → (leave_room u x).server ≡ x.server
unfolding leave_room
leave_room-server u x = elim (Bool-cases (u == 0 || is_negative u)) [
  | inl nobody ↦ rw nobody refl
  | inr user ↦ rw user refl
]

pub handle_error-sessions :
    (sid : ℕ) (s : Session) (x : Site) → (handle_error sid s x).server.sessions ≡ x.server.sessions
unfolding handle_error
handle_error-sessions sid s x =
    change_session-sessions sid close_socket (leave_room s.user_id x)
    ∙ ap (λ v. v.sessions) (leave_room-server s.user_id x)

pub get_mirror_session-sessions :
    (port : ℕ) (v : Server) → (get_mirror_session port v).1.sessions ≡ v.sessions
unfolding get_mirror_session
get_mirror_session-sessions port v = elim (Option-cases (lookup port v.mirrors)) [
  | inl missing ↦ rw (get_mirror_session, missing) refl
  | inr (sid, hit) ↦ elim (Option-cases (lookup sid v.objects)) [
    | inl dead ↦ rw (get_mirror_session, hit, dead) refl
    | inr (s, alive) ↦ rw (get_mirror_session, hit, alive) refl
  ]
]

set_status_of-sessions :
    (flag : Bool) (u : ℕ) (v w : Server) → set_status_of flag u v ≡ some w → w.sessions ≡ v.sessions
unfolding set_status_of
set_status_of-sessions flag u v w e = ground (arith)

pub set_session_status-sessions :
    (flag : Bool) (us : List ℕ) (v w : Server)
    → set_session_status flag us v ≡ some w
    → w.sessions ≡ v.sessions
unfolding set_session_status
set_session_status-sessions flag [] v w e = ground (arith)
set_session_status-sessions flag (u ∷ us) v w e = elim (Option-cases (set_status_of flag u v)) [
  | inl undefined ↦ absurd (ground (arith))
  | inr (next, hit) ↦
      set_session_status-sessions flag us next w (ground (arith))
      ∙ set_status_of-sessions flag u v next hit
]

pub allow_connection-sessions :
    (ip : ℕ) (v : Server) → (allow_connection ip v).1.sessions ≡ v.sessions
unfolding allow_connection
allow_connection-sessions ip v = elim (Bool-cases (back_end_doc.Common.member ip v.connected_ips)) [
  | inl used ↦ rw used refl
  | inr new ↦ rw new refl
]
