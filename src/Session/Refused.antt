-- ===== src/Session/Refused.antt =====
-- A client of an address that is in use (`read_handshake` and the destructor of
-- MatchingServer/src/core/session.cpp).
use back_end_doc.Common.{
  ℕ, ◌≡◌, refl, ap, subst, ◌∙◌, true, false, Option, none, some, List, [], ◌∷◌, arith, member,
  returned, bytes_eq_refl,
}
use back_end_doc.Request.{Request, absent, given}
use back_end_doc.Response.{error, ip_in_use}
use back_end_doc.Server.{
  Server, Session, remove_number, remove_connection, register_session, allow_connection,
}
use back_end_doc.Server.Table.{lookup, erase_value, lookup-insert}
use back_end_doc.Session.{
  Site, write, change_object, change_session, close_socket, handle_error, leave_room, destroy,
  reply, connected,
}
use back_end_doc.Session.Handshake.{
  Handshake, checked_ip, first_request, initialized, on_version, client_handshake, closes,
  read_handshake,
}

remove_number-member : (a : ℕ) (xs : List ℕ) → member a (remove_number a xs) ≡ false
unfolding member remove_number
remove_number-member a [] = refl
remove_number-member a (x ∷ xs) = ground (arith, remove_number-member a xs)

change_version :
    (f : Session → Session) (sid : ℕ) (o : Option Session) (v : Server)
    → (change_object f sid o v).version ≡ v.version
change_version f sid none v = refl
change_version f sid (some s) v = refl

change_sessions :
    (f : Session → Session) (sid : ℕ) (o : Option Session) (v : Server)
    → (change_object f sid o v).sessions ≡ v.sessions
change_sessions f sid none v = refl
change_sessions f sid (some s) v = refl

module _ (uuid sid : ℕ) (s : Session) (x : Site) where
  initialized-lookup : lookup uuid (initialized uuid sid s x).server.sessions ≡ some sid
  unfolding initialized change_session register_session
  initialized-lookup =
      ap (lookup uuid) (
        change_sessions _ sid (lookup sid x.server.objects)
          (register_session uuid sid s.user_id x.server))
      ∙ ground (arith, lookup-insert uuid uuid sid (erase_value sid x.server.sessions))

  initialized-sent : (initialized uuid sid s x).sent ≡ x.sent
  unfolding initialized change_session
  initialized-sent = refl

  on_version-connects :
      (next : ℕ) (r : Request)
      → r.action ≡ absent
      → on_version uuid next sid s r x (given x.server.version)
        ≡ (returned tt, write sid connected (initialized uuid sid s x))
  unfolding on_version first_request
  on_version-connects next r e = rw (bytes_eq_refl x.server.version, e) refl

destroy-frees :
    (ip sid : ℕ) (t : Session) (x : Site)
    → t.remote_ip ≡ ip
    → member ip (destroy sid t x).server.connected_ips ≡ false
unfolding destroy remove_connection
destroy-frees ip sid t x e = rw e (remove_number-member ip _)

-- The session is told that its address is in use, and closed.
abbrev refused : ℕ → Session → Site → Site
refused sid s x = handle_error sid s (write sid (reply (error ip_in_use)) x)

refused-version :
    (sid : ℕ) (s : Session) (x : Site)
    → s.user_id ≡ 0
    → (refused sid s x).server.version ≡ x.server.version
unfolding handle_error leave_room change_session
refused-version sid s x z = rw z (change_version close_socket sid _ x.server)

refused-sent :
    (sid : ℕ) (s : Session) (x : Site)
    → s.user_id ≡ 0
    → (refused sid s x).sent ≡ (sid, reply (error ip_in_use)) ∷ x.sent
unfolding handle_error leave_room change_session
refused-sent sid s x z = rw z refl

-- A client of an address that is in use, with the server's version, no action in its handshake and no
-- user yet, is told so, and all the same gets a token and is told that it is connected. When its
-- session ends, whose fields but the address may have changed, the address counts as free.
pub read_handshake-refused :
    (uuid next sid : ℕ) (s t : Session) (h : Handshake) (x : Site)
    → s.user_id ≡ 0
    → t.remote_ip ≡ s.remote_ip
    → member s.remote_ip x.server.connected_ips ≡ true
    → h.is_mirror_type ≡ false
    → h.version ≡ given x.server.version
    → h.request.action ≡ absent
    → let y = read_handshake uuid next sid s (some h) x in
      (y.sent ≡ (sid, connected) ∷ (sid, reply (error ip_in_use)) ∷ x.sent)
      × (lookup uuid y.server.sessions ≡ some sid)
      × (member s.remote_ip (destroy sid t y).server.connected_ips ≡ false)
unfolding read_handshake client_handshake allow_connection checked_ip closes
read_handshake-refused uuid next sid s t h x z same used client version first = (
  ap (λ y. y.sent) law
      ∙ ap (λ m. (sid, connected) ∷ m)
          (initialized-sent uuid sid s (refused sid s x) ∙ refused-sent sid s x z),
  ap (λ y. lookup uuid y.server.sessions) law ∙ initialized-lookup uuid sid s (refused sid s x),
  destroy-frees s.remote_ip sid t (read_handshake uuid next sid s (some h) x) same,
)
  where
    law :
        read_handshake uuid next sid s (some h) x
        ≡ write sid connected (initialized uuid sid s (refused sid s x))
    law =
        rw (client, used, version)
          (ap (closes sid s) (
            subst
              (λ v.
                on_version uuid next sid s h.request (refused sid s x) (given v)
                ≡ (returned tt, write sid connected (initialized uuid sid s (refused sid s x))))
              (refused-version sid s x z)
              (on_version-connects uuid sid s (refused sid s x) next h.request first)))
