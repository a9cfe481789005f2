-- ===== src/TestClient/Refusal.antt =====
-- The console client (GameSocketTestClient/GameTestClient.cpp) at the matching server: its handshake
-- comes to `read_handshake` of MatchingServer/src/core/session.cpp.
use back_end_doc.Common.{
  ℕ, ◌≡◌, refl, ap, ◌∙◌, Bool, true, false, not, ◌++◌, Option, some, List, [], ◌∷◌, arith, member,
  if◌then◌else◌, Bool-cases, inl, inr,
}
use back_end_doc.Request.{absent, alive_ping}
use back_end_doc.Response.{error, ip_in_use}
use back_end_doc.Server.{Server, Session, allow_connection}
use back_end_doc.Server.Table.{lookup, lookup-insert}
use back_end_doc.Session.{
  Site, Message, write, change_object, change_session, close_socket, leave_room, handle_error,
  reply,
}
use back_end_doc.Session.Answering.{handle_error-sent}
use back_end_doc.Session.Handshake.{
  Handshake, checked_ip, on_version, client_handshake, closes, read_handshake,
}
use back_end_doc.Session.Tokens.{handle_error-sessions, leave_room-server}
use back_end_doc.TestClient.{Outgoing, request, hello, only_action}

-- What a server reads of the text that the client writes: the client names no version and no port.
abbrev pub as_handshake : Outgoing → Handshake
as_handshake hello = record {
  is_mirror_type = false;
  port = absent;
  version = absent;
  request = record (only_action alive_ping) { action = absent };
}
as_handshake (request r) = record {
  is_mirror_type = false;
  port = absent;
  version = absent;
  request = r;
}

-- What is written to a client by its address.
abbrev pub ip_message : ℕ → Bool → List (ℕ × Message)
ip_message sid used = if used then (sid, reply (error ip_in_use)) ∷ [] else []

change_closes :
    (sid : ℕ) (o : Option Session) (v : Server) (t : Session)
    → o ≡ some t
    → lookup sid (change_object close_socket sid o v).objects ≡ some (close_socket t)
change_closes sid o v t e = rw e (ground (arith, lookup-insert sid sid (close_socket t) v.objects))

handle_error-closes :
    (sid : ℕ) (s t : Session) (x : Site)
    → lookup sid x.server.objects ≡ some t
    → lookup sid (handle_error sid s x).server.objects ≡ some (close_socket t)
unfolding handle_error change_session
handle_error-closes sid s t x e =
    change_closes sid _ (leave_room s.user_id x).server t
      (ap (λ v. lookup sid v.objects) (leave_room-server s.user_id x) ∙ e)

-- The socket of `sid` is closed, `messages` is what is written, and the map of sessions is as before.
pub record Closed (sid : ℕ) (s : Session) (messages : List (ℕ × Message)) (x y : Site)
    : Type 0 where
  pub socket : lookup sid y.server.objects ≡ some (close_socket s)
  pub sent : y.sent ≡ messages
  pub sessions : y.server.sessions ≡ x.server.sessions

-- From a site `w` whose object `sid` is the session or its closed copy.
Closed-from :
    (sid : ℕ) (s t : Session) (x w : Site)
    → lookup sid w.server.objects ≡ some t
    → close_socket t ≡ close_socket s
    → w.server.sessions ≡ x.server.sessions
    → Closed sid s w.sent x (handle_error sid s w)
Closed-from sid s t x w e same sessions = record {
  socket = handle_error-closes sid s t w e ∙ ap some same;
  sent = handle_error-sent sid s w;
  sessions = handle_error-sessions sid s w ∙ sessions;
}

Closed-again :
    (sid : ℕ) (s : Session) (messages : List (ℕ × Message)) (x y : Site)
    → Closed sid s messages x y
    → Closed sid s messages x (handle_error sid s y)
Closed-again sid s messages x y c = record {
  socket = handle_error-closes sid s (close_socket s) y c.socket;
  sent = handle_error-sent sid s y ∙ c.sent;
  sessions = handle_error-sessions sid s y ∙ c.sessions;
}

no_version :
    (sid : ℕ) (s : Session) (x : Site)
    → lookup sid x.server.objects ≡ some s
    → (b : Bool) (v : Server) → v.objects ≡ x.server.objects
    → v.sessions ≡ x.server.sessions
    → Closed sid s
        (ip_message sid (not b) ++ x.sent)
        x
        (handle_error sid s (checked_ip sid s (b, v) x))
unfolding checked_ip
no_version sid s x h true v objects sessions =
    Closed-from sid s s x _ (ap (lookup sid) objects ∙ h) refl sessions
no_version sid s x h false v objects sessions =
    let w : Site = write sid (reply (error ip_in_use)) (record x { server = v }) in
    let first = Closed-from sid s s x w (ap (lookup sid) objects ∙ h) refl sessions in
    Closed-again sid s w.sent x _ first

-- Whatever the console client sends first, the matching server closes its session without a token: the
-- map of sessions stays as it was, and nothing is written but that the address is in use, where it is.
pub read_handshake-Closed :
    (uuid next sid : ℕ) (s : Session) (m : Outgoing) (x : Site)
    → lookup sid x.server.objects ≡ some s
    → Closed sid s
        (ip_message sid (member s.remote_ip x.server.connected_ips) ++ x.sent)
        x
        (read_handshake uuid next sid s (some (as_handshake m)) x)
unfolding read_handshake client_handshake on_version closes allow_connection
read_handshake-Closed uuid next sid s hello x h =
    elim (Bool-cases (member s.remote_ip x.server.connected_ips)) [
      | inl used ↦ rw used (no_version sid s x h false x.server refl refl)
      | inr free ↦ rw free (no_version sid s x h true _ refl refl)
    ]
read_handshake-Closed uuid next sid s (request r) x h =
    elim (Bool-cases (member s.remote_ip x.server.connected_ips)) [
      | inl used ↦ rw used (no_version sid s x h false x.server refl refl)
      | inr free ↦ rw free (no_version sid s x h true _ refl refl)
    ]
