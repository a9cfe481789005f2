-- ===== src/Session/Handshake.antt =====
-- `read_handshake` of MatchingServer/src/core/session.cpp.
use back_end_doc.Common.{
  ℕ, Bool, true, false, ◌&&◌, Option, none, some, if◌then◌else◌, returned, threw, Bytes, bytes_eq,
}
use back_end_doc.Request.{Request, Field, absent, ill_typed, given, contains, to_int}
use back_end_doc.Response.{error, ip_in_use}
use back_end_doc.Server.{
  Server, Session, register_session, register_mirror_session, allow_connection,
}
use back_end_doc.Session.{
  Site, Step, write, change_session, handle_error, reply, connected, mirror_connected,
}
use back_end_doc.Session.Requests.{process_request}

-- `is_mirror_type` says whether "connectionType" is "mirror".
pub record Handshake : Type 0 where
  pub is_mirror_type : Bool
  pub port : Field ℕ
  pub version : Field Bytes
  pub request : Request

became_mirror : ℕ → Session → Session
became_mirror port s = record s { is_mirror = true; mirror_port = port; user_id = port }

-- The branch of a mirror server. If the port is no number, the exception leaves a session that is
-- marked as a mirror and has no port.
unfoldable pub mirror_handshake : ℕ → Field ℕ → Site → Step
unfolding became_mirror
mirror_handshake sid (given port) x = (
  returned tt,
  write sid mirror_connected (record (change_session sid (became_mirror (to_int port)) x) {
    server =
        register_mirror_session (to_int port) sid
          (change_session sid (became_mirror (to_int port)) x).server;
  }),
)
mirror_handshake sid _ x = (threw, change_session sid (λ s. record s { is_mirror = true }) x)

-- A client of an address that is in use is told so and closed, and then treated as any other.
unfoldable pub checked_ip : ℕ → Session → Bool × Server → Site → Site
checked_ip sid s (true, v) x = record x { server = v }
checked_ip sid s (false, v) x =
    handle_error sid s (write sid (reply (error ip_in_use)) (record x { server = v }))

-- `initialize`, and the first request if there is one.
unfoldable pub first_request : ℕ → ℕ → Session → Request → Site → Step
first_request uuid sid s r x =
    if contains r.action
    then process_request uuid sid s r x
    else (returned tt, write sid connected x)

unfoldable pub initialized : ℕ → ℕ → Session → Site → Site
initialized uuid sid s x =
    change_session sid (λ s. record s { token = some uuid })
      (record x { server = register_session uuid sid s.user_id x.server })

-- `uuid` is the token of `initialize`, `next` that of a login in the first request.
unfoldable pub on_version : ℕ → ℕ → ℕ → Session → Request → Site → Field Bytes → Step
unfolding first_request initialized
on_version uuid next sid s r x absent = (returned tt, handle_error sid s x)
on_version uuid next sid s r x ill_typed = (threw, x)
on_version uuid next sid s r x (given v) =
    if bytes_eq x.server.version v
    then first_request next sid (record s { token = some uuid }) r (initialized uuid sid s x)
    else (returned tt, handle_error sid s x)

unfoldable pub client_handshake : ℕ → ℕ → ℕ → Session → Handshake → Site → Step
unfolding on_version checked_ip
client_handshake uuid next sid s h x =
    on_version uuid next sid s h.request
      (checked_ip sid s (allow_connection s.remote_ip x.server) x) h.version

-- An exception closes the session.
unfoldable pub closes : ℕ → Session → Step → Site
closes sid s (returned tt, x) = x
closes sid s (threw, x) = handle_error sid s x

-- The handler of `read_handshake`; `none` is data that is no json.
unfoldable pub read_handshake : ℕ → ℕ → ℕ → Session → Option Handshake → Site → Site
unfolding mirror_handshake client_handshake closes
read_handshake uuid next sid s none x = handle_error sid s x
read_handshake uuid next sid s (some h) x = closes sid s (
    if h.is_mirror_type && contains h.port
    then mirror_handshake sid h.port x
    else client_handshake uuid next sid s h x)
