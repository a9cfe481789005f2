-- ===== src/Session/Tokens/Steps.antt =====
-- Every step of a session keeps what is stable of the map of tokens
-- (MatchingServer/src/core/session.cpp).
use back_end_doc.Common.{
  ◌≡◌, refl, sym, subst, ◌∙◌, List, ℕ, Bool, true, false, ◌&&◌, Option, none, some, if◌then◌else◌,
  Outcome, returned, threw, Bytes, bytes_eq,
}
use back_end_doc.Db.{User}
use back_end_doc.Request.{
  Field, absent, ill_typed, given, ActionName, register, login, ssafy_login, update_nick_name,
  create_room, join_room, exit_room, list_rooms, game_start, game_end, alive_ping, logout, Request,
  contains,
}
use back_end_doc.Response.{Response}
use back_end_doc.RoomRepository.{RoomInfo}
use back_end_doc.Server.{
  Server, Session, allow_connection, set_session_status, register_session, register_mirror_session,
}
use back_end_doc.Session.{Site, Step, handle_error, handle_ping, change_session}
use back_end_doc.Session.Requests.{
  logged, to_auth, to_room, to_game, act, caught, on_action, registered_as, after_login,
  told_mirror, told_statuses, after_response, after_controller, process_request, read_message,
}
use back_end_doc.Session.Handshake.{
  Handshake, mirror_handshake, checked_ip, first_request, on_version, initialized, client_handshake,
  closes, read_handshake,
}
use back_end_doc.Session.Tokens.{
  IsTokenStable, change_session-sessions, handle_error-sessions, get_mirror_session-sessions,
  set_session_status-sessions, allow_connection-sessions,
}

module _ {P : List (ℕ × ℕ) → Type 0} (st : IsTokenStable P) where
  abbrev Sound : Step → Type 0
  Sound y = P y.1.server.sessions

  Sound-if : (b : Bool) (y z : Step) → Sound y → Sound z → Sound (if b then y else z)
  Sound-if true y z hy hz = hy
  Sound-if false y z hy hz = hz

  -- A step that leaves the map alone.
  same :
      (x y : Site)
      → y.server.sessions ≡ x.server.sessions
      → P x.server.sessions
      → P y.server.sessions
  same x y e h = subst P (sym e) h

  pub handle_error-Kept :
      (sid : ℕ) (s : Session) (x : Site)
      → P x.server.sessions
      → P (handle_error sid s x).server.sessions
  handle_error-Kept sid s x = same x (handle_error sid s x) (handle_error-sessions sid s x)

  registered_as-Kept :
      (uuid sid u : ℕ) (x : Site)
      → P x.server.sessions
      → P (registered_as uuid sid u x).server.sessions
  unfolding registered_as register_session
  registered_as-Kept uuid sid u x c =
      subst P (sym (change_session-sessions sid _ _)) (st.registers uuid sid x.server.sessions c)

  module _ (x : Site) (c : P x.server.sessions) where
    after_login-Sound : (uuid sid : ℕ) (u : Option User) → Sound (after_login uuid sid u x)
    unfolding after_login
    after_login-Sound uuid sid none =
        Sound-if _ _ _ c (subst P (sym (change_session-sessions sid _ x)) c)
    after_login-Sound uuid sid (some u) = Sound-if _ _ _ c (
        registered_as-Kept uuid sid u.user_id (change_session sid (logged u) x)
          (subst P (sym (change_session-sessions sid (logged u) x)) c))

    told_mirror-Kept :
        (sid : ℕ) (info : RoomInfo) (m : Option ℕ × Server)
        → m.1.sessions ≡ x.server.sessions
        → P (told_mirror sid info m x).server.sessions
    unfolding told_mirror
    told_mirror-Kept sid info (none, v) e = subst P (sym e) c
    told_mirror-Kept sid info (some mirror, v) e =
        subst P (sym (change_session-sessions sid _ _ ∙ e)) c

    told_statuses-Kept :
        (sid : ℕ) (r : Response) (o : Option Server)
        → ((w : Server) → o ≡ some w → w.sessions ≡ x.server.sessions)
        → P (told_statuses sid r o x).server.sessions
    unfolding told_statuses
    told_statuses-Kept sid r none e = c
    told_statuses-Kept sid r (some v) e = subst P (sym (e v refl)) c

    after_response-Sound : (uuid sid : ℕ) (r : Response) → Sound (after_response uuid sid r x)
    unfolding after_response
    after_response-Sound uuid sid (Response.logged_in u) = after_login-Sound uuid sid u
    after_response-Sound uuid sid (Response.created_room info) =
        told_mirror-Kept sid info _ (get_mirror_session-sessions info.port x.server)
    after_response-Sound uuid sid (Response.joined_room id) =
        subst P (sym (change_session-sessions sid _ x)) c
    after_response-Sound uuid sid Response.exited_room =
        subst P (sym (change_session-sessions sid _ x)) c
    after_response-Sound uuid sid (Response.started_game id users) =
        told_statuses-Kept sid _ (set_session_status true users x.server)
          (set_session_status-sessions true users x.server)
    after_response-Sound uuid sid (Response.ended_game id users) =
        told_statuses-Kept sid _ (set_session_status false users x.server)
          (set_session_status-sessions false users x.server)
    after_response-Sound uuid sid (Response.nick_name_updated nick) =
        subst P (sym (change_session-sessions sid _ x)) c
    after_response-Sound uuid sid _ = c

  after_controller-Sound :
      (uuid sid : ℕ) (y : Outcome Response × Site)
      → P y.1.server.sessions
      → Sound (after_controller uuid sid y)
  unfolding after_controller
  after_controller-Sound uuid sid (threw, x) c = c
  after_controller-Sound uuid sid (returned r, x) c = after_response-Sound x c uuid sid r

  caught-Sound : (sid : ℕ) (y : Step) → Sound y → Sound (caught sid y)
  unfolding caught
  caught-Sound sid (returned tt, x) c = c
  caught-Sound sid (threw, x) c = c

  module _ (uuid sid : ℕ) (s : Session) (r : Request) (x : Site) (c : P x.server.sessions) where
    act-Sound : (a : ActionName) → Sound (act uuid sid s a r x)
    unfolding act handle_ping to_auth to_room to_game
    act-Sound register = after_controller-Sound uuid sid _ c
    act-Sound login = after_controller-Sound uuid sid _ c
    act-Sound ssafy_login = after_controller-Sound uuid sid _ c
    act-Sound update_nick_name = after_controller-Sound uuid sid _ c
    act-Sound create_room = Sound-if _ _ _ c (after_controller-Sound uuid sid _ c)
    act-Sound join_room = Sound-if _ _ _ c (after_controller-Sound uuid sid _ c)
    act-Sound exit_room = Sound-if _ _ _ c (after_controller-Sound uuid sid _ c)
    act-Sound list_rooms = Sound-if _ _ _ c (after_controller-Sound uuid sid _ c)
    act-Sound game_start = Sound-if _ _ _ c (after_controller-Sound uuid sid _ c)
    act-Sound game_end = Sound-if _ _ _ c (after_controller-Sound uuid sid _ c)
    act-Sound logout = handle_error-Kept sid s x c
    act-Sound alive_ping = subst P (sym (change_session-sessions sid _ x)) c
    act-Sound _ = c

    on_action-Sound : (o : Field ActionName) → Sound (on_action uuid sid s r x o)
    unfolding on_action
    on_action-Sound absent = c
    on_action-Sound ill_typed = c
    on_action-Sound (given a) = caught-Sound sid (act uuid sid s a r x) (act-Sound a)

    process_request-Sound : Sound (process_request uuid sid s r x)
    unfolding process_request
    process_request-Sound = on_action-Sound r.action

  pub read_message-Kept :
      (uuid sid : ℕ) (s : Session) (m : Option Request) (x : Site)
      → P x.server.sessions
      → P (read_message uuid sid s m x).server.sessions
  unfolding read_message
  read_message-Kept uuid sid s none x c = c
  read_message-Kept uuid sid s (some r) x c =
      caught-Sound sid (process_request uuid sid s r x) (process_request-Sound uuid sid s r x c)

  checked_ip-Kept :
      (sid : ℕ) (s : Session) (a : Bool × Server) (x : Site)
      → P a.1.sessions
      → P (checked_ip sid s a x).server.sessions
  unfolding checked_ip
  checked_ip-Kept sid s (true, v) x c = c
  checked_ip-Kept sid s (false, v) x c = handle_error-Kept sid s _ c

  mirror_handshake-Sound :
      (sid : ℕ) (port : Field ℕ) (x : Site)
      → P x.server.sessions
      → Sound (mirror_handshake sid port x)
  unfolding mirror_handshake register_mirror_session
  mirror_handshake-Sound sid (given port) x c = subst P (sym (change_session-sessions sid _ x)) c
  mirror_handshake-Sound sid absent x c = subst P (sym (change_session-sessions sid _ x)) c
  mirror_handshake-Sound sid ill_typed x c = subst P (sym (change_session-sessions sid _ x)) c

  first_request-Sound :
      (uuid sid : ℕ) (s : Session) (r : Request) (x : Site)
      → P x.server.sessions
      → Sound (first_request uuid sid s r x)
  unfolding first_request
  first_request-Sound uuid sid s r x c =
      Sound-if (contains r.action) _ _ (process_request-Sound uuid sid s r x c) c

  initialized-Kept :
      (uuid sid : ℕ) (s : Session) (x : Site)
      → P x.server.sessions
      → P (initialized uuid sid s x).server.sessions
  unfolding initialized register_session
  initialized-Kept uuid sid s x c =
      subst P (sym (change_session-sessions sid _ _)) (st.registers uuid sid x.server.sessions c)

  on_version-Sound :
      (uuid next sid : ℕ) (s : Session) (r : Request) (x : Site) (o : Field Bytes)
      → P x.server.sessions
      → Sound (on_version uuid next sid s r x o)
  unfolding on_version
  on_version-Sound uuid next sid s r x absent c = handle_error-Kept sid s x c
  on_version-Sound uuid next sid s r x ill_typed c = c
  on_version-Sound uuid next sid s r x (given v) c =
      Sound-if (bytes_eq x.server.version v) _ _
        (first_request-Sound next sid (record s { token = some uuid }) r (initialized uuid sid s x)
          (initialized-Kept uuid sid s x c))
        (handle_error-Kept sid s x c)

  closes-Kept : (sid : ℕ) (s : Session) (y : Step) → Sound y → P (closes sid s y).server.sessions
  unfolding closes
  closes-Kept sid s (returned tt, x) c = c
  closes-Kept sid s (threw, x) c = handle_error-Kept sid s x c

  pub read_handshake-Kept :
      (uuid next sid : ℕ) (s : Session) (h : Option Handshake) (x : Site)
      → P x.server.sessions
      → P (read_handshake uuid next sid s h x).server.sessions
  unfolding read_handshake client_handshake
  read_handshake-Kept uuid next sid s none x c = handle_error-Kept sid s x c
  read_handshake-Kept uuid next sid s (some h) x c = closes-Kept sid s _ (
      Sound-if (h.is_mirror_type && contains h.port) _ _ (mirror_handshake-Sound sid h.port x c) (
        on_version-Sound uuid next sid s h.request _ h.version (
          checked_ip-Kept sid s (allow_connection s.remote_ip x.server) x
            (subst P (sym (allow_connection-sessions s.remote_ip x.server)) c))))
