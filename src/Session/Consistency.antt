-- ===== src/Session/Consistency.antt =====
-- Whatever sessions send, the tables keep every stable property (MatchingServer/src/core/session.cpp).
use back_end_doc.Common.{
  ℕ, Bool, true, false, not, ◌||◌, ◌&&◌, Option, none, some, ◌==◌, if◌then◌else◌, Outcome, returned,
  threw, Bytes, bytes_eq,
}
use back_end_doc.AuthService.Consistency.{handle_auth-Keeps}
use back_end_doc.Db.{User, is_negative}
use back_end_doc.GameService.Consistency.{handle_game-Keeps}
use back_end_doc.Request.{
  Field, absent, ill_typed, given, ActionName, register, login, ssafy_login, update_nick_name,
  create_room, join_room, exit_room, list_rooms, game_start, game_end, alive_ping, logout, Request,
  contains,
}
use back_end_doc.Response.{Response}
use back_end_doc.RoomRepository.{RoomInfo}
use back_end_doc.RoomService.Consistency.{handle_room-Keeps}
use back_end_doc.Stable.{IsStable, game_part, account_part, rename-Keeps}
use back_end_doc.Db.{Db}
use back_end_doc.Server.{Server, Session, allow_connection, set_session_status}
use back_end_doc.Session.{
  Site, Step, as_user, exit_request, leave_room, handle_error, handle_ping, change_session,
}
use back_end_doc.Session.Requests.{
  to_auth, to_room, to_game, act, caught, on_action, registered_as, after_login, told_mirror,
  told_statuses, after_response, after_controller, process_request, read_message,
}
use back_end_doc.Session.Handshake.{
  Handshake, mirror_handshake, checked_ip, first_request, on_version, initialized, client_handshake,
  closes, read_handshake,
}

module _ {P : Db → Type 0} (st : IsStable P) where
  if_site : (b : Bool) (x y : Site) → P x.world.db → P y.world.db → P (if b then x else y).world.db
  if_site true x y hx hy = hx
  if_site false x y hx hy = hy

  abbrev Sound : Step → Type 0
  Sound y = P y.1.world.db

  module _ (x : Site) (c : P x.world.db) where
    Sound-if : (b : Bool) (y z : Step) → Sound y → Sound z → Sound (if b then y else z)
    Sound-if true y z hy hz = hy
    Sound-if false y z hy hz = hz

    leave_room-Kept : (u : ℕ) → P (leave_room u x).world.db
    unfolding leave_room
    leave_room-Kept u =
        if_site (u == 0 || is_negative u) x _ c
          ((handle_room-Keeps st exit_room (exit_request u)).after x.world c)

    pub handle_error-Kept : (sid : ℕ) (s : Session) → P (handle_error sid s x).world.db
    unfolding handle_error change_session
    handle_error-Kept sid s = leave_room-Kept s.user_id

    after_login-Sound : (uuid sid : ℕ) (u : Option User) → Sound (after_login uuid sid u x)
    unfolding after_login change_session registered_as
    after_login-Sound uuid sid none = Sound-if _ _ _ c c
    after_login-Sound uuid sid (some u) = Sound-if _ _ _ c c

    told_mirror-Kept :
        (sid : ℕ) (info : RoomInfo) (m : Option ℕ × Server) → P (told_mirror sid info m x).world.db
    unfolding told_mirror change_session
    told_mirror-Kept sid info (none, v) = c
    told_mirror-Kept sid info (some mirror, v) = c

    told_statuses-Kept :
        (sid : ℕ) (r : Response) (o : Option Server) → P (told_statuses sid r o x).world.db
    unfolding told_statuses
    told_statuses-Kept sid r none = c
    told_statuses-Kept sid r (some v) = c

    after_response-Sound : (uuid sid : ℕ) (r : Response) → Sound (after_response uuid sid r x)
    unfolding after_response change_session
    after_response-Sound uuid sid (Response.logged_in u) = after_login-Sound uuid sid u
    after_response-Sound uuid sid (Response.created_room info) = told_mirror-Kept sid info _
    after_response-Sound uuid sid (Response.joined_room id) = c
    after_response-Sound uuid sid Response.exited_room = c
    after_response-Sound uuid sid (Response.started_game id users) =
        told_statuses-Kept sid _ (set_session_status true users x.server)
    after_response-Sound uuid sid (Response.ended_game id users) =
        told_statuses-Kept sid _ (set_session_status false users x.server)
    after_response-Sound uuid sid (Response.nick_name_updated nick) = c
    after_response-Sound uuid sid _ = c

  after_controller-Sound :
      (uuid sid : ℕ) (y : Outcome Response × Site)
      → P y.1.world.db
      → Sound (after_controller uuid sid y)
  unfolding after_controller
  after_controller-Sound uuid sid (threw, x) c = c
  after_controller-Sound uuid sid (returned r, x) c = after_response-Sound x c uuid sid r

  caught-Sound : (sid : ℕ) (y : Step) → Sound y → Sound (caught sid y)
  unfolding caught
  caught-Sound sid (returned tt, x) c = c
  caught-Sound sid (threw, x) c = c

  module _ (uuid sid : ℕ) (s : Session) (r : Request) (x : Site) (c : P x.world.db) where
    to_auth-Sound : (a : ActionName) → Sound (to_auth uuid sid s a r x)
    unfolding to_auth
    to_auth-Sound a = after_controller-Sound uuid sid _ (
        (handle_auth-Keeps (account_part st) a (if s.user_id == 0 then r else as_user s.user_id r)
            (λ id nick e. rename-Keeps st id nick)).after
          x.world c)

    to_room-Sound : (a : ActionName) → Sound (to_room uuid sid s a r x)
    unfolding to_room
    to_room-Sound a = Sound-if x c (s.user_id == 0) _ _ c (
        after_controller-Sound uuid sid _
          ((handle_room-Keeps st a (as_user s.user_id r)).after x.world c))

    to_game-Sound : (a : ActionName) → Sound (to_game uuid sid s a r x)
    unfolding to_game
    to_game-Sound a = Sound-if x c (s.user_id == 0 || not s.is_mirror) _ _ c (
        after_controller-Sound uuid sid _
          ((handle_game-Keeps (game_part st) a (as_user s.user_id r)).after x.world c))

    act-Sound : (a : ActionName) → Sound (act uuid sid s a r x)
    unfolding act handle_ping change_session
    act-Sound register = to_auth-Sound register
    act-Sound login = to_auth-Sound login
    act-Sound ssafy_login = to_auth-Sound ssafy_login
    act-Sound update_nick_name = to_auth-Sound update_nick_name
    act-Sound create_room = to_room-Sound create_room
    act-Sound join_room = to_room-Sound join_room
    act-Sound exit_room = to_room-Sound exit_room
    act-Sound list_rooms = to_room-Sound list_rooms
    act-Sound game_start = to_game-Sound game_start
    act-Sound game_end = to_game-Sound game_end
    act-Sound logout = handle_error-Kept x c sid s
    act-Sound alive_ping = c
    act-Sound _ = c

    on_action-Sound : (o : Field ActionName) → Sound (on_action uuid sid s r x o)
    unfolding on_action
    on_action-Sound absent = c
    on_action-Sound ill_typed = c
    on_action-Sound (given a) = caught-Sound sid (act uuid sid s a r x) (act-Sound a)

    process_request-Sound : Sound (process_request uuid sid s r x)
    unfolding process_request
    process_request-Sound = on_action-Sound r.action

  pub read_message-Kept :
      (uuid sid : ℕ) (s : Session) (m : Option Request) (x : Site)
      → P x.world.db
      → P (read_message uuid sid s m x).world.db
  unfolding read_message
  read_message-Kept uuid sid s none x c = c
  read_message-Kept uuid sid s (some r) x c =
      caught-Sound sid (process_request uuid sid s r x) (process_request-Sound uuid sid s r x c)

  checked_ip-Kept :
      (sid : ℕ) (s : Session) (a : Bool × Server) (x : Site)
      → P x.world.db
      → P (checked_ip sid s a x).world.db
  unfolding checked_ip
  checked_ip-Kept sid s (true, v) x c = c
  checked_ip-Kept sid s (false, v) x c = handle_error-Kept _ c sid s

  mirror_handshake-Sound :
      (sid : ℕ) (port : Field ℕ) (x : Site) → P x.world.db → Sound (mirror_handshake sid port x)
  unfolding mirror_handshake change_session
  mirror_handshake-Sound sid (given port) x c = c
  mirror_handshake-Sound sid absent x c = c
  mirror_handshake-Sound sid ill_typed x c = c

  first_request-Sound :
      (uuid sid : ℕ) (s : Session) (r : Request) (x : Site)
      → P x.world.db
      → Sound (first_request uuid sid s r x)
  unfolding first_request
  first_request-Sound uuid sid s r x c =
      Sound-if x c (contains r.action) _ _ (process_request-Sound uuid sid s r x c) c

  on_version-Sound :
      (uuid next sid : ℕ) (s : Session) (r : Request) (x : Site) (o : Field Bytes)
      → P x.world.db
      → Sound (on_version uuid next sid s r x o)
  unfolding on_version initialized change_session
  on_version-Sound uuid next sid s r x absent c = handle_error-Kept x c sid s
  on_version-Sound uuid next sid s r x ill_typed c = c
  on_version-Sound uuid next sid s r x (given v) c =
      Sound-if x c (bytes_eq x.server.version v) _ _
        (first_request-Sound next sid (record s { token = some uuid }) r (initialized uuid sid s x)
          c)
        (handle_error-Kept x c sid s)

  closes-Kept : (sid : ℕ) (s : Session) (y : Step) → Sound y → P (closes sid s y).world.db
  unfolding closes
  closes-Kept sid s (returned tt, x) c = c
  closes-Kept sid s (threw, x) c = handle_error-Kept x c sid s

  pub read_handshake-Kept :
      (uuid next sid : ℕ) (s : Session) (h : Option Handshake) (x : Site)
      → P x.world.db
      → P (read_handshake uuid next sid s h x).world.db
  unfolding read_handshake client_handshake
  read_handshake-Kept uuid next sid s none x c = handle_error-Kept x c sid s
  read_handshake-Kept uuid next sid s (some h) x c = closes-Kept sid s _ (
      Sound-if x c (h.is_mirror_type && contains h.port) _ _ (mirror_handshake-Sound sid h.port x c)
        (on_version-Sound uuid next sid s h.request _ h.version
          (checked_ip-Kept sid s (allow_connection s.remote_ip x.server) x c)))
