-- ===== src/Session.antt =====
-- MatchingServer/src/core/session.cpp: what a session does with the messages that it reads. A step
-- runs on the server, the world of the services and the messages written so far, the newest first.
-- The three controllers are always there. `uuid` is the token that the server's generator gives.
pub mod Requests
pub mod Handshake
pub mod Gates
pub mod Consistency
pub mod Runs
pub mod Refused
pub mod Rename
pub mod Own
pub mod Once
pub mod Tokens
pub mod Answering
pub mod Greeting
pub mod Sockets
pub mod Pending
use back_end_doc.Common.{
  ℕ, ◌≡◌, Bool, true, false, not, ◌&&◌, ◌||◌, Option, none, some, List, [], ◌∷◌, ◌==◌,
  if◌then◌else◌, Outcome, returned, threw, Bytes,
}
use back_end_doc.AuthService.{handle_auth}
use back_end_doc.Db.{User, minus_one, is_negative}
use back_end_doc.GameService.{handle_game}
use back_end_doc.Request.{
  Field, absent, ill_typed, given, ActionName, register, login, ssafy_login, update_nick_name,
  create_room, join_room, exit_room, list_rooms, game_start, game_end, alive_ping, logout,
  room_capacity, ccu, unknown, Request,
}
use back_end_doc.Response.{
  Response, error, logged_in, nick_name_updated, created_room, joined_room, exited_room,
  started_game, ended_game, authentication_needed, no_permission, already_logged_in, no_mirror,
  bad_request, unknown_action,
}
use back_end_doc.RoomRepository.{RoomInfo}
use back_end_doc.RoomService.{handle_room}
use back_end_doc.Server.{
  Server, Session, idle, in_room, check_already_login, register_session, remove_session,
  remove_mirror_session, get_mirror_session, get_ccu, get_room_capacity, remove_connection,
  set_session_status,
}
use back_end_doc.Server.Table.{lookup, insert, erase}
use back_end_doc.World.{World, Action}

-- The messages that are written to sessions.
pub data Message : Type 0 where
  reply : Response → Message
  welcome : User → ℕ → Message
  pong : Option ℕ → Message
  rooms_free : ℕ → Message
  online : ℕ → Message
  set_room : RoomInfo → Message
  connected mirror_connected : Message

-- `is_defined` is false once the code has done what C++ leaves undefined.
pub record Site : Type 0 where
  pub is_defined : Bool
  pub server : Server
  pub world : World
  pub sent : List (ℕ × Message)

-- `write_response` and `write_mirror`.
abbrev pub write : ℕ → Message → Site → Site
write sid m x = record x { sent = (sid, m) ∷ x.sent }

abbrev pub change_object : (Session → Session) → ℕ → Option Session → Server → Server
change_object f sid none v = v
change_object f sid (some s) v = record v { objects = insert sid (f s) v.objects }

-- A session changes its own fields.
unfoldable pub change_session : ℕ → (Session → Session) → Site → Site
change_session sid f x = record x {
  server = change_object f sid (lookup sid x.server.objects) x.server;
}

-- A request with the user of the session.
abbrev pub as_user : ℕ → Request → Request
as_user id r = record r { user_id = given id }

abbrev pub answered : Site → Outcome Response × World → Outcome Response × Site
answered x (o, w) = (o, record x { world = w })

-- A controller runs.
abbrev pub run : Action Response → Site → Outcome Response × Site
run m x = answered x (m x.world)

-- What the handler of a message ends with: an exception may leave it.
abbrev pub Step : Type 0
Step = Outcome (Unit {0}) × Site

-- { "action": "exitRoom", "userId": id }
abbrev pub exit_request : ℕ → Request
exit_request id = record {
  action = given exit_room;
  user_name = absent;
  password = absent;
  nick_name = absent;
  room_name = absent;
  user_id = given id;
  max_players = absent;
  room_id = absent;
  map_id = absent;
  game_id = absent;
}

abbrev pub close_socket : Session → Session
close_socket s = record s { is_open = false }

-- `handle_error`: a user leaves the room, and the socket is closed. What the controller throws is
-- caught.
unfoldable pub leave_room : ℕ → Site → Site
leave_room user_id x =
    if user_id == 0 || is_negative user_id
    then x
    else (run (handle_room exit_room (exit_request user_id)) x).1

unfoldable pub handle_error : ℕ → Session → Site → Site
unfolding leave_room
handle_error sid s x = change_session sid close_socket (leave_room s.user_id x)

unfoldable pub forget_mirror : Session → Server → Server
forget_mirror s v = if s.is_mirror then remove_mirror_session s.mirror_port v else v

unfoldable pub forget_token : Option ℕ → ℕ → Server → Server
forget_token none user_id v = v
forget_token (some token) user_id v = remove_session token user_id v

-- The destructor; the object is gone before it runs.
unfoldable pub destroy : ℕ → Session → Site → Site
unfolding forget_mirror forget_token
destroy sid s x = record x {
  server = remove_connection s.remote_ip (
      forget_token s.token s.user_id
        (forget_mirror s (record x.server { objects = erase sid x.server.objects })));
}

-- `handlePing`
unfoldable pub handle_ping : ℕ → Session → Site → Site
handle_ping sid s x =
    write sid (pong s.token) (change_session sid (λ s. record s { last_activity = x.world.now }) x)
