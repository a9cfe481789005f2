-- ===== src/GameSocket/Session.antt =====
-- GameSocketServer/src/core/session.cpp, and the dispatch of
-- GameSocketServer/src/controller/game_controller.cpp. One session, with the world of the services
-- and the messages written so far, the newest first.
pub mod Answers
pub mod Runs
use back_end_doc.Common.{
  ℕ, Bool, true, false, Option, none, some, List, [], ◌∷◌, ◌==◌, if◌then◌else◌, Outcome, returned,
  threw, Bytes,
}
use back_end_doc.Request.{
  Field, absent, ill_typed, given, ActionName, register, login, ssafy_login, update_nick_name,
  create_room, join_room, exit_room, list_rooms, game_start, game_end, alive_ping, logout,
  room_capacity, ccu, unknown, Request,
}
use back_end_doc.World.{World, Action}
use back_end_doc.GameSocket.{
  Response, error, logged_in, authentication_required, unknown_action, unknown_game_action,
  invalid_format,
}
use back_end_doc.GameSocket.AuthService.{handle_auth}
use back_end_doc.GameSocket.RoomService.{handle_room}

-- `is_defined` is false once the code has done what the library leaves undefined.
pub record Site : Type 0 where
  pub user_id : ℕ
  pub user_name : Bytes
  pub is_open : Bool
  pub is_defined : Bool
  pub world : World
  pub sent : List Response

abbrev pub write : Response → Site → Site
write r x = record x { sent = r ∷ x.sent }

abbrev pub as_user : ℕ → Request → Request
as_user id r = record r { user_id = given id }

-- `init_current_user`
abbrev pub init_current_user : Response → Site → Site
init_current_user (logged_in u) x = record x { user_id = u.user_id; user_name = u.user_name }
init_current_user _ x = x

-- The response of `AuthController` is an object, which does not convert to the text that
-- `write_response` takes: the exception is caught, and answered with "Invalid request format".
after_auth : Outcome Response → Site → Site
after_auth threw x = write (error invalid_format) x
after_auth (returned r) x = write (error invalid_format) (init_current_user r x)

-- The response of `RoomController` is text.
after_room : Outcome (Option Response) → Site → Site
after_room threw x = write (error invalid_format) x
after_room (returned none) x = record x { is_defined = false }
after_room (returned (some r)) x = write r x

answer_auth : Outcome Response × World → Site → Site
unfolding after_auth
answer_auth (o, w) x = after_auth o (record x { world = w })

answer_room : Outcome (Option Response) × World → Site → Site
unfolding after_room
answer_room (o, w) x = after_room o (record x { world = w })

to_room : ActionName → Request → Site → Site
unfolding answer_room
to_room a r x =
    if x.user_id == 0
    then write (error authentication_required) x
    else answer_room (handle_room a (as_user x.user_id r) x.world) x

-- `GameController::handleRequest` compares with "startGame" and "endGame", so the actions that the
-- session lets through, "gameStart" and "gameEnd", are unknown to it.
handle_game : ActionName → Response
handle_game _ = error unknown_game_action

to_game : ActionName → Site → Site
unfolding handle_game
to_game a x =
    if x.user_id == 0 then write (error authentication_required) x else write (handle_game a) x

act : ActionName → Request → Site → Site
unfolding answer_auth to_room to_game
act register r x = answer_auth (handle_auth register r x.world) x
act login r x = answer_auth (handle_auth login r x.world) x
act create_room r x = to_room create_room r x
act join_room r x = to_room join_room r x
act exit_room r x = to_room exit_room r x
act list_rooms r x = to_room list_rooms r x
act game_start r x = to_game game_start x
act game_end r x = to_game game_end x
act _ r x = write (error unknown_action) x

on_action : Field ActionName → Request → Site → Site
unfolding act
on_action absent r x = write (error invalid_format) x
on_action ill_typed r x = write (error invalid_format) x
on_action (given a) r x = act a r x

unfoldable pub process_request : Request → Site → Site
unfolding on_action
process_request r x = on_action r.action r x

-- The handler of `read_message`; `none` is data that is no json.
unfoldable pub read_message : Option Request → Site → Site
read_message none x = write (error invalid_format) x
read_message (some r) x = process_request r x

-- `handle_error` closes the socket; a player stays in the room.
unfoldable pub handle_error : Site → Site
handle_error x = record x { is_open = false }
