-- ===== src/Session/Requests.antt =====
-- `process_request` of MatchingServer/src/core/session.cpp, and the handler of `read_message`.
use back_end_doc.Common.{
  ℕ, true, false, not, ◌||◌, Option, none, some, ◌==◌, if◌then◌else◌, Outcome, returned, threw,
}
use back_end_doc.AuthService.{handle_auth}
use back_end_doc.Db.{User, minus_one}
use back_end_doc.GameService.{handle_game}
use back_end_doc.Request.{
  Field, absent, ill_typed, given, ActionName, register, login, ssafy_login, update_nick_name,
  create_room, join_room, exit_room, list_rooms, game_start, game_end, alive_ping, logout,
  room_capacity, ccu, unknown, Request,
}
use back_end_doc.Response.{
  Response, error, logged_in, nick_name_updated, created_room, joined_room, exited_room,
  started_game, ended_game, authentication_needed, no_permission, already_logged_in, no_mirror,
  bad_request, unknown_action,
}
use back_end_doc.RoomRepository.{RoomInfo}
use back_end_doc.RoomService.{handle_room}
use back_end_doc.Server.{
  Server, Session, idle, in_room, check_already_login, register_session, get_mirror_session,
  get_ccu, get_room_capacity, set_session_status,
}
use back_end_doc.Session.{
  Site, Step, write, change_session, as_user, run, handle_error, handle_ping, reply, welcome,
  rooms_free, online, set_room,
}

-- `init_current_user`, then `registerSession` and the token of the session.
unfoldable pub logged : User → Session → Session
logged u s = record s {
  user_id = u.user_id;
  user_name = u.user_name;
  nick_name = u.nick_name;
  status = idle;
}

unfoldable pub registered_as : ℕ → ℕ → ℕ → Site → Site
registered_as uuid sid user_id x =
    change_session sid (λ s. record s { token = some uuid })
      (record x { server = register_session uuid sid user_id x.server })

-- A successful login. Where the account could not be read again its id is -1, which the session
-- takes before the missing name throws.
unfoldable pub after_login : ℕ → ℕ → Option User → Site → Step
unfolding logged registered_as
after_login uuid sid none x =
    if check_already_login minus_one x.server
    then (returned tt, write sid (reply (error already_logged_in)) x)
    else (threw, change_session sid (λ s. record s { user_id = minus_one }) x)
after_login uuid sid (some u) x =
    if check_already_login u.user_id x.server
    then (returned tt, write sid (reply (error already_logged_in)) x)
    else (
      returned tt,
      write sid (welcome u uuid)
          (registered_as uuid sid u.user_id (change_session sid (logged u) x)),
    )

-- A room was created: the mirror server of its port is told, before the client.
unfoldable pub told_mirror : ℕ → RoomInfo → Option ℕ × Server → Site → Site
told_mirror sid info (none, v) x = write sid (reply (error no_mirror)) (record x { server = v })
told_mirror sid info (some mirror, v) x = write sid (reply (created_room info)) (
    write mirror (set_room info) (
      change_session sid (λ s. record s { status = in_room info.room_id })
        (record x { server = v })))

-- A game starts or ends: its users have a new status, before the answer is written.
unfoldable pub told_statuses : ℕ → Response → Option Server → Site → Site
told_statuses sid r none x = record x { is_defined = false }
told_statuses sid r (some v) x = write sid (reply r) (record x { server = v })

-- What follows the response of a controller.
unfoldable pub after_response : ℕ → ℕ → Response → Site → Step
unfolding after_login told_mirror told_statuses
after_response uuid sid (logged_in u) x = after_login uuid sid u x
after_response uuid sid (created_room info) x =
    (returned tt, told_mirror sid info (get_mirror_session info.port x.server) x)
after_response uuid sid (joined_room id) x = (
  returned tt,
  write sid (reply (joined_room id)) (change_session sid (λ s. record s { status = in_room id }) x),
)
after_response uuid sid exited_room x = (
  returned tt,
  write sid (reply exited_room) (change_session sid (λ s. record s { status = idle }) x),
)
after_response uuid sid (started_game id users) x = (
  returned tt,
  told_statuses sid (started_game id users) (set_session_status true users x.server) x,
)
after_response uuid sid (ended_game id users) x = (
  returned tt,
  told_statuses sid (ended_game id users) (set_session_status false users x.server) x,
)
after_response uuid sid (nick_name_updated nick) x = (
  returned tt,
  write sid (reply (nick_name_updated nick))
      (change_session sid (λ s. record s { nick_name = nick }) x),
)
after_response uuid sid r x = (returned tt, write sid (reply r) x)

unfoldable pub after_controller : ℕ → ℕ → Outcome Response × Site → Step
unfolding after_response
after_controller uuid sid (threw, x) = (threw, x)
after_controller uuid sid (returned r, x) = after_response uuid sid r x

-- The `catch` of `process_request`, where the action was text.
unfoldable pub caught : ℕ → Step → Step
caught sid (returned tt, x) = (returned tt, x)
caught sid (threw, x) = (returned tt, write sid (reply (error bad_request)) x)

-- The three ways to a controller.
unfoldable pub to_auth : ℕ → ℕ → Session → ActionName → Request → Site → Step
unfolding after_controller
to_auth uuid sid s a r x =
    after_controller uuid sid
      (run (handle_auth a (if s.user_id == 0 then r else as_user s.user_id r)) x)

unfoldable pub to_room : ℕ → ℕ → Session → ActionName → Request → Site → Step
unfolding after_controller
to_room uuid sid s a r x =
    if s.user_id == 0
    then (returned tt, write sid (reply (error authentication_needed)) x)
    else after_controller uuid sid (run (handle_room a (as_user s.user_id r)) x)

unfoldable pub to_game : ℕ → ℕ → Session → ActionName → Request → Site → Step
unfolding after_controller
to_game uuid sid s a r x =
    if s.user_id == 0 || not s.is_mirror
    then (returned tt, write sid (reply (error no_permission)) x)
    else after_controller uuid sid (run (handle_game a (as_user s.user_id r)) x)

unfoldable pub act : ℕ → ℕ → Session → ActionName → Request → Site → Step
unfolding to_auth to_room to_game
act uuid sid s register r x = to_auth uuid sid s register r x
act uuid sid s login r x = to_auth uuid sid s login r x
act uuid sid s ssafy_login r x = to_auth uuid sid s ssafy_login r x
act uuid sid s update_nick_name r x = to_auth uuid sid s update_nick_name r x
act uuid sid s create_room r x = to_room uuid sid s create_room r x
act uuid sid s join_room r x = to_room uuid sid s join_room r x
act uuid sid s exit_room r x = to_room uuid sid s exit_room r x
act uuid sid s list_rooms r x = to_room uuid sid s list_rooms r x
act uuid sid s game_start r x = to_game uuid sid s game_start r x
act uuid sid s game_end r x = to_game uuid sid s game_end r x
act uuid sid s alive_ping r x = (returned tt, handle_ping sid s x)
act uuid sid s logout r x = (returned tt, handle_error sid s x)
act uuid sid s room_capacity r x =
    (returned tt, write sid (rooms_free (get_room_capacity x.server)) x)
act uuid sid s ccu r x = (returned tt, write sid (online (get_ccu x.server)) x)
act uuid sid s unknown r x = (returned tt, write sid (reply (error unknown_action)) x)

-- `process_request` of the session `s` with the number `sid`, on a json that is an object. Where the
-- action is no text, the log line of the `catch` throws again.
unfoldable pub on_action : ℕ → ℕ → Session → Request → Site → Field ActionName → Step
unfolding act caught
on_action uuid sid s r x absent = (threw, x)
on_action uuid sid s r x ill_typed = (threw, x)
on_action uuid sid s r x (given a) = caught sid (act uuid sid s a r x)

unfoldable pub process_request : ℕ → ℕ → Session → Request → Site → Step
unfolding on_action
process_request uuid sid s r x = on_action uuid sid s r x r.action

-- The handler of `read_message`; `none` is data that is no json.
unfoldable pub read_message : ℕ → ℕ → Session → Option Request → Site → Site
unfolding caught
read_message uuid sid s none x = write sid (reply (error bad_request)) x
read_message uuid sid s (some r) x = (caught sid (process_request uuid sid s r x)).1
