-- ===== src/GameSocket/Session/Runs.antt =====
-- Every message to a session of GameSocketServer/src/core/session.cpp keeps the tables consistent.
use back_end_doc.Common.{
  Bool, true, false, Option, none, some, ◌==◌, if◌then◌else◌, Outcome, returned, threw,
}
use back_end_doc.Request.{
  Field, absent, ill_typed, given, ActionName, register, login, create_room, join_room, exit_room,
  list_rooms, game_start, game_end, Request,
}
use back_end_doc.RoomRepository.Consistent.{IsConsistent}
use back_end_doc.Stable.{account_part}
use back_end_doc.Stable.Consistent.{consistent}
use back_end_doc.World.{World}
use back_end_doc.GameSocket
use back_end_doc.GameSocket.{Response}
use back_end_doc.GameSocket.AuthService.Consistency.{handle_auth-Keeps}
use back_end_doc.GameSocket.RoomService.Consistency.{handle_room_keeps}
use back_end_doc.GameSocket.Session.{
  Site, as_user, after_auth, after_room, answer_auth, answer_room, to_room, to_game, act, on_action,
  process_request, read_message,
}

after_auth_keeps :
    (o : Outcome Response) (x : Site)
    → IsConsistent x.world.db
    → IsConsistent (after_auth o x).world.db
unfolding after_auth
after_auth_keeps threw x c = c
after_auth_keeps (returned (GameSocket.logged_in u)) x c = c
after_auth_keeps (returned _) x c = c

after_room_keeps :
    (o : Outcome (Option Response)) (x : Site)
    → IsConsistent x.world.db
    → IsConsistent (after_room o x).world.db
unfolding after_room
after_room_keeps threw x c = c
after_room_keeps (returned none) x c = c
after_room_keeps (returned (some r)) x c = c

answer_auth_keeps :
    (o : Outcome Response × World) (x : Site)
    → IsConsistent o.1.db
    → IsConsistent (answer_auth o x).world.db
unfolding answer_auth
answer_auth_keeps (o, w) x c = after_auth_keeps o (record x { world = w }) c

answer_room_keeps :
    (o : Outcome (Option Response) × World) (x : Site)
    → IsConsistent o.1.db
    → IsConsistent (answer_room o x).world.db
unfolding answer_room
answer_room_keeps (o, w) x c = after_room_keeps o (record x { world = w }) c

either_keeps :
    (b : Bool) (x y : Site)
    → IsConsistent x.world.db
    → IsConsistent y.world.db
    → IsConsistent (if b then x else y).world.db
either_keeps true x y hx hy = hx
either_keeps false x y hx hy = hy

module _ (r : Request) (x : Site) (c : IsConsistent x.world.db) where
  to_room_keeps : (a : ActionName) → IsConsistent (to_room a r x).world.db
  unfolding to_room
  to_room_keeps a =
      either_keeps (x.user_id == 0) _ _ c
        (answer_room_keeps _ x (handle_room_keeps a (as_user x.user_id r) x.world c))

  to_game_keeps : (a : ActionName) → IsConsistent (to_game a x).world.db
  unfolding to_game
  to_game_keeps a = either_keeps (x.user_id == 0) _ _ c c

  act_keeps : (a : ActionName) → IsConsistent (act a r x).world.db
  unfolding act
  act_keeps register =
      answer_auth_keeps _ x
        ((handle_auth-Keeps (account_part consistent) register r).after x.world c)
  act_keeps login =
      answer_auth_keeps _ x ((handle_auth-Keeps (account_part consistent) login r).after x.world c)
  act_keeps create_room = to_room_keeps create_room
  act_keeps join_room = to_room_keeps join_room
  act_keeps exit_room = to_room_keeps exit_room
  act_keeps list_rooms = to_room_keeps list_rooms
  act_keeps game_start = to_game_keeps game_start
  act_keeps game_end = to_game_keeps game_end
  act_keeps _ = c

  on_action_keeps : (o : Field ActionName) → IsConsistent (on_action o r x).world.db
  unfolding on_action
  on_action_keeps absent = c
  on_action_keeps ill_typed = c
  on_action_keeps (given a) = act_keeps a

-- From consistent tables: whatever a session reads, and whichever statement throws, every room stays
-- within its number of players, and every terminated room empty.
pub read_message_keeps :
    (m : Option Request) (x : Site)
    → IsConsistent x.world.db
    → IsConsistent (read_message m x).world.db
unfolding read_message process_request
read_message_keeps none x c = c
read_message_keeps (some r) x c = on_action_keeps r x c r.action
