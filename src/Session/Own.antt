-- ===== src/Session/Own.antt =====
-- For whom a session that is logged in acts (`process_request` of MatchingServer/src/core/session.cpp).
use back_end_doc.Common.{
  arith, ℕ, ◌≡◌, ◌≢◌, refl, sym, subst, Bool, true, false, not, ◌||◌, some, List, ◌==◌,
  if◌then◌else◌, Bytes, Outcome, returned,
}
use back_end_doc.AuthService.{handle_auth}
use back_end_doc.Db.{is_negative}
use back_end_doc.Db.Query.{rooms_of}
use back_end_doc.GameService.Consistency.{handle_game-Keeps}
use back_end_doc.Request.{
  Field, absent, ill_typed, given, to_int, ActionName, register, login, ssafy_login,
  update_nick_name, create_room, join_room, exit_room, list_rooms, game_start, game_end, logout,
  Request,
}
use back_end_doc.Response.{Response, error, authentication_needed, no_permission}
use back_end_doc.RoomService.{handle_room}
use back_end_doc.RoomService.Consistency.{user_room-Keeps}
use back_end_doc.Server.{Session}
use back_end_doc.Session.{
  Site, Step, run, write, reply, as_user, exit_request, leave_room, handle_error, handle_ping,
  change_session,
}
use back_end_doc.Session.Gates.{process_request-same_user}
use back_end_doc.Session.Rename.{after_controller-world}
use back_end_doc.Session.Requests.{
  after_controller, to_auth, to_room, to_game, act, caught, on_action, process_request,
}
use back_end_doc.GameService.{handle_game}
use back_end_doc.Stable.Others.{nick_of, HasKept, games, room-IsKept, auth-Keeps}

module _ (v : ℕ) (rs : List ℕ) (n : Bytes) where
  module _ (uuid sid : ℕ) (s : Session) (r : Request) (x : Site) (user : s.user_id ≢ 0)
      (other : (to_int s.user_id == v) ≡ false) (c : HasKept v rs n x.world.db) where
    Kept : Step → Type 0
    Kept y = HasKept v rs n (caught sid y).1.world.db

    controlled :
        (y : Outcome Response × Site)
        → HasKept v rs n y.1.world.db
        → Kept (after_controller uuid sid y)
    unfolding Kept
    controlled y h = subst (λ w. HasKept v rs n w.db) (sym (after_controller-world uuid sid y)) h

    to_auth-Kept : (a : ActionName) → Kept (to_auth uuid sid s a r x)
    unfolding to_auth
    to_auth-Kept a = go (s.user_id == 0) (ground (arith))
      where
        go :
            (b : Bool)
            → b ≡ false
            → Kept (
                after_controller uuid sid
                  (run (handle_auth a (if b then r else as_user s.user_id r)) x))
        go true h = absurd (cc)
        go false h = controlled _ (
            (auth-Keeps v rs n (to_int s.user_id) other a (as_user s.user_id r) refl).after x.world
              c)

    to_room-Kept : (a : ActionName) → Kept (to_room uuid sid s a r x)
    unfolding to_room Kept caught
    to_room-Kept a = go (s.user_id == 0)
      where
        go :
            (b : Bool)
            → Kept (
                if b
                then (returned tt, write sid (reply (error authentication_needed)) x)
                else after_controller uuid sid (run (handle_room a (as_user s.user_id r)) x))
        go true = c
        go false = controlled _ (
            (user_room-Keeps (as_user s.user_id r)
                (room-IsKept v rs n (to_int s.user_id) other (as_user s.user_id r) refl) a).after
              x.world c)

    to_game-Kept : (a : ActionName) → Kept (to_game uuid sid s a r x)
    unfolding to_game Kept caught
    to_game-Kept a = go (s.user_id == 0 || not s.is_mirror)
      where
        go :
            (b : Bool)
            → Kept (
                if b
                then (returned tt, write sid (reply (error no_permission)) x)
                else after_controller uuid sid (run (handle_game a (as_user s.user_id r)) x))
        go true = c
        go false =
            controlled _
              ((handle_game-Keeps (games v rs n) a (as_user s.user_id r)).after x.world c)

    leave_room-Kept : HasKept v rs n (leave_room s.user_id x).world.db
    unfolding leave_room
    leave_room-Kept = go (s.user_id == 0 || is_negative s.user_id)
      where
        go :
            (b : Bool)
            → HasKept v rs n
                (if b
                  then x
                  else (run (handle_room exit_room (exit_request s.user_id)) x).1).world.db
        go true = c
        go false =
            (user_room-Keeps (exit_request s.user_id)
                (room-IsKept v rs n (to_int s.user_id) other (exit_request s.user_id) refl)
                exit_room).after
              x.world c

    act-Kept : (a : ActionName) → Kept (act uuid sid s a r x)
    unfolding act Kept caught handle_ping handle_error change_session
    act-Kept register = to_auth-Kept register
    act-Kept login = to_auth-Kept login
    act-Kept ssafy_login = to_auth-Kept ssafy_login
    act-Kept update_nick_name = to_auth-Kept update_nick_name
    act-Kept create_room = to_room-Kept create_room
    act-Kept join_room = to_room-Kept join_room
    act-Kept exit_room = to_room-Kept exit_room
    act-Kept list_rooms = to_room-Kept list_rooms
    act-Kept game_start = to_game-Kept game_start
    act-Kept game_end = to_game-Kept game_end
    act-Kept logout = leave_room-Kept
    act-Kept _ = c

    acted : (o : Field ActionName) → HasKept v rs n (on_action uuid sid s r x o).1.world.db
    unfolding on_action Kept
    acted absent = c
    acted ill_typed = c
    acted (given a) = act-Kept a

-- A session that is logged in acts for its own user, whatever "userId" the request has and whichever
-- statement throws: that "userId" makes no difference, and any other account stays in the rooms it was in
-- and keeps its nickname.
pub process_request-own_user :
    (uuid sid v : ℕ) (n : Bytes) (s : Session) (r : Request) (x : Site) (f : Field ℕ)
    → s.user_id ≢ 0
    → v ≢ to_int s.user_id
    → nick_of v x.world.db.users ≡ some n
    → (process_request uuid sid s r x ≡ process_request uuid sid s (record r { user_id = f }) x)
      × (rooms_of v (process_request uuid sid s r x).1.world.db.room_users
          ≡ rooms_of v x.world.db.room_users)
      × (nick_of v (process_request uuid sid s r x).1.world.db.users ≡ some n)
unfolding process_request
process_request-own_user uuid sid v n s r x f user other e =
    let kept =
      acted v (rooms_of v x.world.db.room_users) n uuid sid s r x user (ground (arith)) (refl, e)
        r.action in
    (process_request-same_user uuid sid s r x f user, kept.0, kept.1)
