-- ===== src/Session/Gates.antt =====
-- Who a session acts for (`process_request` of MatchingServer/src/core/session.cpp).
use back_end_doc.Common.{
  ℕ, ◌≡◌, ◌≢◌, refl, ap, ◌∙◌, false, Option, none, some, ◌==◌, arith, returned,
}
use back_end_doc.Request.{
  Field, absent, ill_typed, given, ActionName, register, login, ssafy_login, update_nick_name,
  create_room, join_room, exit_room, list_rooms, game_start, game_end, alive_ping, logout,
  room_capacity, ccu, unknown, Request,
}
use back_end_doc.Response.{Message, error, authentication_needed, no_permission}
use back_end_doc.Server.{Session}
use back_end_doc.Session.{Site, write, reply}
use back_end_doc.Session.Requests.{
  to_auth, to_room, to_game, act, caught, on_action, process_request,
}

-- What a session that is not logged in is told, where an action needs a user.
abbrev pub refusal : ActionName → Option Message
refusal create_room = some authentication_needed
refusal join_room = some authentication_needed
refusal exit_room = some authentication_needed
refusal list_rooms = some authentication_needed
refusal game_start = some no_permission
refusal game_end = some no_permission
refusal _ = none

module _ (uuid sid : ℕ) (s : Session) (r : Request) (x : Site) where
  act_refused :
      (a : ActionName) (m : Message)
      → s.user_id ≡ 0
      → refusal a ≡ some m
      → act uuid sid s a r x ≡ (returned tt, write sid (reply (error m)) x)
  unfolding act to_room to_game
  act_refused create_room m z e = rw z (ground arith)
  act_refused join_room m z e = rw z (ground arith)
  act_refused exit_room m z e = rw z (ground arith)
  act_refused list_rooms m z e = rw z (ground arith)
  act_refused game_start m z e = rw z (ground arith)
  act_refused game_end m z e = rw z (ground arith)
  act_refused register m z e = absurd (cc)
  act_refused login m z e = absurd (cc)
  act_refused ssafy_login m z e = absurd (cc)
  act_refused update_nick_name m z e = absurd (cc)
  act_refused alive_ping m z e = absurd (cc)
  act_refused logout m z e = absurd (cc)
  act_refused room_capacity m z e = absurd (cc)
  act_refused ccu m z e = absurd (cc)
  act_refused unknown m z e = absurd (cc)

  -- A session that is not logged in is refused every action on rooms and games: the message is all
  -- that changes.
  pub process_request-refused :
      (a : ActionName) (m : Message)
      → s.user_id ≡ 0
      → r.action ≡ given a
      → refusal a ≡ some m
      → process_request uuid sid s r x ≡ (returned tt, write sid (reply (error m)) x)
  unfolding process_request on_action caught
  process_request-refused a m z ea e =
      ap (on_action uuid sid s r x) ea ∙ ap (caught sid) (act_refused a m z e)

  act_own_user :
      (a : ActionName) (f : Field ℕ)
      → (s.user_id == 0) ≡ false
      → act uuid sid s a r x ≡ act uuid sid s a (record r { user_id = f }) x
  unfolding act to_auth to_room to_game
  act_own_user register f z = rw z refl
  act_own_user login f z = rw z refl
  act_own_user ssafy_login f z = rw z refl
  act_own_user update_nick_name f z = rw z refl
  act_own_user create_room f z = rw z refl
  act_own_user join_room f z = rw z refl
  act_own_user exit_room f z = rw z refl
  act_own_user list_rooms f z = rw z refl
  act_own_user game_start f z = rw z refl
  act_own_user game_end f z = rw z refl
  act_own_user _ f z = refl

  -- A session that is logged in acts for its own user, whatever "userId" the request has.
  pub process_request-same_user :
      (f : Field ℕ)
      → s.user_id ≢ 0
      → process_request uuid sid s r x ≡ process_request uuid sid s (record r { user_id = f }) x
  unfolding process_request on_action
  process_request-same_user f ne = go r.action
    where
      go :
          (o : Field ActionName)
          → on_action uuid sid s r x o ≡ on_action uuid sid s (record r { user_id = f }) x o
      go absent = refl
      go ill_typed = refl
      go (given a) = ap (caught sid) (act_own_user a f (ground arith))
