-- ===== src/Session/Answering.antt =====
-- How the messages of a session are answered (MatchingServer/src/core/session.cpp). The handler of a
-- write reads the next message, so a message that is not answered is the last one of its session.
use back_end_doc.Common.{
  ℕ, ◌≡◌, refl, ap, Bool, true, false, ◌||◌, Option, none, some, List, ◌∷◌, ◌==◌, if◌then◌else◌,
  Outcome, returned, threw,
}
use back_end_doc.Db.{User, is_negative}
use back_end_doc.Request.{
  Field, absent, ill_typed, given, ActionName, register, login, ssafy_login, update_nick_name,
  create_room, join_room, exit_room, list_rooms, game_start, game_end, alive_ping, logout, Request,
}
use back_end_doc.Response.{Response, bad_request}
use back_end_doc.RoomRepository.{RoomInfo}
use back_end_doc.Server.{Server, Session, set_session_status}
use back_end_doc.Session.{
  Site, Step, Message, reply, set_room, handle_error, handle_ping, leave_room, change_session,
}
use back_end_doc.Session.Requests.{
  to_auth, to_room, to_game, act, caught, on_action, registered_as, after_login, told_mirror,
  told_statuses, after_response, after_controller, process_request, read_message,
}

-- What is written for one message, which was read by session `sid`.
pub data Answers (sid : ℕ) (m : Option Request) (before : List (ℕ × Message)) : Site → Type 0 where
  once : {y : Site} (a : Message) → y.sent ≡ (sid, a) ∷ before → Answers sid m before y
  with_mirror :
      {y : Site} (mirror : ℕ) (info : RoomInfo)
      → y.sent ≡ (sid, reply (Response.created_room info)) ∷ (mirror, set_room info) ∷ before
      → Answers sid m before y
  logs_out :
      {y : Site} (r : Request)
      → m ≡ some r
      → r.action ≡ given logout
      → y.sent ≡ before
      → Answers sid m before y
  undefined : {y : Site} → y.is_defined ≡ false → y.sent ≡ before → Answers sid m before y

-- A step that throws has written nothing yet.
pub data Answered (sid : ℕ) (m : Option Request) (before : List (ℕ × Message)) : Step → Type 0 where
  answered : {y : Site} → Answers sid m before y → Answered sid m before (returned tt, y)
  fails : {y : Site} → y.sent ≡ before → Answered sid m before (threw, y)

module _ (sid : ℕ) (r : Request) where
  abbrev Done : Site → Step → Type 0
  Done w = Answered sid (some r) w.sent

  Done-if : (b : Bool) (w : Site) (y z : Step) → Done w y → Done w z → Done w (if b then y else z)
  Done-if true w y z hy hz = hy
  Done-if false w y z hy hz = hz

  told_mirror-Answers :
      (info : RoomInfo) (m : Option ℕ × Server) (w : Site)
      → Answers sid (some r) w.sent (told_mirror sid info m w)
  unfolding told_mirror change_session
  told_mirror-Answers info (none, v) w = once _ refl
  told_mirror-Answers info (some mirror, v) w = with_mirror mirror info refl

  told_statuses-Answers :
      (a : Response) (o : Option Server) (w : Site)
      → Answers sid (some r) w.sent (told_statuses sid a o w)
  unfolding told_statuses
  told_statuses-Answers a none w = undefined refl refl
  told_statuses-Answers a (some v) w = once _ refl

  after_login-Done : (uuid : ℕ) (u : Option User) (w : Site) → Done w (after_login uuid sid u w)
  unfolding after_login change_session registered_as
  after_login-Done uuid none w = Done-if _ w _ _ (answered (once _ refl)) (fails refl)
  after_login-Done uuid (some u) w =
      Done-if _ w _ _ (answered (once _ refl)) (answered (once _ refl))

  after_response-Done : (uuid : ℕ) (a : Response) (w : Site) → Done w (after_response uuid sid a w)
  unfolding after_response change_session
  after_response-Done uuid (Response.logged_in u) w = after_login-Done uuid u w
  after_response-Done uuid (Response.created_room info) w = answered (told_mirror-Answers info _ w)
  after_response-Done uuid (Response.joined_room id) w = answered (once _ refl)
  after_response-Done uuid Response.exited_room w = answered (once _ refl)
  after_response-Done uuid (Response.started_game id users) w =
      answered (told_statuses-Answers _ (set_session_status true users w.server) w)
  after_response-Done uuid (Response.ended_game id users) w =
      answered (told_statuses-Answers _ (set_session_status false users w.server) w)
  after_response-Done uuid (Response.nick_name_updated nick) w = answered (once _ refl)
  after_response-Done uuid _ w = answered (once _ refl)

  after_controller-Done :
      (uuid : ℕ) (y : Outcome Response × Site) → Done y.1 (after_controller uuid sid y)
  unfolding after_controller
  after_controller-Done uuid (threw, w) = fails refl
  after_controller-Done uuid (returned a, w) = after_response-Done uuid a w

either_sent :
    (b : Bool) (x y z : Site)
    → y.sent ≡ x.sent
    → z.sent ≡ x.sent
    → (if b then y else z).sent ≡ x.sent
either_sent true x y z hy hz = hy
either_sent false x y z hy hz = hz

pub handle_error-sent : (sid : ℕ) (s : Session) (x : Site) → (handle_error sid s x).sent ≡ x.sent
unfolding handle_error change_session leave_room
handle_error-sent sid s x = either_sent (s.user_id == 0 || is_negative s.user_id) x x _ refl refl

module _ (uuid sid : ℕ) (s : Session) (r : Request) (x : Site) where
  act-Done : (a : ActionName) → r.action ≡ given a → Done sid r x (act uuid sid s a r x)
  unfolding act to_auth to_room to_game handle_ping change_session
  act-Done register e = after_controller-Done sid r uuid _
  act-Done login e = after_controller-Done sid r uuid _
  act-Done ssafy_login e = after_controller-Done sid r uuid _
  act-Done update_nick_name e = after_controller-Done sid r uuid _
  act-Done create_room e =
      Done-if sid r _ x _ _ (answered (once _ refl)) (after_controller-Done sid r uuid _)
  act-Done join_room e =
      Done-if sid r _ x _ _ (answered (once _ refl)) (after_controller-Done sid r uuid _)
  act-Done exit_room e =
      Done-if sid r _ x _ _ (answered (once _ refl)) (after_controller-Done sid r uuid _)
  act-Done list_rooms e =
      Done-if sid r _ x _ _ (answered (once _ refl)) (after_controller-Done sid r uuid _)
  act-Done game_start e =
      Done-if sid r _ x _ _ (answered (once _ refl)) (after_controller-Done sid r uuid _)
  act-Done game_end e =
      Done-if sid r _ x _ _ (answered (once _ refl)) (after_controller-Done sid r uuid _)
  act-Done logout e = answered (logs_out r refl e (handle_error-sent sid s x))
  act-Done alive_ping e = answered (once _ refl)
  act-Done _ e = answered (once _ refl)

pub settled :
    (sid : ℕ) (m : Option Request) (before : List (ℕ × Message)) (y : Step)
    → Answered sid m before y
    → Answers sid m before (caught sid y).1
unfolding caught
settled sid m before (returned tt, y) (answered h) = h
settled sid m before (threw, y) (fails h) =
    once (reply (Response.error bad_request))
      (ap (λ l. (sid, reply (Response.error bad_request)) ∷ l) h)

caught-Done :
    (sid : ℕ) (m : Option Request) (before : List (ℕ × Message)) (y : Step)
    → Answered sid m before y
    → Answered sid m before (caught sid y)
unfolding caught
caught-Done sid m before (returned tt, y) h = h
caught-Done sid m before (threw, y) h = answered (settled sid m before (threw, y) h)

pub on_action-Done :
    (uuid sid : ℕ) (s : Session) (r : Request) (x : Site) (o : Field ActionName)
    → r.action ≡ o
    → Answered sid (some r) x.sent (on_action uuid sid s r x o)
unfolding on_action
on_action-Done uuid sid s r x absent e = fails refl
on_action-Done uuid sid s r x ill_typed e = fails refl
on_action-Done uuid sid s r x (given a) e =
    caught-Done sid (some r) x.sent (act uuid sid s a r x) (act-Done uuid sid s r x a e)

-- Whatever a session reads, json or not, it is answered with exactly one message to the session; before
-- it, the mirror server of a new room is told. Only a logout is not answered, and a step that is
-- undefined; neither writes anything.
pub read_message-Answers :
    (uuid sid : ℕ) (s : Session) (m : Option Request) (x : Site)
    → Answers sid m x.sent (read_message uuid sid s m x)
unfolding read_message process_request
read_message-Answers uuid sid s none x = once _ refl
read_message-Answers uuid sid s (some r) x =
    settled sid (some r) x.sent (process_request uuid sid s r x)
      (on_action-Done uuid sid s r x r.action refl)
