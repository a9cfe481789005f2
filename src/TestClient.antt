-- ===== src/TestClient.antt =====
-- GameSocketTestClient/GameTestClient.cpp: the console client. Its three threads are steps: the menu
-- sends a request and waits for the front of the queue, the io thread puts what it reads into the
-- queue, and the ping thread writes every ten seconds. `Library` is the json library: what the client
-- reads of a response, and the two answers that it makes itself.
pub mod System
pub mod Order
pub mod Refusal
pub mod Alive
pub mod Stopping
use back_end_doc.Common.{
  ℕ, ◌+◌, Bool, true, false, not, ◌&&◌, ◌||◌, Option, none, some, List, [], ◌∷◌, ◌++◌, ◌==◌,
  if◌then◌else◌, Outcome, returned, threw, Bytes,
}
use back_end_doc.Db.{is_negative}
use back_end_doc.Request.{
  Field, absent, ill_typed, given, contains, to_int, ActionName, register, login, ssafy_login,
  update_nick_name, create_room, join_room, exit_room, list_rooms, game_start, game_end, alive_ping,
  Request,
}

pub record Library : Type 1 where
  pub Json : Type 0
  -- response.contains("status") && response["status"] == "success"
  pub is_success : Json → Bool
  pub action : Json → Field ActionName
  pub user_id : Json → Field ℕ
  -- "응답 대기 시간 초과"
  pub timed_out : Json
  -- {"status": "error", "message": e.what()}
  pub raised : Json

-- A request, or {"connectionType": "client"}.
pub data Outgoing : Type 0 where
  request : Request → Outgoing
  hello : Outgoing

abbrev pub is_login_action : ActionName → Bool
is_login_action login = true
is_login_action register = true
is_login_action ssafy_login = true
is_login_action _ = false

-- What `sendRequest` adds to a request of a user. None of the requests has the empty text as its
-- action.
with_user_of : ℕ → Request → Field ActionName → Outcome Request
with_user_of id r absent = returned r
with_user_of id r ill_typed = threw
with_user_of id r (given a) =
    returned (if is_login_action a then r else record r { user_id = given id })

unfoldable pub with_user : ℕ → Outgoing → Outcome Outgoing
unfolding with_user_of
with_user id hello = returned hello
with_user id (request r) =
    if not (id == 0 || is_negative id) && not (contains r.user_id)
    then elim (with_user_of id r r.action) [ threw ↦ threw | returned q ↦ returned (request q) ]
    else returned (request r)

-- {"action": name}
abbrev pub only_action : ActionName → Request
only_action a = record {
  action = given a;
  user_name = absent;
  password = absent;
  nick_name = absent;
  room_name = absent;
  user_id = absent;
  max_players = absent;
  room_id = absent;
  map_id = absent;
  game_id = absent;
}

-- An `int` as the number of a json.
abbrev pub extend : ℕ → ℕ
extend n = if is_negative n then n + 18446744069414584320 else n

-- What the user types after a choice: up to two texts and two numbers.
pub record Input : Type 0 where
  pub first_text : Bytes
  pub second_text : Bytes
  pub first_number : ℕ
  pub second_number : ℕ

-- The cases of the switch of `main` that send a request.
unfoldable pub request_for : ℕ → Input → Option Request
request_for n i =
    if n == 1
    then some (record (only_action register) {
      user_name = given i.first_text;
      password = given i.second_text;
    })
    else if n == 2
    then some (record (only_action login) {
      user_name = given i.first_text;
      password = given i.second_text;
    })
    else if n == 3
    then some (record (only_action ssafy_login) {
      user_name = given i.first_text;
      password = given i.second_text;
    })
    else if n == 4
    then some (record (only_action update_nick_name) { nick_name = given i.first_text })
    else if n == 5
    then some (only_action list_rooms)
    else if n == 6
    then some (record (only_action create_room) {
      room_name = given i.first_text;
      max_players = given (extend i.first_number);
    })
    else if n == 7
    then some (record (only_action join_room) { room_id = given (extend i.first_number) })
    else if n == 8
    then some (only_action exit_room)
    else if n == 9
    then some (record (only_action game_start) {
      room_id = given (extend i.first_number);
      map_id = given (extend i.second_number);
    })
    else if n == 10
    then some (record (only_action game_end) { game_id = given (extend i.first_number) })
    else if n == 11
    then some (only_action alive_ping)
    else none

module _ (lib : Library) where
  -- `written` is what was written, the newest first; `is_reading` says whether a read is pending.
  pub record Client : Type 0 where
    pub user_id : ℕ
    pub is_running : Bool
    pub is_open : Bool
    pub io_runs : Bool
    pub is_reading : Bool
    pub queue : List lib.Json
    pub written : List Outgoing

  -- `connect`, where the server accepts.
  unfoldable pub connect : Client → Client
  connect c = record c { is_running = true; is_open = true; io_runs = true; is_reading = true }

  -- The first half of `sendRequest`; `fails` says that the write throws.
  submitted : Outcome Outgoing → Client → Outcome Client
  submitted threw c = threw
  submitted (returned m) c = returned (record c { written = m ∷ c.written })

  unfoldable pub submit : Bool → Outgoing → Client → Outcome Client
  unfolding submitted
  submit true m c = threw
  submit false m c = submitted (with_user c.user_id m) c

  -- The second half: the front of the queue, or the answer after five seconds.
  unfoldable pub take_response : Client → lib.Json × Client
  take_response c = elim c.queue [
    | [] ↦ (lib.timed_out, c)
    | j ∷ rest ↦ (j, record c { queue = rest })
  ]

  -- A login that succeeded: an exception that is no parse error leaves the handler.
  login_of : Field ActionName → Field ℕ → Client → Outcome Client
  login_of absent id c = returned c
  login_of ill_typed id c = threw
  login_of (given a) absent c = returned c
  login_of (given a) ill_typed c = if is_login_action a then threw else returned c
  login_of (given a) (given n) c =
      returned (if is_login_action a then record c { user_id = to_int n } else c)

  -- The exception ends the io thread.
  pushed : lib.Json → Outcome Client → Client → Client
  pushed j threw c = record c { io_runs = false; is_reading = false }
  pushed j (returned d) c = record d { queue = d.queue ++ j ∷ [] }

  -- `handleRead` of a text, `none` if it is no json: it is dropped then.
  unfoldable pub handle_read : Option lib.Json → Client → Client
  unfolding login_of pushed
  handle_read none c = c
  handle_read (some j) c =
      pushed j (if lib.is_success j then login_of (lib.action j) (lib.user_id j) c else returned c)
        c

  -- `handleRead` of an error; a client that runs reads again.
  unfoldable pub read_fails : Client → Client
  read_fails c = if c.is_running then c else record c { io_runs = false; is_reading = false }

  unfoldable pub handle_all : List (Option lib.Json) → Client → Client
  handle_all [] c = c
  handle_all (t ∷ ts) c = handle_all ts (if c.is_reading then handle_read t c else c)

  answered : List (Option lib.Json) → Outcome Client → Client → lib.Json × Client
  answered arrivals threw c = (lib.raised, c)
  answered arrivals (returned d) c = take_response (handle_all arrivals d)

  -- `sendRequest`; `arrivals` is what the io thread reads until the wait is over.
  unfoldable pub send_request :
      Bool → List (Option lib.Json) → Outgoing → Client → lib.Json × Client
  unfolding answered
  send_request fails arrivals m c = answered arrivals (submit fails m c) c

  -- One round of the ping thread; what the write throws is caught.
  unfoldable pub ping : Bool → Client → Client
  ping fails c =
      if c.is_running && not fails
      then record c { written = request (only_action alive_ping) ∷ c.written }
      else c

  -- What the handler of a read is called with: a text or an error.
  pub data Event : Type 0 where
    text : Option lib.Json → Event
    broken : Event

  handle_event : Event → Client → Client
  handle_event (text t) c = handle_read t c
  handle_event broken c = read_fails c

  unfoldable pub handle_events : List Event → Client → Client
  unfolding handle_event
  handle_events [] c = c
  handle_events (e ∷ es) c = handle_events es (if c.is_reading then handle_event e c else c)

  joined : Client → Option Client
  joined c = if c.io_runs then none else some (record c { is_open = false })

  -- `stop` waits for the io thread, to which `es` happens then, before it closes the socket; `none` if it
  -- still waits after that.
  unfoldable pub stop : List Event → Client → Option Client
  unfolding joined
  stop es c = joined (handle_events es (record c { is_running = false }))

  -- One round of the menu: the choice, what is typed, and what happens to the request.
  pub record Round : Type 0 where
    pub choice : ℕ
    pub input : Input
    pub fails : Bool
    pub arrivals : List (Option lib.Json)

  chosen : Option Request → Round → Client → Client
  chosen none r c = c
  chosen (some q) r c = (send_request r.fails r.arrivals (request q) c).1

  -- The loop of `main`, up to the choice 0.
  unfoldable pub menu : List Round → Client → Client
  unfolding chosen
  menu [] c = c
  menu (r ∷ rs) c = if r.choice == 0 then c else menu rs (chosen (request_for r.choice r.input) r c)
