-- ===== src/Examples/TestClient.antt =====
-- Tests of the console client.
use back_end_doc.Common.{
  ℕ, false, refl, ◌⊎◌, none, some, [], ◌∷◌, ◌++◌, ◌==◌, if◌then◌else◌, member,
}
use back_end_doc.Request.{absent, given, login}
use back_end_doc.Server.Table.{lookup}
use back_end_doc.Session.Handshake.{read_handshake}
use back_end_doc.TestClient.{Library, Client, connect, hello, handle_read, take_response}
use back_end_doc.TestClient.Alive.{Ended}
use back_end_doc.TestClient.Order.{Runs-IsInOrder}
use back_end_doc.TestClient.Refusal.{Closed, ip_message, as_handshake, read_handshake-Closed}
use back_end_doc.TestClient.Stopping.{WaitsFor, Runs-stop}
use back_end_doc.TestClient.System.{
  System, Runs, starts, moves, arrives, reads, takes, IsFresh, IsInOrder,
}
use back_end_doc.Examples.Messages.{sample_site}
use back_end_doc.Examples.Sessions.{sample_session}

-- The response 1 is that to a login, of user 7.
abbrev sample_library : Library
sample_library = record {
  Json = ℕ;
  is_success = λ j. j == 1;
  action = λ j. if j == 1 then given login else absent;
  user_id = λ j. given 7;
  timed_out = 90;
  raised = 91;
}

abbrev sample_client : Client sample_library
sample_client = record {
  user_id = 0;
  is_running = false;
  is_open = false;
  io_runs = false;
  is_reading = false;
  queue = [];
  written = [];
}

abbrev at_start : System sample_library
at_start = record {
  client = connect sample_library sample_client;
  texts = [];
  unread = [];
  taken = [];
}

-- A ping is answered before the request to log in.
abbrev after_ping : System sample_library
after_ping = record at_start {
  client = handle_read sample_library (some 0) at_start.client;
  texts = some 0 ∷ [];
}

abbrev after_answers : System sample_library
after_answers = record at_start {
  client = handle_read sample_library (some 1) after_ping.client;
  texts = some 0 ∷ some 1 ∷ [];
}

abbrev after_request : System sample_library
after_request = record after_answers {
  client = (take_response sample_library after_answers.client).1;
  taken = 0 ∷ [];
}

sample_run : Runs sample_library at_start after_request
unfolding connect handle_read take_response
sample_run =
    moves
      (moves
        (moves (moves (moves starts (arrives (some 0) _)) (reads (some 0) [] _ refl refl))
          (arrives (some 1) _))
        (reads (some 1) [] _ refl refl))
      (takes 0 (1 ∷ []) _ refl)

fresh : IsFresh sample_library at_start
unfolding connect
fresh = (refl, refl, refl)

Runs-IsInOrder_example : IsInOrder sample_library after_request
Runs-IsInOrder_example = Runs-IsInOrder sample_library at_start after_request fresh sample_run

Runs-stop_example :
    WaitsFor sample_library (none ∷ []) after_request.client
    ⊎ Ended sample_library (after_request.texts ++ none ∷ [])
Runs-stop_example =
    Runs-stop sample_library at_start after_request sample_client (none ∷ []) fresh refl sample_run

read_handshake-Closed_example :
    Closed 10 sample_session
      (ip_message 10 (member 9 (9 ∷ [])) ++ [])
      sample_site
      (read_handshake 200 201 10 sample_session (some (as_handshake hello)) sample_site)
unfolding lookup
read_handshake-Closed_example =
    read_handshake-Closed 200 201 10 sample_session hello sample_site refl
