-- ===== src/Examples/Machines.antt =====
-- Tests of the server's life and of the gateway.
use back_end_doc.Common.{
  ◌∷◌, ◌≤◌, ◌≢◌, none, arith, ◌≡◌, refl, true, false, [], ◌||◌, if◌then◌else◌, returned, threw,
  Bytes, bytes_eq, member, ℕ,
}
use back_end_doc.Gateway.{Library, called, gateway_routes, register_route, route, login_action}
use back_end_doc.Gateway.Routing.{route-register_route}
use back_end_doc.Lifecycle.{Machine, run, stop, check_fires, chat, broadcast_chat, values}
use back_end_doc.Lifecycle.Hearing.{waits, heard_by, add_times, broadcast_chat-heard}
use back_end_doc.Lifecycle.Stopping.{shut_at, stop-shut}
use back_end_doc.Lifecycle.Timers.{
  Lives, is_born, lives_on, starts, stops, checks, IsTimed, Lives-IsTimed,
}
use back_end_doc.Lifecycle.Refinement.{Lives-Plays}
use back_end_doc.Lifecycle.Accepting
use back_end_doc.Lifecycle.Accepting.{
  Listening, Listens, begins, hears, accepts, connection, start_up, shut_down, with_session,
  do_accept, next_accept, accepted, create, made_machine, initial_machine,
}
use back_end_doc.Lifecycle.Beginning.{create-Listens}
use back_end_doc.Lobby.{Plays, lobby_of}
use back_end_doc.Request.{given}
use back_end_doc.RoomRepository.Consistent.{IsConsistent}
use back_end_doc.Server.Table.{lookup, count_value}
use back_end_doc.Examples.{al, bo, sample_db-IsConsistent, sample_world}
use back_end_doc.Examples.Messages.{sample_site}

-- The server before it runs.
abbrev at_rest : Machine
at_rest = record {
  site = sample_site;
  is_running = false;
  is_checking = false;
  is_broadcasting = false;
  is_accepting = false;
  check_armed = false;
  broadcast_armed = false;
  heard = [];
}

at_rest-IsTimed : IsTimed at_rest
at_rest-IsTimed = record {
  checking = refl;
  broadcasting = refl;
  check_waits = refl;
  broadcast_waits = refl;
}

armed : (run at_rest).check_armed ≡ true
unfolding run back_end_doc.Lifecycle.start_broadcast_timer
    back_end_doc.Lifecycle.start_session_timeout_check back_end_doc.Lifecycle.check_inactive
    back_end_doc.Lifecycle.schedule_broadcast
armed = refl

abbrev stopped : Machine
stopped = stop (check_fires (run at_rest))

a_life : Lives at_rest stopped
a_life = lives_on (lives_on (lives_on is_born starts) (checks armed)) stops

Lives-IsTimed_example : IsConsistent stopped.site.world.db × IsTimed stopped
Lives-IsTimed_example = Lives-IsTimed at_rest stopped a_life sample_db-IsConsistent at_rest-IsTimed

Lives-Plays_example : Plays (lobby_of sample_site.world.db) (lobby_of stopped.site.world.db)
Lives-Plays_example = Lives-Plays at_rest stopped a_life sample_db-IsConsistent at_rest-IsTimed

abbrev running : Machine
running = record at_rest { is_running = true; is_checking = true }

stop-shut_example :
    ((j : ℕ)
      → shut_at j (stop running).site
        ≡ (member j (values running.site.server.sessions) || shut_at j running.site))
    × ((stop running).site.server.sessions ≡ [])
stop-shut_example = stop-shut running refl

broadcast_chat-heard_example :
    heard_by 10 (broadcast_chat al bo running).heard
    ≡ add_times
        (if waits (lookup 10 running.site.server.objects)
          then count_value 10 running.site.server.sessions
          else 0)
        (chat al bo)
        (heard_by 10 running.heard)
broadcast_chat-heard_example = broadcast_chat-heard al bo running 10

-- A json that is nothing but its action.
abbrev actions_only : Library
actions_only = record {
  Json = Bytes;
  action = given;
  success = al;
  find_service = λ request. returned tt;
}

route-register_route_example :
    route actions_only
      (register_route actions_only
        (login_action actions_only)
        (λ request. threw)
        (gateway_routes actions_only))
      (login_action actions_only)
    ≡ (if bytes_eq (login_action actions_only) (login_action actions_only)
        then returned (called actions_only threw)
        else route actions_only (gateway_routes actions_only) (login_action actions_only))
route-register_route_example =
    route-register_route actions_only (login_action actions_only) (login_action actions_only)
      (λ request. threw) (gateway_routes actions_only) (login_action actions_only) refl

-- The server is made; then a client comes from address 5, and the server stops.
abbrev deaf : Listening
deaf = record {
  machine = initial_machine [] sample_world (record {
    connections =
        1 ∷ 3 ∷ 7 ∷ 15 ∷ 31 ∷ 63 ∷ 127 ∷ 255 ∷ 511 ∷ 1023 ∷ 2047 ∷ 4095 ∷ 8191 ∷ 16383 ∷ 32767
        ∷ 65535 ∷ 131071 ∷ 262143 ∷ 524287 ∷ 1048575 ∷ [];
    in_use =
        false ∷ false ∷ false ∷ false ∷ false ∷ false ∷ false ∷ false ∷ false ∷ false ∷ false
        ∷ false ∷ false ∷ false ∷ false ∷ false ∷ false ∷ false ∷ false ∷ false ∷ [];
  });
  pending = 0;
}

abbrev with_client : Listening
with_client = record (start_up deaf) {
  machine = record (run deaf.machine) { site = with_session 30 5 (run deaf.machine).site };
}

one_accept : (start_up deaf).pending ≢ 0
unfolding start_up do_accept
one_accept e = absurd (omega arith)

thirty_is_new : lookup 30 (start_up deaf).machine.site.server.objects ≡ none
unfolding start_up do_accept run back_end_doc.Lifecycle.start_broadcast_timer
    back_end_doc.Lifecycle.start_session_timeout_check back_end_doc.Lifecycle.check_inactive
    back_end_doc.Lifecycle.schedule_broadcast lookup back_end_doc.Lifecycle.close_all
    back_end_doc.Server.check_inactive_sessions back_end_doc.Server.is_active
    back_end_doc.Server.Table.erase initial_machine
thirty_is_new = refl

listened : Listens deaf (shut_down with_client)
unfolding start_up do_accept accepted next_accept run back_end_doc.Lifecycle.start_broadcast_timer
    back_end_doc.Lifecycle.start_session_timeout_check back_end_doc.Lifecycle.check_inactive
    back_end_doc.Lifecycle.schedule_broadcast lookup initial_machine
listened =
    hears (hears begins (accepts (connection 30 5) with_client one_accept thirty_is_new refl))
      Accepting.stops

twenty_connections : create [] sample_world ≡ returned deaf
unfolding create made_machine back_end_doc.DbPool.create
twenty_connections = refl

create-Listens_example :
    IsConsistent (shut_down with_client).machine.site.world.db
    × Plays (lobby_of sample_world.db) (lobby_of (shut_down with_client).machine.site.world.db)
    × IsTimed (shut_down with_client).machine
    × ((shut_down with_client).pending ≤ 1)
    × ((if (shut_down with_client).machine.is_running then 1 else 0)
        ≤ (shut_down with_client).pending)
create-Listens_example =
    create-Listens [] sample_world deaf (shut_down with_client) sample_db-IsConsistent
      twenty_connections listened
