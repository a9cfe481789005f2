-- ===== src/Examples/Messages.antt =====
-- Tests of what sessions do with messages.
use back_end_doc.Common.{◌+◌, ◌≤◌, ◌≡◌, ◌≢◌, refl, true, false, some, none, [], ◌∷◌, arith, member}
use back_end_doc.Request.{to_int, Request, absent, given, join_room, update_nick_name}
use back_end_doc.Response.{error, ip_in_use}
use back_end_doc.RoomRepository.Consistent.{IsConsistent}
use back_end_doc.Server.{Session, unset}
use back_end_doc.Server.Table.{lookup}
use back_end_doc.Session.{Site, reply, connected, destroy}
use back_end_doc.Stable.Others.{nick_of}
use back_end_doc.Session.Own.{process_request-own_user}
use back_end_doc.Session.Handshake.{Handshake, read_handshake}
use back_end_doc.Session.Refused.{read_handshake-refused}
use back_end_doc.Session.Answering.{Answers, read_message-Answers}
use back_end_doc.Session.Sockets.{
  Sockets, begin_session, hail_done, Runs, starts, turns, begins, hail_ends,
}
use back_end_doc.Session.Pending.{pending, told_extra, Runs-pending}
use back_end_doc.Session.Requests.{process_request, read_message}
use back_end_doc.Session.Runs.{Reaches, stays, goes_on, reads, turns, Reaches-IsConsistent}
use back_end_doc.Examples.{
  bo, sample_user, al, sample_db, sample_world, sample_request, sample_db-IsConsistent,
  sample_world-IsHealthy,
}
use back_end_doc.Db.Query.{update_user, rooms_of}
use back_end_doc.Names.{is_valid_nick_name, all_bytes}
use back_end_doc.Server.Login.{OneToken}
use back_end_doc.Session.Tokens.Runs.{Reaches-OneToken}
use back_end_doc.Session.Rename.{process_request-renames}
use back_end_doc.UserRepository.{renamed, characters, name_taken}
use back_end_doc.Common.{bytes_eq}
use back_end_doc.Stable.Persistence.{UniqueNames, Persists}
use back_end_doc.Stable.Accounts.{Reaches-Persists}
use back_end_doc.Examples.Sessions.{sample_server, sample_session, sample_server-OneToken}

abbrev pub sample_site : Site
sample_site = record { is_defined = true; server = sample_server; world = sample_world; sent = [] }

-- A session that is not logged in, from the address of session 10.
abbrev pub guest : Session
guest = record sample_session { user_id = 0; status = unset; token = none }

abbrev join_request : Request
join_request = record sample_request { action = given join_room }

is_user : sample_session.user_id ≢ 0
is_user e = absurd (omega arith)

three_is_other : 3 ≢ to_int sample_session.user_id
three_is_other e = absurd (omega arith)

process_request-own_user_example :
    (process_request 200 10 sample_session join_request sample_site
      ≡ process_request 200 10 sample_session
          (record join_request { user_id = given 3 })
          sample_site)
    × (rooms_of 3
          (process_request 200 10 sample_session join_request sample_site).1.world.db.room_users
        ≡ rooms_of 3 sample_db.room_users)
    × (nick_of 3 (process_request 200 10 sample_session join_request sample_site).1.world.db.users
        ≡ some (sample_user 3 bo).nick_name)
process_request-own_user_example =
    process_request-own_user 200 10 3 (sample_user 3 bo).nick_name sample_session join_request
      sample_site (given 3) is_user three_is_other refl

-- Session 10 asks to join room 1, and then a room is asked for while a statement throws.
abbrev after_join : Site
after_join = read_message 200 10 sample_session (some join_request) sample_site

abbrev after_fault : Site
after_fault = record after_join {
  world = record after_join.world { now = 8; faults = false ∷ true ∷ [] };
}

runs : Reaches sample_site after_fault
unfolding lookup
runs =
    goes_on (goes_on stays (reads 200 10 sample_session (some join_request) refl))
      (turns 8 (false ∷ true ∷ []))

Reaches-IsConsistent_example : IsConsistent after_fault.world.db
Reaches-IsConsistent_example =
    Reaches-IsConsistent sample_site after_fault runs sample_db-IsConsistent

abbrev hello : Handshake
hello = record {
  is_mirror_type = false;
  port = absent;
  version = given [];
  request = record sample_request { action = absent };
}

address_in_use : member 9 (9 ∷ []) ≡ true
unfolding member
address_in_use = refl

read_handshake-refused_example :
    let y = read_handshake 200 201 12 guest (some hello) sample_site in
    (y.sent ≡ (12, connected) ∷ (12, reply (error ip_in_use)) ∷ [])
    × (lookup 200 y.server.sessions ≡ some 12)
    × (member 9 (destroy 12 guest y).server.connected_ips ≡ false)
read_handshake-refused_example =
    read_handshake-refused 200 201 12 guest guest hello sample_site refl refl address_in_use refl
      refl refl

-- User 3 is renamed by a session that is not logged in.
abbrev rename_request : Request
rename_request = record sample_request {
  action = given update_nick_name;
  user_id = given 3;
  nick_name = given al;
}

al_is_valid : is_valid_nick_name al ≡ true
unfolding is_valid_nick_name all_bytes
al_is_valid = refl

process_request-renames_example :
    (process_request 200 12 guest rename_request sample_site).1.world.db
    ≡ record sample_db { users = update_user 3 (renamed al) sample_db.users }
unfolding characters
process_request-renames_example =
    process_request-renames 200 12 3 al guest rename_request sample_site sample_world-IsHealthy refl
      refl refl refl al_is_valid

names_are_unique : UniqueNames sample_db.users
unfolding name_taken bytes_eq
names_are_unique = (refl, (refl, (refl, tt)))

Reaches-Persists_example : Persists sample_db after_fault.world.db
Reaches-Persists_example = Reaches-Persists sample_site after_fault runs names_are_unique

Reaches-OneToken_example : OneToken after_fault.server
Reaches-OneToken_example = Reaches-OneToken sample_site after_fault runs sample_server-OneToken

read_message-Answers_example :
    Answers 10
      (some join_request)
      []
      (read_message 200 10 sample_session (some join_request) sample_site)
read_message-Answers_example =
    read_message-Answers 200 10 sample_session (some join_request) sample_site

-- A client comes from an address that is in use. It gives the server's version, and no action.
abbrev silent_sockets : Sockets
silent_sockets = record {
  site = sample_site;
  log = [];
  begun = λ k. 0;
  hails = λ k. 0;
  reads = λ k. 0;
  writes = λ k. 0;
}

abbrev begun_sockets : Sockets
begun_sockets = begin_session 12 guest silent_sockets

abbrev greeted_sockets : Sockets
greeted_sockets = hail_done 200 201 12 guest (some hello) begun_sockets

one_hails : begun_sockets.hails 12 ≢ 0
unfolding begin_session
one_hails e = absurd (omega arith)

twelve_is_new : lookup 12 silent_sockets.site.server.objects ≡ none
unfolding lookup
twelve_is_new = refl

session_twelve : lookup 12 begun_sockets.site.server.objects ≡ some guest
unfolding lookup begin_session back_end_doc.Server.Table.insert
session_twelve = refl

socket_run : Runs silent_sockets greeted_sockets
socket_run =
    turns (turns starts (begins 12 guest twelve_is_new))
      (hail_ends 200 201 12 guest (some hello) one_hails session_twelve)

Runs-pending_example :
    pending 12 greeted_sockets + (silent_sockets.begun 12 + told_extra 12 silent_sockets.log)
    ≤ pending 12 silent_sockets + (greeted_sockets.begun 12 + told_extra 12 greeted_sockets.log)
Runs-pending_example = Runs-pending 12 silent_sockets greeted_sockets socket_run
