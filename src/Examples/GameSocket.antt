-- ===== src/Examples/GameSocket.antt =====
-- Tests of the game socket server.
use back_end_doc.Common.{some, bytes_eq, ◌≡◌, refl, none, [], ◌∷◌, ◌+◌, true, returned}
use back_end_doc.DbPool.Vectors.{busy}
use back_end_doc.Request.{Request, given, login, create_room}
use back_end_doc.RoomRepository.Consistent.{IsConsistent}
use back_end_doc.World.Healthy.{IsHealthy}
use back_end_doc.GameSocket.{logged_in, error, invalid_format, unknown_game_action}
use back_end_doc.GameSocket.UserRepository.{user_called}
use back_end_doc.GameSocket.AuthService.{login_user}
use back_end_doc.GameSocket.AuthService.Leak.{repeat_login, repeat_login-leaks}
use back_end_doc.GameSocket.Session.Runs.{read_message_keeps}
use back_end_doc.GameSocket.Session.{read_message, Site, process_request}
use back_end_doc.GameSocket.Session.Answers.{process_request-login}
use back_end_doc.Examples.{
  al, sample_user, sample_world, sample_request, sample_db-IsConsistent, sample_world-IsHealthy,
}

-- Nobody is called "q".
abbrev stranger : Request
stranger = record sample_request { user_name = given (b'q' ∷ []) }

nobody : user_called (b'q' ∷ []) sample_world.db.users ≡ none
unfolding user_called bytes_eq
nobody = refl

repeat_login-leaks_example :
    (busy (repeat_login stranger 3 sample_world).pool.in_use ≡ 3 + busy sample_world.pool.in_use)
    × IsHealthy (repeat_login stranger 3 sample_world)
repeat_login-leaks_example =
    repeat_login-leaks stranger (b'q' ∷ []) refl 3 sample_world sample_world-IsHealthy nobody

abbrev sample_site : Site
sample_site = record {
  user_id = 0;
  user_name = [];
  is_open = true;
  is_defined = true;
  world = sample_world;
  sent = [];
}

abbrev login_request : Request
login_request = record sample_request { action = given login }

al_logs_in : (login_user login_request sample_world).0 ≡ returned (logged_in (sample_user 1 al))
unfolding login_user back_end_doc.World.◌>>=◌
    back_end_doc.GameSocket.UserRepository.find_by_username back_end_doc.World.Leaky.transact_leaky
    back_end_doc.DbPool.get_connection back_end_doc.Db.Transaction.◌>>=◌
    back_end_doc.Db.Transaction.query back_end_doc.GameSocket.UserRepository.found_or_kept
    user_called back_end_doc.Db.Transaction.exec back_end_doc.Db.Transaction.pure
    back_end_doc.DbPool.return_connection back_end_doc.PasswordUtil.verify_password
    back_end_doc.PasswordUtil.hash_password back_end_doc.UserRepository.update_last_login
    back_end_doc.GameSocket.UserRepository.update_last_login back_end_doc.World.transact
    back_end_doc.Db.Query.update_user bytes_eq back_end_doc.UserRepository.change_user
    back_end_doc.GameSocket.PasswordUtil.verify_password
al_logs_in = refl

process_request-login_example :
    ((process_request login_request sample_site).user_id ≡ 1)
    × ((process_request login_request sample_site).world
        ≡ (login_user login_request sample_world).1)
    × ((process_request login_request sample_site).sent ≡ error invalid_format ∷ [])
process_request-login_example =
    process_request-login login_request (sample_user 1 al) sample_site refl al_logs_in

abbrev player : Site
player = record sample_site { user_id = 4 }

abbrev create_request : Request
create_request = record sample_request { action = given create_room }

read_message_keeps_example : IsConsistent (read_message (some create_request) player).world.db
read_message_keeps_example = read_message_keeps (some create_request) player sample_db-IsConsistent
