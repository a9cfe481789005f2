-- ===== src/Examples/Accounts.antt =====
-- Tests of the accounts.
use back_end_doc.Common.{◌≡◌, refl, true, some, none, [], ◌∷◌, arith, returned, bytes_eq, Bytes}
use back_end_doc.Db.{User, is_negative, minus_one}
use back_end_doc.Db.Query.{update_user}
use back_end_doc.Names.{is_valid_user_name}
use back_end_doc.Request.{Request, given, ill_typed}
use back_end_doc.Response.{registered, logged_in}
use back_end_doc.PasswordUtil.{hash_password, verify_password}
use back_end_doc.UserRepository.{
  user_named, new_user, logged_in_at, renamed, find_by_username, create, update_last_login,
  update_user_nick_name,
}
use back_end_doc.AuthService.{register_user, login_user, register_check_and_login}
use back_end_doc.AuthService.Soundness.{Admits, login_user-Admits}
use back_end_doc.AuthService.RoundTrip.{register_user-login_user}
use back_end_doc.AuthService.SsafyLogin.{register_check_and_login-any_password}
use back_end_doc.Examples.{
  al, bo, secret, sample_engine, sample_db, sample_user, sample_world, sample_world-IsHealthy,
  sample_request,
}

logs_al_in :
    (login_user sample_request sample_world).0 ≡ returned (logged_in (some (sample_user 1 al)))
unfolding login_user back_end_doc.World.◌>>=◌ back_end_doc.UserRepository.find_by_username
    back_end_doc.World.transact back_end_doc.DbPool.get_connection back_end_doc.Db.Transaction.◌>>=◌
    back_end_doc.Db.Transaction.query user_named bytes_eq back_end_doc.Db.Transaction.pure
    verify_password hash_password back_end_doc.UserRepository.update_last_login
    back_end_doc.DbPool.return_connection back_end_doc.UserRepository.change_user
logs_al_in = refl

login_user-Admits_example : Admits sample_request sample_world (some (sample_user 1 al))
login_user-Admits_example =
    login_user-Admits sample_request sample_world (some (sample_user 1 al)) logs_al_in

-- "cy" has no account.
abbrev cy : Bytes
cy = b'c' ∷ b'y' ∷ []

abbrev new_request : Request
new_request = record sample_request { user_name = given cy }

cy_is_valid : is_valid_user_name cy ≡ true
unfolding is_valid_user_name back_end_doc.Names.contains back_end_doc.Names.is_email
cy_is_valid = refl

cy_is_new : user_named sample_engine cy sample_db.users ≡ none
unfolding user_named bytes_eq
cy_is_new = refl

register_user-login_user_example :
    ((register_user new_request sample_world).0 ≡ returned (registered 12 cy))
    × ((login_user new_request (register_user new_request sample_world).1).0
        ≡ returned (
            logged_in (
              some (
                new_user sample_engine cy (hash_password sample_engine secret) 7 sample_db.users))))
register_user-login_user_example =
    register_user-login_user new_request cy secret sample_world sample_world-IsHealthy refl refl
      cy_is_valid (omega arith) cy_is_new refl

-- The name of user 3 with a password that is no text.
abbrev bo_request : Request
bo_request = record sample_request { user_name = given bo; password = ill_typed }

bo_is_known : user_named sample_engine bo sample_db.users ≡ some (sample_user 3 bo)
unfolding user_named bytes_eq
bo_is_known = refl

register_check_and_login-any_password_example :
    ((register_check_and_login bo_request sample_world).0
      ≡ returned (logged_in (some (sample_user 3 bo))))
    × ((register_check_and_login bo_request sample_world).1.db
        ≡ record sample_db { users = update_user minus_one (logged_in_at 7) sample_db.users })
register_check_and_login-any_password_example =
    register_check_and_login-any_password bo_request bo (sample_user 3 bo) sample_world
      sample_world-IsHealthy refl refl bo_is_known
