-- ===== src/AuthService.antt =====
-- MatchingServer/src/service/auth_service.cpp, and the dispatch of
-- MatchingServer/src/controller/auth_controller.cpp. What these methods throw reaches the session.
pub mod Soundness
pub mod Consistency
pub mod RoundTrip
pub mod SsafyLogin
pub mod Renaming
use back_end_doc.Common.{
  ℕ, ◌≡◌, Bool, true, false, not, ◌&&◌, ◌||◌, Option, none, some, List, ltb, if◌then◌else◌, length,
  Outcome, returned, threw, Bytes,
}
use back_end_doc.Db.{User, minus_one, is_negative}
use back_end_doc.Names.{is_valid_user_name, is_valid_nick_name}
use back_end_doc.PasswordUtil.{hash_password, verify_password}
use back_end_doc.Request.{
  Request, Field, contains, get, get_int, ActionName, register, login, ssafy_login,
  update_nick_name,
}
use back_end_doc.Response.{
  Response, error, registered, logged_in, nick_name_updated, missing_fields, bad_user_name,
  short_password, user_exists, register_failed, no_such_user, wrong_password, create_user_failed,
  bad_nick_name, nick_name_failed, unknown_auth_action,
}
use back_end_doc.UserRepository.{find_by_username, create, update_last_login, update_user_nick_name}
use back_end_doc.World.{World, Action, return, throw, lift, ◌>>=◌}

-- `PasswordUtil` in a method.
hashed : Bytes → Action Bytes
hashed password w = (returned (hash_password w.engine password), w)

verified : Bytes → Bytes → Action Bool
verified password hash w = (returned (verify_password w.engine password hash), w)

register_result : Bytes → ℕ → Action Response
register_result name id =
    if is_negative id then return (error register_failed) else return (registered id name)

register_new : Bytes → Bytes → Option User → Action Response
unfolding hashed register_result
register_new name password (some _) = return (error user_exists)
register_new name password none = do
  hash ← hashed password
  id ← create name hash
  register_result name id

unfoldable pub register_user : Request → Action Response
unfolding register_new
register_user r =
    if not (contains r.user_name) || not (contains r.password)
    then return (error missing_fields)
    else do
      name ← lift (get r.user_name)
      if not (is_valid_user_name name) then return (error bad_user_name) else do
        password ← lift (get r.password)
        if ltb (length password) 6
            then return (error short_password)
            else do user ← find_by_username name; register_new name password user

welcome : User → Bool → Action Response
welcome u false = return (error wrong_password)
welcome u true = do _ ← update_last_login u.user_id; return (logged_in (some u))

login_found : Field Bytes → Option User → Action Response
unfolding verified welcome
login_found password none = return (error no_such_user)
login_found password (some u) = do
  text ← lift (get password)
  matches ← verified text u.password_hash
  welcome u matches

unfoldable pub login_user : Request → Action Response
unfolding login_found
login_user r =
    if not (contains r.user_name) || not (contains r.password)
    then return (error missing_fields)
    else do name ← lift (get r.user_name); user ← find_by_username name; login_found r.password user

-- The account is read again; `id` is still -1 where it existed before.
enter : Bytes → ℕ → Action Response
enter name id = do user ← find_by_username name; _ ← update_last_login id; return (logged_in user)

enter_new : Bytes → ℕ → Action Response
unfolding enter
enter_new name id = if is_negative id then return (error create_user_failed) else enter name id

enter_checked : Bytes → Field Bytes → Option User → Action Response
unfolding hashed enter enter_new
enter_checked name password (some _) = enter name minus_one
enter_checked name password none = do
  text ← lift (get password)
  hash ← hashed text
  id ← create name hash
  enter_new name id

unfoldable pub register_check_and_login : Request → Action Response
unfolding enter_checked
register_check_and_login r =
    if not (contains r.user_name) || not (contains r.password)
    then return (error missing_fields)
    else do
      name ← lift (get r.user_name)
      user ← find_by_username name
      enter_checked name r.password user

nick_name_result : Bytes → Bool → Action Response
nick_name_result nick true = return (nick_name_updated nick)
nick_name_result nick false = return (error nick_name_failed)

unfoldable pub update_nick_name_of : Request → Action Response
unfolding nick_name_result
update_nick_name_of r =
    if not (contains r.user_id) || not (contains r.nick_name)
    then return (error missing_fields)
    else do
      nick ← lift (get r.nick_name)
      if not (is_valid_nick_name nick) then return (error bad_nick_name) else do
        id ← lift (get_int r.user_id)
        done ← update_user_nick_name id nick
        nick_name_result nick done

-- `AuthController::handleRequest`
unfoldable pub handle_auth : ActionName → Request → Action Response
handle_auth register r = register_user r
handle_auth login r = login_user r
handle_auth ssafy_login r = register_check_and_login r
handle_auth update_nick_name r = update_nick_name_of r
handle_auth _ r = return (error unknown_auth_action)
