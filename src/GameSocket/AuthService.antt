-- ===== src/GameSocket/AuthService.antt =====
-- GameSocketServer/src/service/auth_service.cpp, and the dispatch of
-- GameSocketServer/src/controller/auth_controller.cpp. What these methods throw reaches the session.
-- `loginUser` reads keys of a constant json without a test; that a missing one is an exception is an
-- assumption, since the library leaves it undefined.
pub mod Leak
pub mod Consistency
use back_end_doc.Common.{
  ℕ, Bool, true, false, ◌||◌, Option, none, some, ltb, if◌then◌else◌, length, Outcome, returned,
  Bytes,
}
use back_end_doc.Db.{User, is_negative}
use back_end_doc.GameSocket.PasswordUtil.{hash_password, verify_password}
use back_end_doc.Request.{
  Request, Field, absent, ill_typed, given, get, ActionName, register, login,
}
use back_end_doc.World.{World, Action, return, throw, lift, ◌>>=◌}
use back_end_doc.GameSocket.{
  Response, error, registered, logged_in, bad_user_name, short_password, user_exists,
  create_user_failed, invalid_user_name, invalid_password, unknown_auth_action,
}
use back_end_doc.GameSocket.UserRepository.{find_by_username, create, update_last_login}

hashed : Bytes → Action Bytes
hashed password w = (returned (hash_password w.engine password), w)

verified : Bytes → Bytes → Action Bool
verified password hash w = (returned (verify_password w.engine password hash), w)

register_result : Bytes → ℕ → Action Response
register_result name id =
    if is_negative id then return (error create_user_failed) else return (registered id name)

register_new : Bytes → Bytes → Option User → Action Response
unfolding hashed register_result
register_new name password (some _) = return (error user_exists)
register_new name password none = do
  hash ← hashed password
  id ← create name hash
  register_result name id

register_password : Bytes → Field Bytes → Action Response
unfolding register_new
register_password name absent = return (error short_password)
register_password name ill_typed = throw
register_password name (given password) =
    if ltb (length password) 6
    then return (error short_password)
    else do user ← find_by_username name; register_new name password user

register_name : Field Bytes → Field Bytes → Action Response
unfolding register_password
register_name absent password = return (error bad_user_name)
register_name ill_typed password = throw
register_name (given name) password =
    if ltb (length name) 3 || ltb 20 (length name)
    then return (error bad_user_name)
    else register_password name password

unfoldable pub register_user : Request → Action Response
unfolding register_name
register_user r = register_name r.user_name r.password

welcome : User → Bool → Action Response
welcome u false = return (error invalid_password)
welcome u true = do _ ← update_last_login u.user_id; return (logged_in u)

login_found : Field Bytes → Option User → Action Response
unfolding verified welcome
login_found password none = return (error invalid_user_name)
login_found password (some u) = do
  text ← lift (get password)
  matches ← verified text u.password_hash
  welcome u matches

unfoldable pub login_user : Request → Action Response
unfolding login_found
login_user r = do
  name ← lift (get r.user_name)
  user ← find_by_username name
  login_found r.password user

-- `AuthController::handleRequest`
unfoldable pub handle_auth : ActionName → Request → Action Response
handle_auth register r = register_user r
handle_auth login r = login_user r
handle_auth _ r = return (error unknown_auth_action)
