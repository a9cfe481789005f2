-- ===== src/AuthService/Consistency.antt =====
-- Requests about accounts keep the tables of rooms consistent
-- (MatchingServer/src/service/auth_service.cpp).
use back_end_doc.Common.{
  ◌≡◌, returned, ℕ, Bool, true, false, not, ◌||◌, Option, none, some, ltb, length, Bytes,
}
use back_end_doc.Db.{Db, User, is_negative, minus_one}
use back_end_doc.Names.{is_valid_user_name, is_valid_nick_name}
use back_end_doc.Request.{
  Field, Request, contains, get, get_int, ActionName, register, login, ssafy_login,
  update_nick_name,
}
use back_end_doc.Response.{
  error, registered, logged_in, nick_name_updated, missing_fields, bad_user_name, short_password,
  user_exists, register_failed, no_such_user, wrong_password, create_user_failed, bad_nick_name,
  nick_name_failed, unknown_auth_action,
}
use back_end_doc.UserRepository.{find_by_username, create, update_last_login, update_user_nick_name}
use back_end_doc.World.Keeps.{Keeps, Keeps-return, Keeps-if, Keeps-bind-lift, Keeps-bind}
use back_end_doc.AuthService.{
  hashed, verified, register_result, register_new, register_user, welcome, login_found, login_user,
  enter, enter_new, enter_checked, register_check_and_login, nick_name_result, update_nick_name_of,
  handle_auth,
}
use back_end_doc.Stable.{IsAccountStable, create-Keeps, update-Keeps, find-Keeps}
use back_end_doc.Db.{Db}

module _ {P : Db → Type 0} (st : IsAccountStable P) where
  register_new-Keeps :
      (name password : Bytes) (u : Option User) → Keeps P (register_new name password u)
  unfolding register_new hashed register_result
  register_new-Keeps name password (some _) = Keeps-return P (error user_exists)
  register_new-Keeps name password none =
      Keeps-bind P (hashed password) _ (record { after = λ w c. c })
        λ hash.
          Keeps-bind P (create name hash) (register_result name) (create-Keeps st name hash) λ id.
            Keeps-if P (is_negative id) _ _ (λ _. Keeps-return P (error register_failed))
              λ _. Keeps-return P (registered id name)

  register_user-Keeps : (r : Request) → Keeps P (register_user r)
  unfolding register_user
  register_user-Keeps r =
      Keeps-if P (not (contains r.user_name) || not (contains r.password)) _ _
        (λ _. Keeps-return P (error missing_fields))
        λ _. Keeps-bind-lift P (get r.user_name) _ λ name _.
          Keeps-if P (not (is_valid_user_name name)) _ _ (λ _. Keeps-return P (error bad_user_name))
            λ _. Keeps-bind-lift P (get r.password) _ λ password _.
              Keeps-if P (ltb (length password) 6) _ _ (λ _. Keeps-return P (error short_password))
                λ _.
                  Keeps-bind P (find_by_username name) (register_new name password)
                    (find-Keeps P name) (register_new-Keeps name password)

  welcome-Keeps : (u : User) (b : Bool) → Keeps P (welcome u b)
  unfolding welcome
  welcome-Keeps u false = Keeps-return P (error wrong_password)
  welcome-Keeps u true =
      Keeps-bind P (update_last_login u.user_id) _ (update-Keeps st u.user_id)
        λ _. Keeps-return P (logged_in (some u))

  login_found-Keeps : (p : Field Bytes) (u : Option User) → Keeps P (login_found p u)
  unfolding login_found verified
  login_found-Keeps p none = Keeps-return P (error no_such_user)
  login_found-Keeps p (some u) = Keeps-bind-lift P (get p) _ λ text _.
      Keeps-bind P (verified text u.password_hash) (welcome u) (record { after = λ w c. c })
        (welcome-Keeps u)

  login_user-Keeps : (r : Request) → Keeps P (login_user r)
  unfolding login_user
  login_user-Keeps r =
      Keeps-if P (not (contains r.user_name) || not (contains r.password)) _ _
        (λ _. Keeps-return P (error missing_fields))
        λ _. Keeps-bind-lift P (get r.user_name) _ λ name _.
          Keeps-bind P (find_by_username name) (login_found r.password) (find-Keeps P name)
            (login_found-Keeps r.password)

  enter-Keeps : (name : Bytes) (id : ℕ) → Keeps P (enter name id)
  unfolding enter
  enter-Keeps name id = Keeps-bind P (find_by_username name) _ (find-Keeps P name) λ u.
      Keeps-bind P (update_last_login id) _ (update-Keeps st id) λ _. Keeps-return P (logged_in u)

  enter_checked-Keeps :
      (name : Bytes) (p : Field Bytes) (u : Option User) → Keeps P (enter_checked name p u)
  unfolding enter_checked hashed enter_new
  enter_checked-Keeps name p (some _) = enter-Keeps name minus_one
  enter_checked-Keeps name p none = Keeps-bind-lift P (get p) _ λ text _.
      Keeps-bind P (hashed text) _ (record { after = λ w c. c })
        λ hash. Keeps-bind P (create name hash) (enter_new name) (create-Keeps st name hash) λ id.
          Keeps-if P (is_negative id) _ _ (λ _. Keeps-return P (error create_user_failed))
            λ _. enter-Keeps name id

  ssafy-Keeps : (r : Request) → Keeps P (register_check_and_login r)
  unfolding register_check_and_login
  ssafy-Keeps r =
      Keeps-if P (not (contains r.user_name) || not (contains r.password)) _ _
        (λ _. Keeps-return P (error missing_fields))
        λ _. Keeps-bind-lift P (get r.user_name) _ λ name _.
          Keeps-bind P (find_by_username name) (enter_checked name r.password) (find-Keeps P name)
            (enter_checked-Keeps name r.password)

  nick_name_result-Keeps : (nick : Bytes) (b : Bool) → Keeps P (nick_name_result nick b)
  unfolding nick_name_result
  nick_name_result-Keeps nick true = Keeps-return P (nick_name_updated nick)
  nick_name_result-Keeps nick false = Keeps-return P (error nick_name_failed)

  -- A request changes the nickname of no account but that of its own user.
  abbrev pub Renames : Request → Type 0
  Renames r =
      (id : ℕ) (nick : Bytes)
      → get_int r.user_id ≡ returned id
      → Keeps P (update_user_nick_name id nick)

  update_nick_name_of-Keeps : (r : Request) → Renames r → Keeps P (update_nick_name_of r)
  unfolding update_nick_name_of
  update_nick_name_of-Keeps r own =
      Keeps-if P (not (contains r.user_id) || not (contains r.nick_name)) _ _
        (λ _. Keeps-return P (error missing_fields))
        λ _. Keeps-bind-lift P (get r.nick_name) _ λ nick _.
          Keeps-if P (not (is_valid_nick_name nick)) _ _ (λ _. Keeps-return P (error bad_nick_name))
            λ _. Keeps-bind-lift P (get_int r.user_id) _ λ id ei.
              Keeps-bind P (update_user_nick_name id nick) (nick_name_result nick) (own id nick ei)
                (nick_name_result-Keeps nick)

  pub handle_auth-Keeps : (a : ActionName) (r : Request) → Renames r → Keeps P (handle_auth a r)
  unfolding handle_auth
  handle_auth-Keeps register r own = register_user-Keeps r
  handle_auth-Keeps login r own = login_user-Keeps r
  handle_auth-Keeps ssafy_login r own = ssafy-Keeps r
  handle_auth-Keeps update_nick_name r own = update_nick_name_of-Keeps r own
  handle_auth-Keeps _ r own = Keeps-return P (error unknown_auth_action)
