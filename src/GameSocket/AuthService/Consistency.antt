-- ===== src/GameSocket/AuthService/Consistency.antt =====
-- Requests about accounts keep every stable property of the tables, the leaks of connections
-- notwithstanding (GameSocketServer/src/service/auth_service.cpp).
use back_end_doc.Common.{
  Bool, true, false, ◌||◌, Option, none, some, List, ltb, length, Bytes, returned,
}
use back_end_doc.Db.{Db, User, is_negative}
use back_end_doc.Db.Transaction.{query-Yields, pure-Yields, commit, Yields}
use back_end_doc.Request.{
  Field, absent, ill_typed, given, get, Request, ActionName, register, login,
}
use back_end_doc.Stable.{IsAccountStable, create-Keeps, update-Keeps}
use back_end_doc.World.Keeps.{Keeps, Keeps-return, Keeps-if, Keeps-bind-lift, Keeps-bind}
use back_end_doc.World.Leaky.{kept, settled, Ends, leaky_rule}
use back_end_doc.GameSocket.{
  error, registered, logged_in, bad_user_name, short_password, user_exists, create_user_failed,
  invalid_user_name, invalid_password, unknown_auth_action,
}
use back_end_doc.GameSocket.UserRepository.{
  user_called, found_or_kept, find_by_username, create, update_last_login,
}
use back_end_doc.GameSocket.AuthService.{
  hashed, verified, register_result, register_new, register_password, register_name, register_user,
  welcome, login_found, login_user, handle_auth,
}

module _ {P : Db → Type 0} (st : IsAccountStable P) where
  found_or_kept-Ends :
      (db : Db) (u : Option User)
      → P db
      → (fs : List Bool) → Yields (Ends (λ o after. P after) db) (found_or_kept u db fs)
  unfolding found_or_kept
  found_or_kept-Ends db none c fs = pure-Yields (Ends (λ o after. P after) db) (kept none) db fs c
  found_or_kept-Ends db (some u) c fs =
      pure-Yields (Ends (λ o after. P after) db) (settled (commit (returned (some u)))) db fs c

  find-Keeps : (name : Bytes) → Keeps P (find_by_username name)
  unfolding find_by_username
  find-Keeps name = record {
    after = λ w c.
        leaky_rule (λ o db. P db) none w _ c c
          λ fs.
            query-Yields (Ends (λ o db. P db) w.db) found_or_kept w.db
              (λ db. user_called name db.users) fs
              λ fs'. found_or_kept-Ends w.db (user_called name w.db.users) c fs';
  }

  register_new-Keeps :
      (name password : Bytes) (u : Option User) → Keeps P (register_new name password u)
  unfolding register_new hashed register_result create
  register_new-Keeps name password (some _) = Keeps-return P (error user_exists)
  register_new-Keeps name password none =
      Keeps-bind P (hashed password) _ (record { after = λ w c. c })
        λ hash.
          Keeps-bind P (create name hash) (register_result name) (create-Keeps st name hash) λ id.
            Keeps-if P (is_negative id) _ _ (λ _. Keeps-return P (error create_user_failed))
              λ _. Keeps-return P (registered id name)

  register_password-Keeps : (name : Bytes) (p : Field Bytes) → Keeps P (register_password name p)
  unfolding register_password
  register_password-Keeps name absent = Keeps-return P (error short_password)
  register_password-Keeps name ill_typed = record { after = λ w c. c }
  register_password-Keeps name (given password) =
      Keeps-if P (ltb (length password) 6) _ _ (λ _. Keeps-return P (error short_password))
        λ _.
          Keeps-bind P (find_by_username name) (register_new name password) (find-Keeps name)
            (register_new-Keeps name password)

  register_name-Keeps : (n p : Field Bytes) → Keeps P (register_name n p)
  unfolding register_name
  register_name-Keeps absent p = Keeps-return P (error bad_user_name)
  register_name-Keeps ill_typed p = record { after = λ w c. c }
  register_name-Keeps (given name) p =
      Keeps-if P (ltb (length name) 3 || ltb 20 (length name)) _ _
        (λ _. Keeps-return P (error bad_user_name)) λ _. register_password-Keeps name p

  welcome-Keeps : (u : User) (b : Bool) → Keeps P (welcome u b)
  unfolding welcome update_last_login
  welcome-Keeps u false = Keeps-return P (error invalid_password)
  welcome-Keeps u true =
      Keeps-bind P (update_last_login u.user_id) _ (update-Keeps st u.user_id)
        λ _. Keeps-return P (logged_in u)

  login_found-Keeps : (p : Field Bytes) (u : Option User) → Keeps P (login_found p u)
  unfolding login_found verified
  login_found-Keeps p none = Keeps-return P (error invalid_user_name)
  login_found-Keeps p (some u) = Keeps-bind-lift P (get p) _ λ text _.
      Keeps-bind P (verified text u.password_hash) (welcome u) (record { after = λ w c. c })
        (welcome-Keeps u)

  login_user-Keeps : (r : Request) → Keeps P (login_user r)
  unfolding login_user
  login_user-Keeps r = Keeps-bind-lift P (get r.user_name) _ λ name _.
      Keeps-bind P (find_by_username name) (login_found r.password) (find-Keeps name)
        (login_found-Keeps r.password)

  pub handle_auth-Keeps : (a : ActionName) (r : Request) → Keeps P (handle_auth a r)
  unfolding handle_auth register_user
  handle_auth-Keeps register r = register_name-Keeps r.user_name r.password
  handle_auth-Keeps login r = login_user-Keeps r
  handle_auth-Keeps _ r = Keeps-return P (error unknown_auth_action)
