-- ===== src/AuthService/SsafyLogin.antt =====
-- `registerCheckAndLogin` of MatchingServer/src/service/auth_service.cpp on an account that exists.
use back_end_doc.Common.{◌≡◌, refl, ap, ◌∙◌, true, some, returned, Bytes}
use back_end_doc.Db.{User, minus_one}
use back_end_doc.Db.Query.{has_user, update_user}
use back_end_doc.Request.{Request, given, contains}
use back_end_doc.Response.{logged_in}
use back_end_doc.UserRepository.{user_named, find_by_username, update_last_login, logged_in_at}
use back_end_doc.UserRepository.Healthy.{find_by_username-Runs, update_last_login-Runs}
use back_end_doc.World.{World, ◌>>=◌}
use back_end_doc.World.Healthy.{IsHealthy, Runs}
use back_end_doc.AuthService.{enter, enter_checked, register_check_and_login}
use back_end_doc.World.Binding.{split_run}

-- Where no statement throws and every connection can be made, a request of the action "SSAFYlogin"
-- with the name of an account and any password, or a value that is no text, logs the account in; of
-- the tables only the rows with the id -1 change, so the time of the last login stays.
pub register_check_and_login-any_password :
    (r : Request) (name : Bytes) (u : User) (w : World)
    → IsHealthy w
    → r.user_name ≡ given name
    → contains r.password ≡ true
    → user_named w.engine name w.db.users ≡ some u
    → ((register_check_and_login r w).0 ≡ returned (logged_in (some u)))
      × ((register_check_and_login r w).1.db
          ≡ record w.db { users = update_user minus_one (logged_in_at w.now) w.db.users })
unfolding register_check_and_login enter enter_checked ◌>>=◌
register_check_and_login-any_password r name u w h en ep known =
    rw
      (
        en,
        ep,
        split_run (find_by_username name w) (returned (some u)) (found.outcome ∙ ap returned known),
        split_run (find_by_username name w₁) (returned (some u))
            (again.outcome ∙ ap returned known₁),
        split_run (update_last_login minus_one w₂) _ touched.outcome,
      )
      (refl, touched.tables ∙ same_tables)
  where
    found : Runs w (returned (user_named w.engine name w.db.users)) w.db (find_by_username name w)
    found = find_by_username-Runs name w h

    w₁ : World
    w₁ = (find_by_username name w).1

    again :
        Runs w₁ (returned (user_named w₁.engine name w₁.db.users)) w₁.db (find_by_username name w₁)
    again = find_by_username-Runs name w₁ found.healthy

    known₁ : user_named w₁.engine name w₁.db.users ≡ some u
    known₁ = rw (found.engine, found.tables) known

    w₂ : World
    w₂ = (find_by_username name w₁).1

    touched :
        Runs w₂
          (returned (has_user minus_one w₂.db.users))
          (record w₂.db { users = update_user minus_one (logged_in_at w₂.now) w₂.db.users })
          (update_last_login minus_one w₂)
    touched = update_last_login-Runs minus_one w₂ again.healthy

    same_tables :
        record w₂.db { users = update_user minus_one (logged_in_at w₂.now) w₂.db.users }
        ≡ record w.db { users = update_user minus_one (logged_in_at w.now) w.db.users }
    same_tables = rw (again.tables, again.clock, found.tables, found.clock) refl
