-- ===== src/AuthService/RoundTrip.antt =====
-- An account that is registered can log in (MatchingServer/src/service/auth_service.cpp).
use back_end_doc.Common.{
  ℕ, ◌≤◌, ◌≡◌, refl, ap, ◌∙◌, true, false, none, some, ◌∷◌, arith, ltb, length, returned, Bytes,
  bytes_eq_refl,
}
use back_end_doc.Db.{Db, User, is_negative}
use back_end_doc.Names.{is_valid_user_name}
use back_end_doc.PasswordUtil.{hash_password, verify_password}
use back_end_doc.Request.{Request, given}
use back_end_doc.Response.{registered, logged_in}
use back_end_doc.UserRepository.{user_named, new_user, find_by_username, create, update_last_login}
use back_end_doc.UserRepository.Healthy.{
  find_by_username-Runs, characters_le, create-Runs, update_last_login-Runs, free_name,
}
use back_end_doc.World.{World, Engine, ◌>>=◌}
use back_end_doc.World.Binding.{split_run}
use back_end_doc.World.Healthy.{IsHealthy, Runs}
use back_end_doc.AuthService.{
  hashed, verified, register_result, register_new, register_user, welcome, login_found, login_user,
}

-- The tables with a new account.
abbrev with_user : Engine → Bytes → Bytes → ℕ → Db → Db
with_user e name hash now db = record db { users = new_user e name hash now db.users ∷ db.users }

module _ (r : Request) (name password : Bytes) (w : World) (h : IsHealthy w)
    (en : r.user_name ≡ given name) (ep : r.password ≡ given password) where
  registers :
      is_valid_user_name name ≡ true
      → 6 ≤ length password
      → user_named w.engine name w.db.users ≡ none
      → is_negative (w.engine.next_user w.db.users) ≡ false
      → Runs w
          (returned (registered (w.engine.next_user w.db.users) name))
          (with_user w.engine name (hash_password w.engine password) w.now w.db)
          (register_user r w)
  unfolding register_user register_new hashed register_result ◌>>=◌
  registers ev long new fits =
      rw
        (
          en,
          ep,
          ev,
          long_enough,
          split_run (find_by_username name w) (returned none) (found.outcome ∙ ap returned new),
          split_run (create name hash w₁) _ made.outcome,
          same_id,
          fits,
          register_result,
        )
        (record {
          outcome = refl;
          tables = made.tables ∙ same_tables;
          healthy = made.healthy;
          engine = made.engine ∙ found.engine;
          clock = made.clock ∙ found.clock;
        })
    where
      -- A valid name has at most 30 bytes, so it fits into the column.
      short : length name ≤ 30
      short = unfold is_valid_user_name in ground (arith, ev)

      long_enough : ltb (length password) 6 ≡ false
      long_enough = ground arith

      found : Runs w (returned (user_named w.engine name w.db.users)) w.db (find_by_username name w)
      found = find_by_username-Runs name w h

      w₁ : World
      w₁ = (find_by_username name w).1

      hash : Bytes
      hash = hash_password w₁.engine password

      made :
          Runs w₁
            (returned (w₁.engine.next_user w₁.db.users))
            (record w₁.db { users = new_user w₁.engine name hash w₁.now w₁.db.users ∷ w₁.db.users })
            (create name hash w₁)
      made =
          create-Runs name hash w₁ found.healthy
            (rw found.tables (free_name w.engine name w.db.users new))
            (ground (arith, characters_le name, short))

      same_id :
          (find_by_username name w).1.engine.next_user (find_by_username name w).1.db.users
          ≡ w.engine.next_user w.db.users
      same_id = cc (found.engine, found.tables)

      same_tables :
          record w₁.db { users = new_user w₁.engine name hash w₁.now w₁.db.users ∷ w₁.db.users }
          ≡ with_user w.engine name (hash_password w.engine password) w.now w.db
      same_tables = rw (found.engine, found.tables, found.clock) refl

  logs_in :
      (u : User)
      → user_named w.engine name w.db.users ≡ some u
      → u.password_hash ≡ hash_password w.engine password
      → (login_user r w).0 ≡ returned (logged_in (some u))
  unfolding login_user login_found verified welcome ◌>>=◌
  logs_in u known same = rw (
    en,
    ep,
    split_run (find_by_username name w) (returned (some u)) (found.outcome ∙ ap returned known),
    matches,
    split_run (update_last_login u.user_id (find_by_username name w).1) _
        (update_last_login-Runs u.user_id (find_by_username name w).1 found.healthy).outcome,
  )
    where
      found : Runs w (returned (user_named w.engine name w.db.users)) w.db (find_by_username name w)
      found = find_by_username-Runs name w h

      matches : verify_password (find_by_username name w).1.engine password u.password_hash ≡ true
      matches = unfold verify_password in rw (found.engine, same) (bytes_eq_refl _)

-- Where no statement throws and every connection can be made, an account with a valid name that no
-- account has, in any spelling, and a password of at least six bytes is registered under the next id,
-- if that is not negative, and the same request then logs it in.
pub register_user-login_user :
    (r : Request) (name password : Bytes) (w : World)
    → IsHealthy w
    → r.user_name ≡ given name
    → r.password ≡ given password
    → is_valid_user_name name ≡ true
    → 6 ≤ length password
    → user_named w.engine name w.db.users ≡ none
    → is_negative (w.engine.next_user w.db.users) ≡ false
    → ((register_user r w).0 ≡ returned (registered (w.engine.next_user w.db.users) name))
      × ((login_user r (register_user r w).1).0
          ≡ returned (
              logged_in
                (some (new_user w.engine name (hash_password w.engine password) w.now w.db.users))))
unfolding user_named hash_password
register_user-login_user r name password w h en ep ev long new fits = (
  run.outcome,
  logs_in r name password (register_user r w).1 run.healthy en ep
      (new_user w.engine name (hash_password w.engine password) w.now w.db.users) known
      (rw run.engine refl),
)
  where
    run :
        Runs w
          (returned (registered (w.engine.next_user w.db.users) name))
          (with_user w.engine name (hash_password w.engine password) w.now w.db)
          (register_user r w)
    run = registers r name password w h en ep ev long new fits

    known :
        user_named (register_user r w).1.engine name (register_user r w).1.db.users
        ≡ some (new_user w.engine name (hash_password w.engine password) w.now w.db.users)
    known = rw (run.tables, user_named, bytes_eq_refl) refl
