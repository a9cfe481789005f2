-- ===== src/UserRepository.antt =====
-- MatchingServer/src/repository/user_repository.cpp: the accounts. The columns that may be NULL are
-- taken to have values.
pub mod Outcomes
pub mod Healthy
use back_end_doc.Common.{
  ℕ, ◌+◌, leb, ltb, ◌&&◌, ◌||◌, Bool, true, false, Option, none, some, List, [], ◌∷◌, if◌then◌else◌,
  Outcome, returned, threw, Bytes, bytes_eq,
}
use back_end_doc.Db.{Db, User, minus_one}
use back_end_doc.Db.Query.{has_user, update_user}
use back_end_doc.Db.Transaction.{Txn, Verdict, commit, abort, exec, query, pure, ◌>>=◌}
use back_end_doc.World.{World, Engine, Action, transact}

-- WHERE LOWER(user_name) = LOWER($1); the code reads the first row.
unfoldable pub user_named : Engine → Bytes → List User → Option User
user_named e name [] = none
user_named e name (u ∷ us) =
    if bytes_eq (e.lower u.user_name) (e.lower name) then some u else user_named e name us

found_user : Option User → Txn (Verdict (Option User))
found_user none = pure (abort none)
found_user (some u) = pure (commit (returned (some u)))

-- "userId" -1 is `none` of an option.
unfoldable pub find_by_username : Bytes → Action (Option User)
unfolding found_user
find_by_username name w =
    transact none (do u ← query (λ db. user_named w.engine name db.users); found_user u) w

-- `user_name` is unique, as it is written.
unfoldable pub name_taken : Bytes → List User → Bool
name_taken name [] = false
name_taken name (u ∷ us) = if bytes_eq u.user_name name then true else name_taken name us

abbrev pub new_user : Engine → Bytes → Bytes → ℕ → List User → User
new_user e name hash now us = record {
  user_id = e.next_user us;
  user_name = name;
  password_hash = hash;
  nick_name = e.default_nick us;
  created_at = now;
  last_login = now;
}

-- The length of a UTF-8 text in characters: the bytes that do not continue one.
unfoldable pub characters : Bytes → ℕ
characters [] = 0
characters (b ∷ bs) = let rest = characters bs in if leb 128 b && ltb b 192 then rest else rest + 1

-- INSERT INTO users (user_name, password_hash) VALUES ($1, $2) RETURNING user_id. The name is a
-- VARCHAR(50), and a longer text makes the statement fail.
unfoldable pub insert_user : Engine → Bytes → Bytes → ℕ → Db → Option (ℕ × Db)
insert_user e name hash now db =
    if name_taken name db.users || ltb 50 (characters name)
    then none
    else some
        (e.next_user db.users, record db { users = new_user e name hash now db.users ∷ db.users })

unfoldable pub create : Bytes → Bytes → Action ℕ
create name hash w =
    transact minus_one
      (do id ← exec (insert_user w.engine name hash w.now); pure (commit (returned id))) w

-- UPDATE users SET ... WHERE user_id = $1 RETURNING user_id: was there such a row?
unfoldable pub change_user : ℕ → (User → User) → Db → Option (Bool × Db)
change_user id change db =
    some (has_user id db.users, record db { users = update_user id change db.users })

abbrev pub logged_in_at : ℕ → User → User
logged_in_at now u = record u { last_login = now }

abbrev pub renamed : Bytes → User → User
renamed nick u = record u { nick_name = nick }

unfoldable pub update_last_login : ℕ → Action Bool
update_last_login id w =
    transact false
      (do hit ← exec (change_user id (logged_in_at w.now)); pure (commit (returned hit))) w

-- UPDATE users SET nick_name = $2 WHERE user_id = $1 RETURNING user_id: the column is a VARCHAR(16), and
-- a longer text makes the statement fail. (Of spaces at the end PostgreSQL would drop what is too much;
-- no nickname that the service lets through has any.)
unfoldable pub set_nick_name : ℕ → Bytes → Db → Option (Bool × Db)
set_nick_name id nick db =
    if ltb 16 (characters nick) then none else change_user id (renamed nick) db

unfoldable pub update_user_nick_name : ℕ → Bytes → Action Bool
update_user_nick_name id nick =
    transact false (do hit ← exec (set_nick_name id nick); pure (commit (returned hit)))
