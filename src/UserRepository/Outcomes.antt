-- ===== src/UserRepository/Outcomes.antt =====
-- What the methods on accounts may do to the tables, and what they answer.
use back_end_doc.Common.{
  ℕ, ◌≡◌, refl, Bool, false, Option, none, some, List, ◌∷◌, arith, Outcome, returned, threw, Bytes,
}
use back_end_doc.Db.{Db, User, minus_one}
use back_end_doc.Db.Query.{has_user, update_user}
use back_end_doc.Db.Transaction.{
  Verdict, commit, abort, exec, pure, ◌>>=◌, Yields, query-Yields, exec-Yields, pure-Yields,
}
use back_end_doc.World.{World, Engine}
use back_end_doc.World.Frame.{Settles, transact_rule, transact_engine}
use back_end_doc.UserRepository.{
  user_named, found_user, find_by_username, name_taken, new_user, insert_user, create, change_user,
  logged_in_at, renamed, set_nick_name, update_last_login, update_user_nick_name,
}

-- `findByUsername` changes nothing, and answers with no account but the first of that name.
pub data Found (e : Engine) (name : Bytes) (before : Db) : Outcome (Option User) → Db → Type 0 where
  raised : Found e name before threw before
  missing : Found e name before (returned none) before
  found :
      {o : Outcome (Option User)} (u : User)
      → user_named e name before.users ≡ some u
      → o ≡ returned (some u)
      → Found e name before o before

module _ (e : Engine) (name : Bytes) (db : Db) where
  abbrev Finds : Verdict (Option User) → Db → Type 0
  Finds = Settles (Found e name db) db

  found_user-Found :
      (u : Option User) (fs : List Bool)
      → user_named e name db.users ≡ u
      → Yields Finds (found_user u db fs)
  unfolding found_user
  found_user-Found none fs h = pure-Yields Finds (abort none) db fs missing
  found_user-Found (some u) fs h =
      pure-Yields Finds (commit (returned (some u))) db fs (found u h refl)

-- Whatever statement throws, `findByUsername` leaves the tables alone and answers with no account
-- but the first of that name in any spelling.
pub find_by_username-Found :
    (name : Bytes) (w : World)
    → Found w.engine name w.db (find_by_username name w).0 (find_by_username name w).1.db
unfolding find_by_username
find_by_username-Found name w =
    transact_rule (Found w.engine name w.db) none w _ raised missing λ fs.
      query-Yields (Finds w.engine name w.db) found_user w.db
        (λ db. user_named w.engine name db.users) fs
        λ fs'. found_user-Found w.engine name w.db _ fs' refl

-- `create` changes nothing, or adds an account of a name that no account has.
pub data Inserted (e : Engine) (name hash : Bytes) (now : ℕ) (before : Db)
    : Outcome ℕ → Db → Type 0 where
  raised : Inserted e name hash now before threw before
  refused : Inserted e name hash now before (returned minus_one) before
  inserted :
      {o : Outcome ℕ} {after : Db}
      → name_taken name before.users ≡ false
      → o ≡ returned (e.next_user before.users)
      → after ≡ record before { users = new_user e name hash now before.users ∷ before.users }
      → Inserted e name hash now before o after

insert_user_split :
    (e : Engine) (name hash : Bytes) (now id : ℕ) (db db' : Db)
    → insert_user e name hash now db ≡ some (id, db')
    → (name_taken name db.users ≡ false)
      × (id ≡ e.next_user db.users)
      × (db' ≡ record db { users = new_user e name hash now db.users ∷ db.users })
unfolding insert_user
insert_user_split e name hash now id db db' h = (ground arith, ground arith, ground arith)

-- Whatever statement throws, `create` changes nothing, or adds an account, under the next id, for a
-- name that no account has in this spelling.
pub create-Inserted :
    (name hash : Bytes) (w : World)
    → Inserted w.engine name hash w.now w.db (create name hash w).0 (create name hash w).1.db
unfolding create
create-Inserted name hash w = transact_rule Q minus_one w _ raised refused λ fs.
    exec-Yields (Settles Q w.db) _ w.db (insert_user w.engine name hash w.now) fs λ id db' fs' h.
      let (free, ei, ed) = insert_user_split w.engine name hash w.now id w.db db' h in
      pure-Yields (Settles Q w.db) (commit (returned id)) db' fs' (inserted free (ground arith) ed)
  where
    Q : Outcome ℕ → Db → Type 0
    Q = Inserted w.engine name hash w.now w.db

-- The two updates change nothing, or one account; the answer is whether there is such an account.
pub data Changed (id : ℕ) (change : User → User) (before : Db) : Outcome Bool → Db → Type 0 where
  raised : Changed id change before threw before
  refused : Changed id change before (returned false) before
  changed :
      {o : Outcome Bool} {after : Db}
      → o ≡ returned (has_user id before.users)
      → after ≡ record before { users = update_user id change before.users }
      → Changed id change before o after

module _ (id : ℕ) (change : User → User) (db : Db) where
  change_user-Changed :
      (fs : List Bool)
      → Yields
          (Settles (Changed id change db) db)
          ((exec (change_user id change) >>= λ hit. pure (commit (returned hit))) db fs)
  unfolding change_user
  change_user-Changed fs =
      exec-Yields (Settles (Changed id change db) db) (λ hit. pure (commit (returned hit))) db
        (change_user id change) fs
        λ hit db' fs' h.
          pure-Yields (Settles (Changed id change db) db) (commit (returned hit)) db' fs'
            (changed (ground arith) (ground arith))

set_nick_name-Changed :
    (id : ℕ) (nick : Bytes) (db : Db) (fs : List Bool)
    → Yields
        (Settles (Changed id (renamed nick) db) db)
        ((exec (set_nick_name id nick) >>= λ hit. pure (commit (returned hit))) db fs)
unfolding set_nick_name change_user
set_nick_name-Changed id nick db fs =
    exec-Yields (Settles (Changed id (renamed nick) db) db) (λ hit. pure (commit (returned hit))) db
      (set_nick_name id nick) fs
      λ hit db' fs' h.
        pure-Yields (Settles (Changed id (renamed nick) db) db) (commit (returned hit)) db' fs'
          (changed (ground arith) (ground arith))

-- Whatever statement throws, `updateLastLogin` changes nothing, or sets the time of the last login of
-- the accounts with that id, and then answers whether there is one.
pub update_last_login-Changed :
    (id : ℕ) (w : World)
    → Changed id (logged_in_at w.now) w.db (update_last_login id w).0 (update_last_login id w).1.db
unfolding update_last_login
update_last_login-Changed id w =
    transact_rule (Changed id (logged_in_at w.now) w.db) false w _ raised refused
      (change_user-Changed id (logged_in_at w.now) w.db)

-- Whatever statement throws, `updateUserNickName` changes nothing, or sets the nickname of the
-- accounts with that id, and then answers whether there is one.
pub update_user_nick_name-Changed :
    (id : ℕ) (nick : Bytes) (w : World)
    → Changed id
        (renamed nick)
        w.db
        (update_user_nick_name id nick w).0
        (update_user_nick_name id nick w).1.db
unfolding update_user_nick_name
update_user_nick_name-Changed id nick w =
    transact_rule (Changed id (renamed nick) w.db) false w _ raised refused
      (set_nick_name-Changed id nick w.db)

pub find_by_username_engine :
    (name : Bytes) (w : World) → (find_by_username name w).1.engine ≡ w.engine
unfolding find_by_username
find_by_username_engine name w = transact_engine none _ w
