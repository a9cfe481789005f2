-- ===== src/UserRepository/Healthy.antt =====
-- The methods on accounts where no statement throws.
use back_end_doc.Common.{
  ℕ, ◌≤◌, length, not, ltb, ◌&&◌, if◌then◌else◌, ◌≡◌, refl, ap, false, none, some, List, [], ◌∷◌,
  arith, returned, Bytes, bytes_eq, bytes_eq-eq, bytes_eq_refl, Bool-cases, inl, inr, Option-cases,
}
use back_end_doc.Db.{Db, User, minus_one}
use back_end_doc.Db.Query.{has_user, update_user}
use back_end_doc.Db.Transaction.{exec, query, pure, ◌>>=◌}
use back_end_doc.World.{World, Engine}
use back_end_doc.World.Healthy.{IsHealthy, Runs, commit-Runs, abort-Runs, fail-Runs}
use back_end_doc.UserRepository.{
  user_named, found_user, find_by_username, name_taken, new_user, insert_user, create, change_user,
  logged_in_at, renamed, characters, set_nick_name, update_user_nick_name, update_last_login,
}

pub find_by_username-Runs :
    (name : Bytes) (w : World)
    → IsHealthy w
    → Runs w (returned (user_named w.engine name w.db.users)) w.db (find_by_username name w)
unfolding find_by_username found_user query exec pure ◌>>=◌
find_by_username-Runs name w h = elim (Option-cases (user_named w.engine name w.db.users)) [
  | inl e ↦ rw e (abort-Runs none _ w h none w.db (rw (e, found_user)))
  | inr (u, e) ↦ rw e (commit-Runs none _ w h (returned (some u)) w.db (rw (e, found_user)))
]

-- A name that no account has in any spelling is free.
pub free_name :
    (e : Engine) (name : Bytes) (us : List User)
    → user_named e name us ≡ none
    → name_taken name us ≡ false
unfolding user_named name_taken
free_name e name [] h = refl
free_name e name (u ∷ us) h = elim (Bool-cases (bytes_eq u.user_name name)) [
  | inl same ↦ absurd (
      ground (
        arith,
        bytes_eq-eq u.user_name name same,
        ap e.lower (bytes_eq-eq u.user_name name same),
        bytes_eq_refl (e.lower name),
      ))
  | inr other ↦ ground (arith, free_name e name us)
]

pub characters_le : (bs : Bytes) → characters bs ≤ length bs
unfolding characters
characters_le [] = omega arith
characters_le (b ∷ bs) = ground (arith, characters_le bs)

pub create-Runs :
    (name hash : Bytes) (w : World)
    → IsHealthy w
    → name_taken name w.db.users ≡ false
    → ltb 50 (characters name) ≡ false
    → Runs w
        (returned (w.engine.next_user w.db.users))
        (record w.db { users = new_user w.engine name hash w.now w.db.users ∷ w.db.users })
        (create name hash w)
unfolding create insert_user exec pure ◌>>=◌
create-Runs name hash w h free fits = commit-Runs minus_one _ w h _ _ (rw (free, fits))

pub update_last_login-Runs :
    (id : ℕ) (w : World)
    → IsHealthy w
    → Runs w
        (returned (has_user id w.db.users))
        (record w.db { users = update_user id (logged_in_at w.now) w.db.users })
        (update_last_login id w)
unfolding update_last_login change_user exec pure ◌>>=◌
update_last_login-Runs id w h = commit-Runs false _ w h _ _ refl

-- The tables with a nickname that fits into its column.
abbrev pub with_nick_name : ℕ → Bytes → Db → Db
with_nick_name id nick db =
    if ltb 16 (characters nick)
    then db
    else record db { users = update_user id (renamed nick) db.users }

pub update_user_nick_name-Runs :
    (id : ℕ) (nick : Bytes) (w : World)
    → IsHealthy w
    → Runs w
        (returned (not (ltb 16 (characters nick)) && has_user id w.db.users))
        (with_nick_name id nick w.db)
        (update_user_nick_name id nick w)
unfolding update_user_nick_name set_nick_name change_user exec pure ◌>>=◌
update_user_nick_name-Runs id nick w h = elim (Bool-cases (ltb 16 (characters nick))) [
  | inl long ↦ rw long (fail-Runs false _ w h (rw long refl))
  | inr fits ↦ rw fits (commit-Runs false _ w h _ _ (rw fits refl))
]
