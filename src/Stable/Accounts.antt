-- ===== src/Stable/Accounts.antt =====
-- What stays of the accounts, whatever the sessions do
-- (MatchingServer/src/repository/user_repository.cpp).
use back_end_doc.Common.{
  ℕ, ◌≡◌, refl, sym, subst, ◌∙◌, ap, Bool, Option, ◌==◌, Outcome, Bytes, Bool-cases, inl, inr,
}
use back_end_doc.Db.{Db, User}
use back_end_doc.Db.Query.{delete_user, count_in}
use back_end_doc.GameRepository.{GameResult}
use back_end_doc.RoomRepository.{RoomInfo}
use back_end_doc.GameRepository.Outcomes as Games
use back_end_doc.RoomRepository.Outcomes as Rooms
use back_end_doc.Session.{Site}
use back_end_doc.Session.Runs.{Reaches, Reaches-Kept}
use back_end_doc.Stable.{IsStable}
use back_end_doc.UserRepository.{logged_in_at, renamed}
use back_end_doc.UserRepository.Outcomes as Accounts
use back_end_doc.World.{Engine}
use back_end_doc.Stable.Persistence.{
  UniqueNames, Persists, IsMild, changed-Persists, inserted-Persists, same_users,
}

without_player-users : (r u : ℕ) (db : Db) → (Rooms.without_player r u db).users ≡ db.users
without_player-users r u db = elim (Bool-cases (count_in r (delete_user u db.room_users) == 0)) [
  | inl last ↦ rw last refl
  | inr more ↦ rw more refl
]

module _ {before : Db} where
  opened :
      {db after : Db} {host max now : ℕ} {name : Bytes} {o : Outcome (Option RoomInfo)}
      → Persists before db
      → Rooms.Created db host name max now o after
      → Persists before after
  opened p Rooms.raised = p
  opened p Rooms.refused = p
  opened p (Rooms.opened id r alone l hit t eo ea) = same_users p (ap (λ d. d.users) ea)

  joined :
      {db after : Db} {r u : ℕ} {o : Outcome Bool}
      → Persists before db
      → Rooms.Added db r u o after
      → Persists before after
  joined p Rooms.raised = p
  joined p Rooms.refused = p
  joined p (Rooms.joined row hit w new place eo ea) = same_users p (ap (λ d. d.users) ea)

  gone :
      {db after : Db} {u : ℕ} {o : Outcome Bool}
      → Persists before db
      → Rooms.Removed db u o after
      → Persists before after
  gone p Rooms.raised = p
  gone p Rooms.refused = p
  gone {db} {after} {u} p (Rooms.left r others e eo ea) =
      same_users p (ap (λ d. d.users) ea ∙ without_player-users r u db)

  started :
      {e : Engine} {db after : Db} {o : Outcome GameResult}
      → Persists before db
      → Games.Started e db o after
      → Persists before after
  started p Games.raised = p
  started p Games.refused = p
  started p (Games.started r m row hit eo ea) = same_users p (ap (λ d. d.users) ea)

  ended :
      {id : ℕ} {db after : Db} {o : Outcome GameResult}
      → Persists before db
      → Games.Ended id db o after
      → Persists before after
  ended p Games.raised = p
  ended p Games.refused = p
  ended p (Games.ended g hit eo ea) = same_users p (ap (λ d. d.users) ea)

  changed :
      {change : User → User} {id : ℕ} {db after : Db} {o : Outcome Bool}
      → IsMild change
      → Persists before db
      → Accounts.Changed id change db o after
      → Persists before after
  changed m p Accounts.raised = p
  changed m p Accounts.refused = p
  changed {change} {id} m p (Accounts.changed eo ea) =
      subst (Persists before) (sym ea) (changed-Persists change m id p)

logged_in_at-IsMild : (now : ℕ) → IsMild (logged_in_at now)
logged_in_at-IsMild now = record {
  same_id = λ u. refl;
  same_name = λ u. refl;
  same_hash = λ u. refl;
}

renamed-IsMild : (nick : Bytes) → IsMild (renamed nick)
renamed-IsMild nick = record { same_id = λ u. refl; same_name = λ u. refl; same_hash = λ u. refl }

Persists-IsStable : (before : Db) → IsStable (Persists before)
Persists-IsStable before = record {
  rooms_open = λ db after host max now name o p m h. opened p h;
  players_join = λ db after r u o p h. joined p h;
  players_leave = λ db after u o p h. gone p h;
  games_start = λ e db after o p h. started p h;
  games_end = λ id db after o p h. ended p h;
  accounts_open = λ e name hash now db after o p h. inserted-Persists p h;
  users_log_in = λ id now db after o p h. changed (logged_in_at-IsMild now) p h;
  users_rename = λ id nick db after o p h. changed (renamed-IsMild nick) p h;
}

-- From tables in which names are unique: whatever the sessions send and whichever statements throw, in
-- every order, names stay unique, and every account keeps its name and the hash of its password.
pub Reaches-Persists :
    (x y : Site) → Reaches x y → UniqueNames x.world.db.users → Persists x.world.db y.world.db
Reaches-Persists x y r h =
    Reaches-Kept (Persists-IsStable x.world.db) x y r
      (record { names = h; kept = λ id u e. (u, e, refl, refl) })
