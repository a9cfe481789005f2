-- ===== src/Lobby/Refinement.antt =====
-- The matching server refines the lobby: every change of the tables is a move of the lobby or rests.
use back_end_doc.Common.{ℕ, ◌≤◌, ◌≡◌, sym, subst, ◌∙◌, ap, Bool, Option, some, Outcome, Bytes}
use back_end_doc.Db.{Db}
use back_end_doc.Db.Query.{count_in}
use back_end_doc.GameRepository.{GameResult}
use back_end_doc.GameRepository.Outcomes as Games
use back_end_doc.RoomRepository.{RoomInfo}
use back_end_doc.RoomRepository.Consistent.{IsConsistent}
use back_end_doc.RoomRepository.Outcomes as Rooms
use back_end_doc.Session.{Site}
use back_end_doc.Session.Runs.{Reaches, Reaches-Kept}
use back_end_doc.Stable.{IsStable}
use back_end_doc.Stable.Consistent.{consistent}
use back_end_doc.UserRepository.{logged_in_at, renamed}
use back_end_doc.UserRepository.Outcomes as Accounts
use back_end_doc.World.{Engine}
use back_end_doc.Lobby.{
  free, Lobby, MayPlay, Moves, opens, joins, leaves, plays, Plays, rests, moves, by_status,
  stage_of, lobby_of,
}
use back_end_doc.Lobby.Views.{
  nowhere, somewhere, opened_lobby, joined_lobby, waiting_stage, left_lobby, may_play,
  playing_lobby,
}

-- The tables are consistent and follow the lobby's moves.
pub record Follows (a : Lobby) (db : Db) : Type 0 where
  pub consistency : IsConsistent db
  pub played : Plays a (lobby_of db)

module _ {a : Lobby} {db after : Db} (f : Follows a db) where
  follow : IsConsistent after → Moves (lobby_of db) (lobby_of after) → Follows a after
  follow c m = record { consistency = c; played = moves f.played m }

  -- A change of the accounts or the games.
  same_rooms : IsConsistent after → lobby_of after ≡ lobby_of db → Follows a after
  same_rooms c e = record { consistency = c; played = subst (Plays a) (sym e) f.played }

rooms_open :
    {a : Lobby} {db after : Db} {host max now : ℕ} {name : Bytes} {o : Outcome (Option RoomInfo)}
    → Follows a db
    → 1 ≤ max
    → Rooms.Created db host name max now o after
    → Follows a after
rooms_open f m Rooms.raised = f
rooms_open f m Rooms.refused = f
rooms_open {a} {db} {after} {host} {max} {now} {name} f m (Rooms.opened id r alone l hit t eo ea) =
    follow f
      (consistent.rooms_open db after host max now name _ f.consistency m
        (Rooms.opened id r alone l hit t eo ea))
      (subst (Moves (lobby_of db))
        (sym (ap lobby_of ea ∙ opened_lobby db id host max now name r f.consistency hit t))
        (opens id host max m (ap stage_of hit ∙ freed) (λ j. nowhere host j db.room_users alone)))
  where
    freed : stage_of (some r) ≡ free
    freed = ap (λ s. by_status s r.max_players) t

players_join :
    {a : Lobby} {db after : Db} {r u : ℕ} {o : Outcome Bool}
    → Follows a db
    → Rooms.Added db r u o after
    → Follows a after
unfolding count_in
players_join f Rooms.raised = f
players_join f Rooms.refused = f
players_join {a} {db} {after} {r} {u} f (Rooms.joined row hit w new place eo ea) =
    follow f
      (consistent.players_join db after r u _ f.consistency
        (Rooms.joined row hit w new place eo ea))
      (subst (Moves (lobby_of db)) (sym (ap lobby_of ea ∙ joined_lobby db r u))
        (joins r u row.max_players (ap stage_of hit ∙ waiting_stage row w) place new))

players_leave :
    {a : Lobby} {db after : Db} {u : ℕ} {o : Outcome Bool}
    → Follows a db
    → Rooms.Removed db u o after
    → Follows a after
players_leave f Rooms.raised = f
players_leave f Rooms.refused = f
players_leave {a} {db} {after} {u} f (Rooms.left r others e eo ea) =
    follow f (consistent.players_leave db after u _ f.consistency (Rooms.left r others e eo ea)) (
      subst (Moves (lobby_of db)) (sym (ap lobby_of ea ∙ left_lobby db r u))
        (leaves r u (somewhere u r others db.room_users e)))

games_start :
    {a : Lobby} {e : Engine} {db after : Db} {o : Outcome GameResult}
    → Follows a db
    → Games.Started e db o after
    → Follows a after
games_start f Games.raised = f
games_start f Games.refused = f
games_start {a} {e} {db} {after} f (Games.started r m row hit eo ea) =
    follow f (consistent.games_start e db after _ f.consistency (Games.started r m row hit eo ea)) (
      subst (Moves (lobby_of db)) (sym (ap lobby_of ea ∙ playing_lobby e r m db row hit)) (
        plays r row.max_players
          (subst (λ s. MayPlay s row.max_players) (sym (ap stage_of hit)) (may_play row))))

games_end :
    {a : Lobby} {id : ℕ} {db after : Db} {o : Outcome GameResult}
    → Follows a db
    → Games.Ended id db o after
    → Follows a after
games_end f Games.raised = f
games_end f Games.refused = f
games_end {a} {id} {db} {after} f (Games.ended g hit eo ea) =
    same_rooms f (consistent.games_end id db after _ f.consistency (Games.ended g hit eo ea))
      (ap lobby_of ea)

accounts_open :
    {a : Lobby} {e : Engine} {name hash : Bytes} {now : ℕ} {db after : Db} {o : Outcome ℕ}
    → Follows a db
    → Accounts.Inserted e name hash now db o after
    → Follows a after
accounts_open f Accounts.raised = f
accounts_open f Accounts.refused = f
accounts_open {a} {e} {name} {hash} {now} {db} {after} f (Accounts.inserted fresh eo ea) =
    same_rooms f
      (consistent.accounts_open e name hash now db after _ f.consistency
        (Accounts.inserted fresh eo ea))
      (ap lobby_of ea)

users_log_in :
    {a : Lobby} {id now : ℕ} {db after : Db} {o : Outcome Bool}
    → Follows a db
    → Accounts.Changed id (logged_in_at now) db o after
    → Follows a after
users_log_in f Accounts.raised = f
users_log_in f Accounts.refused = f
users_log_in {a} {id} {now} {db} {after} f (Accounts.changed eo ea) =
    same_rooms f (consistent.users_log_in id now db after _ f.consistency (Accounts.changed eo ea))
      (ap lobby_of ea)

users_rename :
    {a : Lobby} {id : ℕ} {nick : Bytes} {db after : Db} {o : Outcome Bool}
    → Follows a db
    → Accounts.Changed id (renamed nick) db o after
    → Follows a after
users_rename f Accounts.raised = f
users_rename f Accounts.refused = f
users_rename {a} {id} {nick} {db} {after} f (Accounts.changed eo ea) =
    same_rooms f (consistent.users_rename id nick db after _ f.consistency (Accounts.changed eo ea))
      (ap lobby_of ea)

pub Follows-IsStable : (a : Lobby) → IsStable (Follows a)
Follows-IsStable a = record {
  rooms_open = λ db after host max now name o f m h. rooms_open f m h;
  players_join = λ db after r u o f h. players_join f h;
  players_leave = λ db after u o f h. players_leave f h;
  games_start = λ e db after o f h. games_start f h;
  games_end = λ id db after o f h. games_end f h;
  accounts_open = λ e name hash now db after o f h. accounts_open f h;
  users_log_in = λ id now db after o f h. users_log_in f h;
  users_rename = λ id nick db after o f h. users_rename f h;
}

-- From consistent tables: whatever the sessions send and whichever statements throw, in every order,
-- what the tables say of the rooms changes by moves of the lobby only.
pub Reaches-Plays :
    (x y : Site)
    → Reaches x y
    → IsConsistent x.world.db
    → Plays (lobby_of x.world.db) (lobby_of y.world.db)
Reaches-Plays x y r c =
    (Reaches-Kept (Follows-IsStable (lobby_of x.world.db)) x y r
      (record { consistency = c; played = rests })).played
