-- ===== src/GameSocket/GameRepository.antt =====
-- GameSocketServer/src/repository/game_repository.cpp: the games that are played in rooms. A `return` in
-- the middle of a method keeps the connection.
pub mod Outcomes
pub mod Endings
use back_end_doc.Common.{
  ℕ, ◌+◌, Bool, true, false, not, ◌||◌, ◌&&◌, member, Option, none, some, List, [], ◌∷◌, ◌==◌,
  if◌then◌else◌, head?, Outcome, returned, threw,
}
use mathlib.Core.Option
use back_end_doc.Db.{Db, Room, Game, GameUser, waiting, minus_one}
use back_end_doc.Db.Query.{find_room, update_room, find_game, complete_game, has_user, has_game}
use back_end_doc.Db.Transaction.{Txn, commit, exec, pure, failed, ◌>>=◌}
use back_end_doc.GameRepository.{insert_game, finish_game, raise}
use back_end_doc.Request.{Field, contains, get_int}
use back_end_doc.World.{World, Engine, Action}
use back_end_doc.World.Leaky.{Ending, settled, kept, transact_leaky}

-- An element of "users": its "userId" and its "classId".
pub data Player : Type 0 where
  no_object : Player
  player : Field ℕ → Field ℕ → Player

-- The primary key of `game_users`.
unfoldable pub is_in_game : ℕ → ℕ → List GameUser → Bool
is_in_game game user [] = false
is_in_game game user (g ∷ gs) =
    let rest = is_in_game game user gs in if g.game == game && g.user == user then true else rest

-- INSERT INTO game_users (game_id, user_id, class_id) VALUES ($1, $2, $3) RETURNING 1: the three columns
-- are foreign keys.
unfoldable pub insert_game_user : ℕ → ℕ → ℕ → Db → Option (List ℕ × Db)
insert_game_user game user class db =
    if not (has_game game db.games)
      || not (has_user user db.users)
      || not (member class db.classes)
      || is_in_game game user db.game_users
    then none
    else some (
      1 ∷ [],
      record db { game_users = record { game = game; user = user; class = class } ∷ db.game_users },
    )

counted : List ℕ → Txn ℕ
counted [] = pure 0
counted (_ ∷ _) = pure 1

insert_converted : ℕ → Outcome ℕ → Outcome ℕ → Txn ℕ
unfolding counted
insert_converted game threw class = raise
insert_converted game (returned u) threw = raise
insert_converted game (returned u) (returned c) = do
  result ← exec (insert_game_user game u c)
  counted result

-- An element without its keys is passed over.
store_player : ℕ → Player → Txn ℕ
unfolding insert_converted
store_player game no_object = pure 0
store_player game (player user class) =
    if not (contains user) || not (contains class)
    then pure 0
    else insert_converted game (get_int user) (get_int class)

store_players : ℕ → List Player → Txn ℕ
unfolding store_player
store_players game [] = pure 0
store_players game (p ∷ ps) = do n ← store_player game p; m ← store_players game ps; pure (n + m)

created : List Player → Option ℕ → Txn (Ending ℕ)
unfolding store_players
created users none = pure (kept minus_one)
created users (some id) = do _ ← store_players id users; pure (settled (commit (returned id)))

create_converted : Engine → Outcome ℕ → Outcome ℕ → List Player → Txn (Ending ℕ)
unfolding created
create_converted e threw map users = raise
create_converted e (returned r) threw users = raise
create_converted e (returned r) (returned m) users = do
  result ← exec (insert_game e r m)
  created users (head? result)

unfoldable pub create_game : Field ℕ → Field ℕ → List Player → Action ℕ
unfolding create_converted
create_game room_id map_id users w =
    transact_leaky minus_one (create_converted w.engine (get_int room_id) (get_int map_id) users) w

abbrev pub waits_again : Room → Room
waits_again r = record r { status = waiting }

-- UPDATE rooms SET status = 'WAITING' WHERE room_id = $1 RETURNING room_id. Whatever the status was.
unfoldable pub mark_waiting : ℕ → Db → Option (Option ℕ × Db)
mark_waiting r db = some (
  Option.map (λ (x : Room). x.room_id) (find_room r db.rooms),
  record db { rooms = update_room r waits_again db.rooms },
)

reopened : ℕ → Option ℕ → Txn (Ending Bool)
reopened r none = pure (kept false)
reopened r (some id) =
    if not (r == id) then pure (kept false) else pure (settled (commit (returned true)))

reopen : Option ℕ → Txn (Ending Bool)
unfolding reopened
reopen none = pure (kept false)
reopen (some r) = do result ← exec (mark_waiting r); reopened r result

unfoldable pub end_game : ℕ → Action Bool
unfolding reopen
end_game id = transact_leaky false (do room ← exec (finish_game id); reopen room)
