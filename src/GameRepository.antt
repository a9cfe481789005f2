-- ===== src/GameRepository.antt =====
-- MatchingServer/src/repository/game_repository.cpp: the games that are played in rooms.
pub mod Outcomes
use back_end_doc.Common.{
  ℕ, Bool, true, false, not, ◌||◌, Option, none, some, List, [], ◌∷◌, if◌then◌else◌, member,
  is_empty, head?, Outcome, returned, threw,
}
use mathlib.Core.Option
use back_end_doc.Db.{Db, Room, Game, game_in_progress, in_progress, minus_one}
use back_end_doc.Db.Query.{find_room, update_room, players_in, find_game, complete_game}
use back_end_doc.Db.Transaction.{
  Txn, Verdict, Reply, commit, abort, exec, query, pure, failed, ◌>>=◌,
}
use back_end_doc.Request.{Field, get_int}
use back_end_doc.World.{World, Engine, Action, transact}

-- The json that both methods return: "gameId", "users" and, if it is set, "roomId".
pub record GameResult : Type 0 where
  pub game_id : ℕ
  pub users : List ℕ
  pub room_id : Option ℕ

-- { "gameId": -1, "users": [] }
abbrev pub no_game : GameResult
no_game = record { game_id = minus_one; users = []; room_id = none }

-- INSERT INTO games (room_id, map_id) VALUES ($1, $2) RETURNING game_id: both are foreign keys.
unfoldable pub insert_game : Engine → ℕ → ℕ → Db → Option (List ℕ × Db)
insert_game e r m db = elim (find_room r db.rooms) [
  | none ↦ none
  | some _ ↦
      if not (member m db.maps)
      then none
      else some (
        e.next_game db.games ∷ [],
        record db {
          games =
              record { game_id = e.next_game db.games; room = r; map_id = m; status = in_progress }
              ∷ db.games;
        },
      )
]

abbrev pub playing : Room → Room
playing r = record r { status = game_in_progress }

-- UPDATE rooms SET status = 'GAME_IN_PROGRESS' WHERE room_id = $1 RETURNING status. Whatever the
-- status was.
unfoldable pub mark_playing : ℕ → Db → Option (Option Room × Db)
mark_playing r db = some (
  Option.map playing (find_room r db.rooms),
  record db { rooms = update_room r playing db.rooms },
)

-- "gameId" keeps its -1: the code does not write the new id into the response.
report_players : ℕ → Txn (Verdict GameResult)
report_players r = do
  ids ← query (λ db. players_in r db.room_users)
  pure (commit (returned (record no_game { users = ids })))

report_marked : ℕ → Option Room → Txn (Verdict GameResult)
unfolding report_players
report_marked r none = pure (abort no_game)
report_marked r (some _) = report_players r

start_in : Engine → ℕ → ℕ → Txn (Verdict GameResult)
unfolding report_marked
start_in e r m = do
  result ← exec (insert_game e r m)
  room ← exec (mark_playing r)
  if is_empty result then pure (abort no_game) else report_marked r room

unfoldable pub raise {ℓ} : {A : Type ℓ} → Txn A
raise db fs = failed fs

with_map : Engine → ℕ → Outcome ℕ → Txn (Verdict GameResult)
unfolding start_in
with_map e r threw = raise
with_map e r (returned m) = start_in e r m

start_body : Engine → Outcome ℕ → Outcome ℕ → Txn (Verdict GameResult)
unfolding with_map
start_body e threw map = raise
start_body e (returned r) map = with_map e r map

-- `request["roomId"]` and `request["mapId"]` are converted inside the `try` block.
unfoldable pub create_game : Field ℕ → Field ℕ → Action GameResult
unfolding start_body
create_game room_id map_id w =
    transact no_game (start_body w.engine (get_int room_id) (get_int map_id)) w

-- UPDATE games SET status = 'COMPLETED' WHERE game_id = $1 RETURNING room_id
unfoldable pub finish_game : ℕ → Db → Option (Option ℕ × Db)
finish_game id db = some (
  Option.map (λ (g : Game). g.room) (find_game id db.games),
  record db { games = complete_game id db.games },
)

end_in : Option ℕ → Txn (Verdict GameResult)
end_in none = pure (abort no_game)
end_in (some r) = do
  ids ← query (λ db. players_in r db.room_users)
  pure (commit (returned (record no_game { users = ids; room_id = some r })))

end_body : ℕ → Txn (Verdict GameResult)
unfolding end_in
end_body id = do room ← exec (finish_game id); end_in room

unfoldable pub end_game : ℕ → Action GameResult
unfolding end_body
end_game game_id = transact no_game (end_body game_id)
