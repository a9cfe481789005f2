-- ===== src/GameRepository/Outcomes.antt =====
-- What the methods on games may do to the tables, and what they answer.
use back_end_doc.Common.{
  ℕ, ◌≡◌, inl, inr, Bool, Option, none, some, List, ◌∷◌, arith, Outcome, returned, threw, is_empty,
  Option-cases,
}
use back_end_doc.Db.{Db, Room, Game, in_progress}
use back_end_doc.Db.Query.{find_room, update_room, players_in, find_game, complete_game}
use back_end_doc.Db.Transaction.{
  Verdict, commit, abort, Yields, query-Yields, exec-Yields, if-Yields, pure-Yields,
}
use back_end_doc.Request.{Field, get_int}
use back_end_doc.World.{World, Engine}
use back_end_doc.World.Frame.{Settles, transact_rule}
use back_end_doc.GameRepository.{
  GameResult, no_game, insert_game, playing, mark_playing, report_players, report_marked, start_in,
  raise, with_map, start_body, create_game, finish_game, end_in, end_body, end_game,
}

-- The tables with a new game in room `r`, whose status says that a game is played.
abbrev pub with_game : Engine → ℕ → ℕ → Db → Db
with_game e r m db = record db {
  games =
      record { game_id = e.next_game db.games; room = r; map_id = m; status = in_progress }
      ∷ db.games;
  rooms = update_room r playing db.rooms;
}

-- `createGame`: nothing, or a new game in a room that exists, in whatever status. The answer never
-- has the id of the game.
pub data Started (e : Engine) (before : Db) : Outcome GameResult → Db → Type 0 where
  raised : Started e before threw before
  refused : Started e before (returned no_game) before
  started :
      {o : Outcome GameResult} {after : Db} (r m : ℕ) (row : Room)
      → find_room r before.rooms ≡ some row
      → o ≡ returned (record no_game { users = players_in r before.room_users })
      → after ≡ with_game e r m before
      → Started e before o after

pub insert_game_split :
    (e : Engine) (r m : ℕ) (db db' : Db) (ids : List ℕ)
    → insert_game e r m db ≡ some (ids, db')
    → (row : Room) × (find_room r db.rooms ≡ some row)
      × (db' ≡ record db {
        games =
            record { game_id = e.next_game db.games; room = r; map_id = m; status = in_progress }
            ∷ db.games;
      })
unfolding insert_game
insert_game_split e r m db db' ids h = elim (Option-cases (find_room r db.rooms)) [
  | inl missing ↦ absurd (ground arith)
  | inr (row, hit) ↦ (row, hit, ground arith)
]

module _ (e : Engine) (db : Db) where
  abbrev Starts : Verdict GameResult → Db → Type 0
  Starts = Settles (Started e db) db

  report_marked-Started :
      (r m : ℕ) (ids : List ℕ) (room : Option Room) (db₁ db₂ : Db) (fs : List Bool)
      → insert_game e r m db ≡ some (ids, db₁)
      → mark_playing r db₁ ≡ some (room, db₂)
      → Yields Starts (report_marked r room db₂ fs)
  unfolding report_marked report_players mark_playing
  report_marked-Started r m ids none db₁ db₂ fs h₁ h₂ =
      pure-Yields Starts (abort no_game) db₂ fs refused
  report_marked-Started r m ids (some row) db₁ db₂ fs h₁ h₂ =
      query-Yields Starts _ db₂ (λ db. players_in r db.room_users) fs
        λ fs'.
          let (old, hit, e₁) = insert_game_split e r m db db₁ ids h₁ in
          pure-Yields Starts
            (commit (returned (record no_game { users = players_in r db₂.room_users }))) db₂ fs'
            (started r m old hit (ground arith) (ground arith))

  start_in-Started : (r m : ℕ) (fs : List Bool) → Yields Starts (start_in e r m db fs)
  unfolding start_in
  start_in-Started r m fs = exec-Yields Starts _ db (insert_game e r m) fs λ ids db₁ fs₁ h₁.
      exec-Yields Starts _ db₁ (mark_playing r) fs₁ λ room db₂ fs₂ h₂.
        if-Yields Starts db₂ fs₂ (is_empty ids) _ _
          (λ none_. pure-Yields Starts (abort no_game) db₂ fs₂ refused)
          (λ some_. report_marked-Started r m ids room db₁ db₂ fs₂ h₁ h₂)

  start_body-Started :
      (room map : Outcome ℕ) (fs : List Bool) → Yields Starts (start_body e room map db fs)
  unfolding start_body with_map raise
  start_body-Started threw map fs = tt
  start_body-Started (returned r) threw fs = tt
  start_body-Started (returned r) (returned m) fs = start_in-Started r m fs

-- Whatever statement throws, `createGame` changes nothing, or adds a game to a room that exists and
-- marks the room as being played in.
pub create_game-Started :
    (room_id map_id : Field ℕ) (w : World)
    → Started w.engine w.db (create_game room_id map_id w).0 (create_game room_id map_id w).1.db
unfolding create_game
create_game-Started room_id map_id w =
    transact_rule (Started w.engine w.db) no_game w
      (start_body w.engine (get_int room_id) (get_int map_id)) raised refused
      (start_body-Started w.engine w.db (get_int room_id) (get_int map_id))

-- `endGame`: nothing, or the game completed. The answer never has the id of the game.
pub data Ended (id : ℕ) (before : Db) : Outcome GameResult → Db → Type 0 where
  raised : Ended id before threw before
  refused : Ended id before (returned no_game) before
  ended :
      {o : Outcome GameResult} {after : Db} (g : Game)
      → find_game id before.games ≡ some g
      → o
        ≡ returned
            (record no_game { users = players_in g.room before.room_users; room_id = some g.room })
      → after ≡ record before { games = complete_game id before.games }
      → Ended id before o after

module _ (id : ℕ) (db : Db) where
  abbrev Ends : Verdict GameResult → Db → Type 0
  Ends = Settles (Ended id db) db

  finish_game_split :
      (r : ℕ) (db' : Db)
      → finish_game id db ≡ some (some r, db')
      → (g : Game) × (find_game id db.games ≡ some g)
        × (r ≡ g.room)
        × (db' ≡ record db { games = complete_game id db.games })
  unfolding finish_game
  finish_game_split r db' h = elim (Option-cases (find_game id db.games)) [
    | inl missing ↦ absurd (ground arith)
    | inr (g, hit) ↦ (g, hit, ground arith, ground arith)
  ]

  end_in-Ended :
      (room : Option ℕ) (db' : Db) (fs : List Bool)
      → finish_game id db ≡ some (room, db')
      → Yields Ends (end_in room db' fs)
  unfolding end_in
  end_in-Ended none db' fs h = pure-Yields Ends (abort no_game) db' fs refused
  end_in-Ended (some r) db' fs h =
      let (g, hit, er, ed) = finish_game_split r db' h in
      query-Yields Ends _ db' (λ db. players_in r db.room_users) fs
        λ fs'.
          pure-Yields Ends
            (commit
              (returned (record no_game { users = players_in r db'.room_users; room_id = some r })))
            db' fs' (ended g hit (ground arith) ed)

  end_body-Ended : (fs : List Bool) → Yields Ends (end_body id db fs)
  unfolding end_body
  end_body-Ended fs = exec-Yields Ends end_in db (finish_game id) fs end_in-Ended

-- Whatever statement throws, `endGame` changes nothing, or completes a game that exists.
pub end_game-Ended : (id : ℕ) (w : World) → Ended id w.db (end_game id w).0 (end_game id w).1.db
unfolding end_game
end_game-Ended id w =
    transact_rule (Ended id w.db) no_game w (end_body id) raised refused (end_body-Ended id w.db)
