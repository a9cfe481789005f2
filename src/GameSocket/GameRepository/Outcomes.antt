-- ===== src/GameSocket/GameRepository/Outcomes.antt =====
-- What the methods on games of GameSocketServer/src/repository/game_repository.cpp may do to the tables.
use back_end_doc.Common.{
  ℕ, ◌≡◌, refl, subst, ap, Bool, true, false, some, List, [], ◌∷◌, arith, Outcome, returned, threw,
  head?, member,
}
use back_end_doc.Db.{Db, Room, in_progress, minus_one}
use back_end_doc.Db.Query.{find_room, has_user}
use back_end_doc.Db.Transaction.{Yields, bind-Yields, exec-Yields, pure-Yields, pure}
use back_end_doc.GameRepository.{insert_game, raise}
use back_end_doc.GameRepository.Outcomes.{insert_game_split}
use back_end_doc.Request.{Field, absent, ill_typed, given, to_int, get_int}
use back_end_doc.World.{World, Engine}
use back_end_doc.World.Leaky.{Ending, Ends, leaky_rule}
use back_end_doc.GameSocket.GameRepository.{
  Player, no_object, player, insert_game_user, insert_converted, store_player, store_players,
  created, create_converted, create_game, is_in_game, counted,
}

-- An element of "users" without a user or without a class.
pub data IsSkipped : Player → Type 0 where
  is_no_object : IsSkipped no_object
  has_no_user : {class : Field ℕ} → IsSkipped (player absent class)
  has_no_class : {user : Field ℕ} → IsSkipped (player user absent)

-- The tables with a new game, whose room keeps its status.
abbrev pub with_game : Engine → ℕ → ℕ → Db → Db
with_game e r m db = record db {
  games =
      record { game_id = e.next_game db.games; room = r; map_id = m; status = in_progress }
      ∷ db.games;
}

-- The tables with a player of a game.
abbrev pub with_player : ℕ → ℕ → ℕ → Db → Db
with_player game u c db = record db {
  game_users = record { game = game; user = u; class = c } ∷ db.game_users;
}

-- An element of "users" is passed over, or it is stored: a user and a class that are known, where the
-- user is not in the game yet.
pub data Stored (game : ℕ) : Player → Db → Db → Type 0 where
  passed : {p : Player} {db after : Db} → IsSkipped p → after ≡ db → Stored game p db after
  stored :
      {db after : Db} (u c : ℕ)
      → has_user (to_int u) db.users ≡ true
      → member (to_int c) db.classes ≡ true
      → is_in_game game (to_int u) db.game_users ≡ false
      → after ≡ with_player game (to_int u) (to_int c) db
      → Stored game (player (given u) (given c)) db after

-- All elements, one after the other.
pub data Joins (game : ℕ) : List Player → Db → Db → Type 0 where
  nobody : {db after : Db} → after ≡ db → Joins game [] db after
  next :
      {p : Player} {ps : List Player} {db db₁ after : Db}
      → Stored game p db db₁
      → Joins game ps db₁ after
      → Joins game (p ∷ ps) db after

pub data Started (e : Engine) (users : List Player) (before : Db) : Outcome ℕ → Db → Type 0 where
  raised : Started e users before threw before
  refused : Started e users before (returned minus_one) before
  started :
      {o : Outcome ℕ} {after : Db} (r m : ℕ) (row : Room)
      → find_room r before.rooms ≡ some row
      → o ≡ returned (e.next_game before.games)
      → Joins (e.next_game before.games) users (with_game e r m before) after
      → Started e users before o after

insert_game_user_split :
    (game u c : ℕ) (db db' : Db) (rows : List ℕ)
    → insert_game_user game u c db ≡ some (rows, db')
    → (has_user u db.users ≡ true)
      × (member c db.classes ≡ true)
      × (is_in_game game u db.game_users ≡ false)
      × (db' ≡ with_player game u c db)
unfolding insert_game_user
insert_game_user_split game u c db db' rows e =
    (ground arith, ground arith, ground arith, ground arith)

store_player-Stored :
    (game : ℕ) (p : Player) (db : Db) (fs : List Bool)
    → Yields (λ n db'. Stored game p db db') (store_player game p db fs)
unfolding store_player insert_converted raise pure counted
store_player-Stored game no_object db fs = passed is_no_object refl
store_player-Stored game (player absent class) db fs = passed has_no_user refl
store_player-Stored game (player ill_typed absent) db fs = passed has_no_class refl
store_player-Stored game (player ill_typed ill_typed) db fs = tt
store_player-Stored game (player ill_typed (given c)) db fs = tt
store_player-Stored game (player (given u) absent) db fs = passed has_no_class refl
store_player-Stored game (player (given u) ill_typed) db fs = tt
store_player-Stored game (player (given u) (given c)) db fs =
    exec-Yields P counted db (insert_game_user game (to_int u) (to_int c)) fs λ rows db' fs' h.
      let (known, class, new, same) =
        insert_game_user_split game (to_int u) (to_int c) db db' rows h in
      counts rows db' fs' (stored u c known class new same)
  where
    P : ℕ → Db → Type 0
    P n db' = Stored game (player (given u) (given c)) db db'

    counts :
        (rows : List ℕ) (db' : Db) (fs' : List Bool)
        → Stored game (player (given u) (given c)) db db'
        → Yields P (counted rows db' fs')
    counts [] db' fs' h = h
    counts (r ∷ rs) db' fs' h = h

store_players-Joins :
    (game : ℕ) (ps : List Player) (db : Db) (fs : List Bool)
    → Yields (λ n db'. Joins game ps db db') (store_players game ps db fs)
unfolding store_players
store_players-Joins game [] db fs =
    pure-Yields (λ n db'. Joins game [] db db') 0 db fs (nobody refl)
store_players-Joins game (p ∷ ps) db fs =
    bind-Yields (λ n db'. Stored game p db db') (λ n db'. Joins game (p ∷ ps) db db') _ _ db fs
      (store_player-Stored game p db fs)
      λ n db₁ fs₁ first.
        bind-Yields (λ n db'. Joins game ps db₁ db') (λ n db'. Joins game (p ∷ ps) db db') _ _ db₁
          fs₁ (store_players-Joins game ps db₁ fs₁)
          λ m db₂ fs₂ rest.
            pure-Yields (λ n db'. Joins game (p ∷ ps) db db') _ db₂ fs₂ (next first rest)

insert_game-id :
    (e : Engine) (r m id : ℕ) (db db' : Db) (ids : List ℕ)
    → insert_game e r m db ≡ some (id ∷ ids, db')
    → id ≡ e.next_game db.games
unfolding insert_game
insert_game-id e r m id db db' ids h = ground (arith)

module _ (e : Engine) (users : List Player) (db : Db) where
  abbrev Starts : Ending ℕ → Db → Type 0
  Starts = Ends (Started e users db) db

  created-Started :
      (r m : ℕ) (ids : List ℕ) (db₁ : Db) (fs : List Bool)
      → insert_game e r m db ≡ some (ids, db₁)
      → Yields Starts (created users (head? ids) db₁ fs)
  unfolding created insert_game
  created-Started r m [] db₁ fs h = absurd (ground (arith))
  created-Started r m (id ∷ ids) db₁ fs h =
      bind-Yields (λ n db'. Joins id users db₁ db') Starts _ _ db₁ fs
        (store_players-Joins id users db₁ fs)
        λ n db₂ fs₂ joined.
          let (row, hit, same) = insert_game_split e r m db db₁ (id ∷ ids) h in
          let fresh = insert_game-id e r m id db db₁ ids h in
          pure-Yields Starts _ db₂ fs₂ (
            started r m row hit (ap returned fresh) (
              subst (λ k. Joins k users (with_game e r m db) db₂) fresh
                (subst (λ d. Joins id users d db₂) same joined)))

  create_converted-Started :
      (room map : Outcome ℕ) (fs : List Bool)
      → Yields Starts (create_converted e room map users db fs)
  unfolding create_converted raise
  create_converted-Started threw map fs = tt
  create_converted-Started (returned r) threw fs = tt
  create_converted-Started (returned r) (returned m) fs =
      exec-Yields Starts _ db (insert_game e r m) fs (created-Started r m)

-- Whatever statement throws, `createGame` changes nothing, or it adds a game to a room that exists, with
-- each element of "users" that has a user and a class.
pub create_game-Started :
    (room_id map_id : Field ℕ) (users : List Player) (w : World)
    → Started w.engine users w.db
        (create_game room_id map_id users w).0
        (create_game room_id map_id users w).1.db
unfolding create_game
create_game-Started room_id map_id users w =
    leaky_rule (Started w.engine users w.db) minus_one w _ raised refused
      (create_converted-Started w.engine users w.db (get_int room_id) (get_int map_id))
