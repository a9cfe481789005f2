-- ===== src/Lobby.antt =====
-- What the rooms of the matching server (MatchingServer/src) promise, without tables, connections
-- and transactions: which rooms there are, who is in them, and the moves of the players.
pub mod Views
pub mod Refinement
use back_end_doc.Common.{
  ℕ, ◌≤◌, ◌<◌, ◌≡◌, Bool, true, false, Option, none, some, List, [], ◌∷◌, ◌==◌, if◌then◌else◌,
  length, member, is_empty,
}
use back_end_doc.Db.{Db, Room, RoomStatus, waiting, game_in_progress, terminated}
use back_end_doc.Db.Query.{find_room, players_in}

-- A room waits or plays, with so many places; nothing is known of the places of a free one.
pub data Stage : Type 0 where
  absent free : Stage
  gathering playing : ℕ → Stage

pub record Lobby : Type 0 where
  pub stage : ℕ → Stage
  pub players : ℕ → List ℕ

abbrev pub put {ℓ} : {A : Type ℓ} → ℕ → A → (ℕ → A) → ℕ → A
put id a f j = if j == id then a else f j

-- The list without a player.
unfoldable pub without : ℕ → List ℕ → List ℕ
without u [] = []
without u (x ∷ xs) = let rest = without u xs in if x == u then rest else x ∷ rest

abbrev pub shut : Stage → Stage
shut absent = absent
shut _ = free

-- Any room that exists may be played in, with the places that it has.
pub data MayPlay : Stage → ℕ → Type 0 where
  from_free : (n : ℕ) → MayPlay free n
  from_gathering : (n : ℕ) → MayPlay (gathering n) n
  from_playing : (n : ℕ) → MayPlay (playing n) n

abbrev pub left : ℕ → ℕ → Lobby → Lobby
left r u a = record {
  stage = if is_empty (without u (a.players r)) then put r (shut (a.stage r)) a.stage else a.stage;
  players = λ j. without u (a.players j);
}

-- A free room is opened by a host who is nowhere, and has then this one player; a player who is not
-- there yet joins a waiting room with a free place; a player leaves all rooms, and one of these is
-- closed if nobody is left in it; a game starts.
pub data Moves (a : Lobby) : Lobby → Type 0 where
  opens :
      (id host max : ℕ)
      → 1 ≤ max
      → a.stage id ≡ free
      → ((j : ℕ) → member host (a.players j) ≡ false)
      → Moves a (record {
        stage = put id (gathering max) a.stage;
        players = put id (host ∷ []) a.players;
      })
  joins :
      (id u max : ℕ)
      → a.stage id ≡ gathering max
      → length (a.players id) < max
      → member u (a.players id) ≡ false
      → Moves a (record a { players = put id (u ∷ a.players id) a.players })
  leaves : (r u : ℕ) → member u (a.players r) ≡ true → Moves a (left r u a)
  plays :
      (id max : ℕ)
      → MayPlay (a.stage id) max
      → Moves a (record a { stage = put id (playing max) a.stage })

-- Moves one after another.
pub data Plays (a : Lobby) : Lobby → Type 0 where
  rests : Plays a a
  moves : {b c : Lobby} → Plays a b → Moves b c → Plays a c

abbrev pub by_status : RoomStatus → ℕ → Stage
by_status waiting n = gathering n
by_status game_in_progress n = playing n
by_status terminated n = free

abbrev pub stage_of : Option Room → Stage
stage_of none = absent
stage_of (some r) = by_status r.status r.max_players

-- What the tables say of the rooms.
abbrev pub lobby_of : Db → Lobby
lobby_of db = record {
  stage = λ id. stage_of (find_room id db.rooms);
  players = λ id. players_in id db.room_users;
}
