-- ===== src/Examples.antt =====
-- Sample data for the tests: a driver, an engine, tables and a world.
mod Pool
mod Names
mod Accounts
mod Rooms
mod Games
pub mod Sessions
pub mod Messages
mod Machines
mod GameSocket
mod TestClient
mod Servers
use back_end_doc.Common.{
  ℕ, suc, ◌+◌, ◌%◌, ◌<◌, ◌≡◌, refl, Bool, true, false, not, Option, none, some, List, [], ◌∷◌, ◌==◌,
  arith, member, Bytes, All, map,
}
use back_end_doc.DbPool.{Driver, DbPool}
use back_end_doc.DbPool.Vectors.{IsValid}
use back_end_doc.Db.{
  Db, User, Room, RoomUser, Game, waiting, game_in_progress, terminated, in_progress,
}
use back_end_doc.Db.Query.{has_user, find_game, find_room, count_in, players_in}
use back_end_doc.PasswordUtil.{hash_password}
use back_end_doc.Request.{Request, Field, absent, given}
use back_end_doc.RoomRepository.Consistent.{IsConsistent}
use back_end_doc.World.{Engine, World}
use back_end_doc.World.Healthy.{IsHealthy}

-- Larger than each number of a list.
abbrev pub above : List ℕ → ℕ
above [] = 1
above (x ∷ xs) = suc (x + above xs)

above-member : (xs : List ℕ) (k : ℕ) → above xs < suc k → member k xs ≡ false
unfolding member
above-member [] k h = refl
above-member (x ∷ xs) k h = ground (arith, above-member xs k)

abbrev pub user_ids : List User → List ℕ
user_ids [] = []
user_ids (u ∷ us) = u.user_id ∷ user_ids us

above-has_user : (us : List User) (k : ℕ) → above (user_ids us) < suc k → has_user k us ≡ false
unfolding has_user
above-has_user [] k h = refl
above-has_user (u ∷ us) k h = ground (arith, above-has_user us k)

abbrev pub game_ids : List Game → List ℕ
game_ids [] = []
game_ids (g ∷ gs) = g.game_id ∷ game_ids gs

above-find_game : (gs : List Game) (k : ℕ) → above (game_ids gs) < suc k → find_game k gs ≡ none
unfolding find_game
above-find_game [] k h = refl
above-find_game (g ∷ gs) k h = ground (arith, above-find_game gs k)

pub above-fresh : (xs : List ℕ) (k : ℕ) → some (above xs) ≡ some k → member k xs ≡ false
above-fresh xs k e = above-member xs k (ground arith)

-- Connection 2 is closed; a new one has a number above all others.
abbrev pub sample_driver : Driver
sample_driver = record {
  is_open = λ c. not (c == 2);
  connect = λ live. some (above live);
  connect_fresh = above-fresh;
}

abbrev pub bytes_of : Bytes → Bytes
bytes_of = map (λ b. b % 256)

pub bytes_of-All : (text : Bytes) → All (λ b. b < 256) (bytes_of text)
bytes_of-All [] = tt
bytes_of-All (b ∷ bs) = (omega arith, bytes_of-All bs)

pub above_users : (us : List User) → has_user (above (user_ids us)) us ≡ false
above_users us = above-has_user us (above (user_ids us)) (omega arith)

pub above_games : (gs : List Game) → find_game (above (game_ids gs)) gs ≡ none
above_games gs = above-find_game gs (above (game_ids gs)) (omega arith)

abbrev pub sample_engine : Engine
sample_engine = record {
  lower = λ text. text;
  next_user = λ us. above (user_ids us);
  next_user_fresh = above_users;
  next_game = λ gs. above (game_ids gs);
  next_game_fresh = above_games;
  default_nick = λ us. b'n' ∷ [];
  sha256 = bytes_of;
  sha256_bytes = bytes_of-All;
}

-- "al" and "bo", and "secret".
abbrev pub al : Bytes
al = b'a' ∷ b'l' ∷ []

abbrev pub bo : Bytes
bo = b'b' ∷ b'o' ∷ []

abbrev pub secret : Bytes
secret = b's' ∷ b'e' ∷ b'c' ∷ b'r' ∷ b'e' ∷ b't' ∷ []

abbrev pub sample_user : ℕ → Bytes → User
sample_user id name = record {
  user_id = id;
  user_name = name;
  password_hash = hash_password sample_engine secret;
  nick_name = name;
  created_at = 5;
  last_login = 5;
}

abbrev pub waiting_room : Room
waiting_room = record {
  room_id = 1;
  room_name = al;
  host_id = 1;
  ip_address = some al;
  port = some 8080;
  max_players = 2;
  status = waiting;
  created_at = 6;
}

-- User 1 waits in room 1, user 3 plays in room 3, and room 2 is free.
abbrev pub sample_db : Db
sample_db = record {
  users = sample_user 1 al ∷ sample_user 3 bo ∷ sample_user 4 (b'd' ∷ []) ∷ [];
  maps = 1 ∷ [];
  rooms =
      waiting_room
      ∷ record waiting_room { room_id = 2; status = terminated }
      ∷ record waiting_room { room_id = 3; status = game_in_progress }
      ∷ [];
  room_users = record { room = 1; user = 1 } ∷ record { room = 3; user = 3 } ∷ [];
  games = record { game_id = 1; room = 3; map_id = 1; status = in_progress } ∷ [];
  classes = 1 ∷ [];
  game_users = [];
}

-- Of two connections one is in use.
abbrev pub sample_pool : DbPool
sample_pool = record { connections = 1 ∷ 2 ∷ []; in_use = true ∷ false ∷ [] }

abbrev pub sample_world : World
sample_world = record {
  driver = sample_driver;
  engine = sample_engine;
  pool = sample_pool;
  db = sample_db;
  faults = [];
  now = 7;
}

pub sample_pool-IsValid : IsValid sample_pool
unfolding member
sample_pool-IsValid = record { same_length = refl; distinct = (refl, (refl, tt)) }

pub sample_world-IsHealthy : IsHealthy sample_world
sample_world-IsHealthy = record {
  valid = sample_pool-IsValid;
  connects = λ live. (above live, refl);
  quiet = refl;
}

pub sample_db-IsConsistent : IsConsistent sample_db
unfolding find_room count_in players_in
sample_db-IsConsistent = record {
  capacity = λ id r e. ground arith;
  empty = λ id r e t. ground arith;
}

-- A request with a name and a password.
abbrev pub sample_request : Request
sample_request = record {
  action = absent;
  user_name = given al;
  password = given secret;
  nick_name = absent;
  room_name = given al;
  user_id = given 4;
  max_players = given 4;
  room_id = given 1;
  map_id = given 1;
  game_id = given 1;
}
