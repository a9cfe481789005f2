-- ===== src/Db.antt =====
-- The tables that the servers keep in PostgreSQL (MatchingServer/db-init.sql; `classes` and
-- `game_users`, which only the game socket server uses, are those of MatchingServer/postgres-init.sh), as
-- lists of rows. Each SQL statement of the repositories is a function of these lists, written from its text.
-- An `int` is its 32-bit pattern, so -1 is 4294967295. Times are numbers.
pub mod Query
pub mod Transaction
use back_end_doc.Common.{ℕ, Bool, true, false, Option, List, Bytes, leb}

pub data RoomStatus : Type 0 where
  waiting game_in_progress terminated : RoomStatus

pub data GameStatus : Type 0 where
  in_progress completed : GameStatus

pub record User : Type 0 where
  pub user_id : ℕ
  pub user_name : Bytes
  pub password_hash : Bytes
  pub nick_name : Bytes
  pub created_at : ℕ
  pub last_login : ℕ

-- The columns `ip_address` and `port` may be NULL.
pub record Room : Type 0 where
  pub room_id : ℕ
  pub room_name : Bytes
  pub host_id : ℕ
  pub ip_address : Option Bytes
  pub port : Option ℕ
  pub max_players : ℕ
  pub status : RoomStatus
  pub created_at : ℕ

pub record RoomUser : Type 0 where
  pub room : ℕ
  pub user : ℕ

pub record Game : Type 0 where
  pub game_id : ℕ
  pub room : ℕ
  pub map_id : ℕ
  pub status : GameStatus

-- A row of `game_users`, a table that only MatchingServer/postgres-init.sh creates.
pub record GameUser : Type 0 where
  pub game : ℕ
  pub user : ℕ
  pub class : ℕ

pub record Db : Type 0 where
  pub users : List User
  pub maps : List ℕ
  pub rooms : List Room
  pub room_users : List RoomUser
  pub games : List Game
  pub classes : List ℕ
  pub game_users : List GameUser

abbrev pub minus_one : ℕ
minus_one = 4294967295

-- `n < 0` for an `int`.
abbrev pub is_negative : ℕ → Bool
is_negative n = leb 2147483648 n

abbrev pub is_terminated : RoomStatus → Bool
is_terminated terminated = true
is_terminated _ = false

abbrev pub is_waiting : RoomStatus → Bool
is_waiting waiting = true
is_waiting _ = false
