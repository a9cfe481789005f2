-- ===== src/GameSocket.antt =====
-- The game socket server (GameSocketServer/src): an earlier server with the same tables, whose
-- columns are taken to be those of MatchingServer/db-init.sql, and with game_users, which is taken to be
-- that of MatchingServer/postgres-init.sh. Its pool of connections and its
-- password utility are those of the matching server. Here: requests and responses.
pub mod UserRepository
pub mod RoomRepository
pub mod AuthService
pub mod RoomService
pub mod GameRepository
pub mod GameService
pub mod Session
pub mod Server
pub mod DbPool
pub mod PasswordUtil
use back_end_doc.Common.{ℕ, List, Bytes}
use back_end_doc.Db.{User}

pub data Message : Type 0 where
  bad_user_name short_password user_exists create_user_failed : Message
  invalid_user_name invalid_password : Message
  missing_fields bad_room_name bad_max_players create_room_failed add_creator_failed : Message
  create_room_raised join_failed join_raised not_in_a_room exit_raised list_raised : Message
  unknown_auth_action unknown_room_action unknown_game_action : Message
  authentication_required unknown_action invalid_format : Message

pub data Response : Type 0 where
  error : Message → Response
  registered : ℕ → Bytes → Response
  logged_in : User → Response
  created_room : ℕ → Bytes → Response
  joined_room : ℕ → ℕ → List ℕ → Response
  exited_room : Response
  no_rooms : Response
