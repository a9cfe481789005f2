-- ===== src/Response.antt =====
-- The responses of the services and of the session: "status" with the fields that go with it. Each
-- Korean message is a name.
use back_end_doc.Common.{ℕ, Bool, true, false, Option, List, Bytes}
use back_end_doc.Db.{User}
use back_end_doc.RoomRepository.{RoomInfo, RoomListing}

pub data Message : Type 0 where
  missing_fields bad_user_name short_password user_exists register_failed : Message
  no_such_user wrong_password create_user_failed bad_nick_name nick_name_failed : Message
  bad_room_name bad_max_players create_room_failed create_room_raised : Message
  join_failed join_raised not_in_a_room exit_raised list_raised : Message
  start_failed start_raised end_failed end_raised : Message
  unknown_auth_action unknown_room_action unknown_game_action : Message
  authentication_needed no_permission already_logged_in no_mirror : Message
  bad_request unknown_action no_controller ip_in_use : Message

-- A room of the list with its number of players, -1 if it could not be read.
pub record ListedRoom : Type 0 where
  pub room : RoomListing
  pub current_players : ℕ

-- In `logged_in` and `created_room` the option is `none` where the answer of the repository is the
-- json with the id -1 alone.
pub data Response : Type 0 where
  error : Message → Response
  registered : ℕ → Bytes → Response
  logged_in : Option User → Response
  nick_name_updated : Bytes → Response
  created_room : RoomInfo → Response
  joined_room : ℕ → Response
  exited_room : Response
  listed_rooms : List ListedRoom → Response
  started_game : ℕ → List ℕ → Response
  ended_game : Option ℕ → List ℕ → Response

-- response["status"] == "success"
abbrev pub is_success : Response → Bool
is_success (error m) = false
is_success _ = true
