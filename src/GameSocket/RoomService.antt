-- ===== src/GameSocket/RoomService.antt =====
-- GameSocketServer/src/service/room_service.cpp, and the dispatch of
-- GameSocketServer/src/controller/room_controller.cpp. Each method catches what is thrown in it.
pub mod Consistency
use back_end_doc.Common.{
  ℕ, Bool, true, false, not, ◌||◌, Option, none, some, List, [], ◌∷◌, ltb, if◌then◌else◌, length,
  Outcome, returned, threw, Bytes, is_empty,
}
use back_end_doc.Names.{room_byte, all_bytes}
use back_end_doc.Request.{
  Request, contains, get, get_int, ActionName, create_room, join_room, exit_room, list_rooms,
}
use back_end_doc.RoomRepository.{RoomListing}
use back_end_doc.RoomService.{out_of_range}
use back_end_doc.World.{World, Action, return, lift, catching, ◌>>=◌}
use back_end_doc.GameSocket.{
  Response, error, created_room, joined_room, exited_room, no_rooms, missing_fields, bad_room_name,
  bad_max_players, create_room_failed, add_creator_failed, create_room_raised, join_failed,
  join_raised, not_in_a_room, exit_raised, list_raised, unknown_room_action,
}
use back_end_doc.GameSocket.RoomRepository.{
  find_valid_room, create, add_player, remove_player, get_player_count, get_players_in_room,
  find_all_open,
}

-- `isValidRoomName`: no '$' here.
unfoldable pub is_valid_room_name : Bytes → Bool
is_valid_room_name name =
    if is_empty name
    then false
    else if ltb 40 (length name)
    then false
    else all_bytes room_byte name

add_result : ℕ → Bytes → Bool → Action Response
add_result id name false = return (error add_creator_failed)
add_result id name true = return (created_room id name)

-- The room is open before its creator is in it.
create_result : ℕ → ℕ → Bytes → Bool → Action Response
unfolding add_result
create_result host id name false = return (error create_room_failed)
create_result host id name true = do done ← add_player id host; add_result id name done

try_create : Request → Action Response
unfolding create_result
try_create r =
    if not (contains r.room_name) || not (contains r.user_id) || not (contains r.max_players)
    then return (error missing_fields)
    else do
      name ← lift (get r.room_name)
      if not (is_valid_room_name name)
          then return (error bad_room_name)
          else if out_of_range r.max_players
          then return (error bad_max_players)
          else do
            id ← find_valid_room
            host ← lift (get_int r.user_id)
            max ← lift (get_int r.max_players)
            done ← create host id name max
            create_result host id name done

unfoldable pub create_room_for : Request → Action Response
unfolding try_create
create_room_for r = catching (error create_room_raised) (try_create r)

join_result : ℕ → Bool → Action Response
join_result id false = return (error join_failed)
join_result id true = do
  current ← get_player_count id
  players ← get_players_in_room id
  return (joined_room id current players)

try_join : Request → Action Response
unfolding join_result
try_join r =
    if not (contains r.room_id) || not (contains r.user_id)
    then return (error missing_fields)
    else do
      room ← lift (get_int r.room_id)
      user ← lift (get_int r.user_id)
      done ← add_player room user
      join_result room done

unfoldable pub join_room_for : Request → Action Response
unfolding try_join
join_room_for r = catching (error join_raised) (try_join r)

exit_result : Bool → Action Response
exit_result false = return (error not_in_a_room)
exit_result true = return exited_room

try_exit : Request → Action Response
unfolding exit_result
try_exit r =
    if not (contains r.user_id)
    then return (error missing_fields)
    else do user ← lift (get_int r.user_id); done ← remove_player user; exit_result done

unfoldable pub exit_room_for : Request → Action Response
unfolding try_exit
exit_room_for r = catching (error exit_raised) (try_exit r)

-- The first room of the list is looked up under the key "created_at", which the repository does not
-- write ("createdAt"): for a constant json that is undefined, which is `none` here.
listed : List RoomListing → Action (Option Response)
listed [] = return (some no_rooms)
listed (l ∷ ls) = do _ ← get_player_count l.room_id; return none

unfoldable pub list_all_rooms : Action (Option Response)
unfolding listed
list_all_rooms = catching (some (error list_raised)) (do rooms ← find_all_open; listed rooms)

defined : Response → Action (Option Response)
defined r = return (some r)

-- `RoomController::handleRequest`; `none` is undefined behaviour.
unfoldable pub handle_room : ActionName → Request → Action (Option Response)
unfolding defined
handle_room create_room r = do answer ← create_room_for r; defined answer
handle_room join_room r = do answer ← join_room_for r; defined answer
handle_room exit_room r = do answer ← exit_room_for r; defined answer
handle_room list_rooms r = list_all_rooms
handle_room _ r = return (some (error unknown_room_action))
