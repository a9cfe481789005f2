-- ===== src/RoomService.antt =====
-- MatchingServer/src/service/room_service.cpp, and the dispatch of
-- MatchingServer/src/controller/room_controller.cpp. Each method catches what is thrown in it.
pub mod Rooms
pub mod Listings
pub mod Shown
pub mod Consistency
use back_end_doc.Common.{
  ℕ, ◌+◌, ◌%◌, ◌≡◌, Bool, true, false, not, ◌&&◌, ◌||◌, Option, none, some, List, [], ◌∷◌, ltb,
  if◌then◌else◌, Outcome, returned, threw, Bytes,
}
use back_end_doc.Names.{is_valid_room_name}
use back_end_doc.Request.{
  Request, Field, absent, ill_typed, given, contains, get, get_int, ActionName, create_room,
  join_room, exit_room, list_rooms,
}
use back_end_doc.Response.{
  Response, ListedRoom, error, created_room, joined_room, exited_room, listed_rooms, missing_fields,
  bad_room_name, bad_max_players, create_room_failed, create_room_raised, join_failed, join_raised,
  not_in_a_room, exit_raised, list_raised, unknown_room_action,
}
use back_end_doc.RoomRepository.{
  RoomInfo, RoomListing, create_room_with_host, add_player, remove_player, get_player_count,
  find_all_open,
}
use back_end_doc.World.{World, Action, return, throw, lift, catching, ◌>>=◌}

-- `a < b` for the 64-bit numbers of a json.
abbrev pub lt64 : ℕ → ℕ → Bool
lt64 a b =
    ltb ((a + 9223372036854775808) % 18446744073709551616)
      ((b + 9223372036854775808) % 18446744073709551616)

-- request["maxPlayers"] < 2 || request["maxPlayers"] > 8. A json that is no number is less than any
-- number (null, bool) or greater (text, lists, objects).
unfoldable pub out_of_range : Field ℕ → Bool
out_of_range (given n) = lt64 n 2 || lt64 8 n
out_of_range _ = true

create_result : Option RoomInfo → Action Response
create_result none = return (error create_room_failed)
create_result (some info) = return (created_room info)

try_create : Request → Action Response
unfolding create_result
try_create r =
    if not (contains r.room_name) || not (contains r.user_id) || not (contains r.max_players)
    then return (error missing_fields)
    else do
      name ← lift (get r.room_name)
      if not (is_valid_room_name name)
          then return (error bad_room_name)
          else if out_of_range r.max_players
          then return (error bad_max_players)
          else do
            host ← lift (get_int r.user_id)
            max ← lift (get_int r.max_players)
            info ← create_room_with_host host name max
            create_result info

unfoldable pub create_room_for : Request → Action Response
unfolding try_create
create_room_for r = catching (error create_room_raised) (try_create r)

join_result : ℕ → Bool → Action Response
join_result id false = return (error join_failed)
join_result id true = return (joined_room id)

try_join : Request → Action Response
unfolding join_result
try_join r =
    if not (contains r.room_id) || not (contains r.user_id)
    then return (error missing_fields)
    else do
      room ← lift (get_int r.room_id)
      user ← lift (get_int r.user_id)
      done ← add_player room user
      join_result room done

unfoldable pub join_room_for : Request → Action Response
unfolding try_join
join_room_for r = catching (error join_raised) (try_join r)

exit_result : Bool → Action Response
exit_result false = return (error not_in_a_room)
exit_result true = return exited_room

try_exit : Request → Action Response
unfolding exit_result
try_exit r =
    if not (contains r.user_id)
    then return (error missing_fields)
    else do user ← lift (get_int r.user_id); done ← remove_player user; exit_result done

unfoldable pub exit_room_for : Request → Action Response
unfolding try_exit
exit_room_for r = catching (error exit_raised) (try_exit r)

-- The loop of `listRooms`: each room with its number of players.
count_players : List RoomListing → Action (List ListedRoom)
count_players [] = return []
count_players (l ∷ ls) = do
  n ← get_player_count l.room_id
  rest ← count_players ls
  return (record { room = l; current_players = n } ∷ rest)

unfoldable pub list_all_rooms : Action Response
unfolding count_players
list_all_rooms =
    catching (error list_raised)
      (do rooms ← find_all_open; listed ← count_players rooms; return (listed_rooms listed))

-- `RoomController::handleRequest`
unfoldable pub handle_room : ActionName → Request → Action Response
handle_room create_room r = create_room_for r
handle_room join_room r = join_room_for r
handle_room exit_room r = exit_room_for r
handle_room list_rooms r = list_all_rooms
handle_room _ r = return (error unknown_room_action)
