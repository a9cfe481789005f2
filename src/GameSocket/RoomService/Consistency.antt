-- ===== src/GameSocket/RoomService/Consistency.antt =====
-- Requests about rooms keep the tables consistent (GameSocketServer/src/service/room_service.cpp).
use back_end_doc.Common.{
  ℕ, Bool, true, false, not, ◌||◌, none, some, List, [], ◌∷◌, returned, Bytes,
}
use back_end_doc.Db.{minus_one}
use back_end_doc.Db.Query.{count_in, players_in}
use back_end_doc.Request.{
  Request, contains, get, get_int, ActionName, create_room, join_room, exit_room, list_rooms,
}
use back_end_doc.RoomRepository
use back_end_doc.RoomRepository.{RoomListing, read_listings}
use back_end_doc.RoomRepository.Consistent.{IsConsistent}
use back_end_doc.RoomService.{out_of_range}
use back_end_doc.World.{World}
use back_end_doc.World.Keeps.{
  Keeps, Keeps-return, Keeps-if, Keeps-catching, Keeps-bind-lift, Keeps-bind, Keeps-read,
}
use back_end_doc.GameSocket.{
  error, created_room, joined_room, exited_room, no_rooms, missing_fields, bad_room_name,
  bad_max_players, create_room_failed, add_creator_failed, create_room_raised, join_failed,
  join_raised, not_in_a_room, exit_raised, list_raised, unknown_room_action,
}
use back_end_doc.GameSocket.RoomRepository.{
  find_valid_room, create, add_player, remove_player, get_player_count, get_players_in_room,
  waiting_rooms, find_all_open,
}
use back_end_doc.GameSocket.RoomRepository.Outcomes.{
  find_valid_room-IsConsistent, create-IsConsistent, remove_player-IsConsistent,
  add_player-IsConsistent,
}
use back_end_doc.GameSocket.RoomService.{
  is_valid_room_name, add_result, create_result, try_create, create_room_for, join_result, try_join,
  join_room_for, exit_result, try_exit, exit_room_for, listed, list_all_rooms, defined, handle_room,
}

add-Keeps : (r u : ℕ) → Keeps IsConsistent (add_player r u)
add-Keeps r u = record { after = λ w c. add_player-IsConsistent r u w c }

count-Keeps : (id : ℕ) → Keeps IsConsistent (get_player_count id)
unfolding get_player_count RoomRepository.get_player_count
count-Keeps id =
    Keeps-read IsConsistent minus_one (λ db. count_in id db.room_users) (λ n. returned n)

players-Keeps : (id : ℕ) → Keeps IsConsistent (get_players_in_room id)
unfolding get_players_in_room RoomRepository.get_players_in_room
players-Keeps id =
    Keeps-read IsConsistent [] (λ db. players_in id db.room_users) (λ ids. returned ids)

open-Keeps : Keeps IsConsistent find_all_open
unfolding find_all_open
open-Keeps = Keeps-read IsConsistent [] (λ db. waiting_rooms db.rooms) read_listings

add_result-Keeps : (id : ℕ) (name : Bytes) (b : Bool) → Keeps IsConsistent (add_result id name b)
unfolding add_result
add_result-Keeps id name false = Keeps-return IsConsistent (error add_creator_failed)
add_result-Keeps id name true = Keeps-return IsConsistent (created_room id name)

create_result-Keeps :
    (host id : ℕ) (name : Bytes) (b : Bool) → Keeps IsConsistent (create_result host id name b)
unfolding create_result
create_result-Keeps host id name false = Keeps-return IsConsistent (error create_room_failed)
create_result-Keeps host id name true =
    Keeps-bind IsConsistent (add_player id host) (add_result id name) (add-Keeps id host)
      (add_result-Keeps id name)

create_room_for-Keeps : (r : Request) → Keeps IsConsistent (create_room_for r)
unfolding create_room_for try_create
create_room_for-Keeps r = Keeps-catching IsConsistent (error create_room_raised) _ (
    Keeps-if IsConsistent
      (not (contains r.room_name) || not (contains r.user_id) || not (contains r.max_players)) _ _
      (λ _. Keeps-return IsConsistent (error missing_fields))
      λ _. Keeps-bind-lift IsConsistent (get r.room_name) _ λ name _.
        Keeps-if IsConsistent (not (is_valid_room_name name)) _ _
          (λ _. Keeps-return IsConsistent (error bad_room_name))
          λ _.
            Keeps-if IsConsistent (out_of_range r.max_players) _ _
              (λ _. Keeps-return IsConsistent (error bad_max_players))
              λ _.
                Keeps-bind IsConsistent find_valid_room _
                  (record { after = find_valid_room-IsConsistent })
                  λ id. Keeps-bind-lift IsConsistent (get_int r.user_id) _ λ host _.
                    Keeps-bind-lift IsConsistent (get_int r.max_players) _ λ max _.
                      Keeps-bind IsConsistent (create host id name max) (create_result host id name)
                        (record { after = create-IsConsistent host id name max })
                        (create_result-Keeps host id name))

join_result-Keeps : (id : ℕ) (b : Bool) → Keeps IsConsistent (join_result id b)
unfolding join_result
join_result-Keeps id false = Keeps-return IsConsistent (error join_failed)
join_result-Keeps id true = Keeps-bind IsConsistent (get_player_count id) _ (count-Keeps id) λ n.
    Keeps-bind IsConsistent (get_players_in_room id) _ (players-Keeps id)
      λ ids. Keeps-return IsConsistent (joined_room id n ids)

join_room_for-Keeps : (r : Request) → Keeps IsConsistent (join_room_for r)
unfolding join_room_for try_join
join_room_for-Keeps r = Keeps-catching IsConsistent (error join_raised) _ (
    Keeps-if IsConsistent (not (contains r.room_id) || not (contains r.user_id)) _ _
      (λ _. Keeps-return IsConsistent (error missing_fields))
      λ _. Keeps-bind-lift IsConsistent (get_int r.room_id) _ λ room _.
        Keeps-bind-lift IsConsistent (get_int r.user_id) _ λ user _.
          Keeps-bind IsConsistent (add_player room user) (join_result room) (add-Keeps room user)
            (join_result-Keeps room))

exit_result-Keeps : (b : Bool) → Keeps IsConsistent (exit_result b)
unfolding exit_result
exit_result-Keeps false = Keeps-return IsConsistent (error not_in_a_room)
exit_result-Keeps true = Keeps-return IsConsistent exited_room

exit_room_for-Keeps : (r : Request) → Keeps IsConsistent (exit_room_for r)
unfolding exit_room_for try_exit
exit_room_for-Keeps r = Keeps-catching IsConsistent (error exit_raised) _ (
    Keeps-if IsConsistent (not (contains r.user_id)) _ _
      (λ _. Keeps-return IsConsistent (error missing_fields))
      λ _. Keeps-bind-lift IsConsistent (get_int r.user_id) _ λ user _.
        Keeps-bind IsConsistent (remove_player user) exit_result
          (record { after = remove_player-IsConsistent user }) exit_result-Keeps)

listed-Keeps : (ls : List RoomListing) → Keeps IsConsistent (listed ls)
unfolding listed
listed-Keeps [] = Keeps-return IsConsistent (some no_rooms)
listed-Keeps (l ∷ ls) =
    Keeps-bind IsConsistent (get_player_count l.room_id) _ (count-Keeps l.room_id)
      λ _. Keeps-return IsConsistent none

handle_room-Keeps : (a : ActionName) (r : Request) → Keeps IsConsistent (handle_room a r)
unfolding handle_room defined list_all_rooms
handle_room-Keeps create_room r =
    Keeps-bind IsConsistent (create_room_for r) defined (create_room_for-Keeps r)
      λ a. Keeps-return IsConsistent (some a)
handle_room-Keeps join_room r =
    Keeps-bind IsConsistent (join_room_for r) defined (join_room_for-Keeps r)
      λ a. Keeps-return IsConsistent (some a)
handle_room-Keeps exit_room r =
    Keeps-bind IsConsistent (exit_room_for r) defined (exit_room_for-Keeps r)
      λ a. Keeps-return IsConsistent (some a)
handle_room-Keeps list_rooms r =
    Keeps-catching IsConsistent (some (error list_raised)) _
      (Keeps-bind IsConsistent find_all_open listed open-Keeps listed-Keeps)
handle_room-Keeps _ r = Keeps-return IsConsistent (some (error unknown_room_action))

-- From consistent tables: whatever the request, and whichever statement throws, the requests about
-- rooms keep every room within its number of players and every terminated room empty.
pub handle_room_keeps :
    (a : ActionName) (r : Request) (w : World)
    → IsConsistent w.db
    → IsConsistent (handle_room a r w).1.db
handle_room_keeps a r w = (handle_room-Keeps a r).after w
