-- ===== src/Examples/Rooms.antt =====
-- Tests of the rooms.
use back_end_doc.Common.{ℕ, ◌≡◌, ◌≤◌, refl, some, none, arith, returned}
use back_end_doc.RoomRepository.{RoomInfo, create_room_with_host, add_player, remove_player}
use back_end_doc.RoomRepository.Outcomes.{
  Created, Added, Removed, create_room_with_host-Created, add_player-Added, remove_player-Removed,
}
use back_end_doc.RoomRepository.Healthy.{may_join, after_join, add_player-Runs}
use back_end_doc.RoomRepository.Listing.{are_open, NewestFirst, find_all_open-Lists}
use back_end_doc.RoomRepository.{reopened, read_room, find_all_open, open_rooms, read_listings}
use back_end_doc.Db.{Room, terminated}
use back_end_doc.Db.Query.{rooms_of, least, terminated_ids, find_room, has_user}
use back_end_doc.World.Healthy.{Runs}
use back_end_doc.Common.{List, [], true, false}
use mathlib.Core.List.{Perm}
use back_end_doc.RoomRepository.Shown.{Any}
use back_end_doc.RoomService.Shown.{CanCreate, Shows, create_room_for-Any}
use back_end_doc.Names.{is_valid_room_name, all_bytes}
use back_end_doc.Request.{given}
use back_end_doc.Examples.{waiting_room, sample_world-IsHealthy, sample_db-IsConsistent}
use back_end_doc.RoomService.{create_room_for, list_all_rooms, out_of_range, handle_room}
use back_end_doc.RoomService.Rooms.{Opens, create_room_for-Opens}
use back_end_doc.Response.{created_room, listed_rooms, ListedRoom}
use back_end_doc.Examples.{al, sample_db, sample_world, sample_request}

create_room_with_host-Created_example :
    Created sample_db 4 al 4 7
      (create_room_with_host 4 al 4 sample_world).0
      (create_room_with_host 4 al 4 sample_world).1.db
create_room_with_host-Created_example = create_room_with_host-Created 4 al 4 sample_world

add_player-Added_example :
    Added sample_db 1 4 (add_player 1 4 sample_world).0 (add_player 1 4 sample_world).1.db
add_player-Added_example = add_player-Added 1 4 sample_world

remove_player-Removed_example :
    Removed sample_db 1 (remove_player 1 sample_world).0 (remove_player 1 sample_world).1.db
remove_player-Removed_example = remove_player-Removed 1 sample_world

-- Room 2 is opened for user 4.
abbrev room_two : RoomInfo
room_two = record { room_id = 2; room_name = al; ip_address = al; port = 8080; max_players = 4 }

opens_two : (create_room_for sample_request sample_world).0 ≡ returned (created_room room_two)
unfolding create_room_for back_end_doc.World.catching back_end_doc.World.◌>>=◌
    back_end_doc.Names.is_valid_room_name back_end_doc.RoomService.out_of_range
    create_room_with_host back_end_doc.World.transact back_end_doc.DbPool.get_connection
    back_end_doc.Db.Transaction.◌>>=◌ back_end_doc.Db.Transaction.query
    back_end_doc.Db.Query.rooms_of back_end_doc.Db.Query.least back_end_doc.Db.Query.terminated_ids
    back_end_doc.RoomRepository.reactivate back_end_doc.Db.Query.find_room
    back_end_doc.Db.Query.has_user back_end_doc.RoomRepository.insert_room_user
    back_end_doc.Common.member back_end_doc.Db.Query.players_in back_end_doc.Db.Transaction.exec
    back_end_doc.Db.Transaction.pure back_end_doc.DbPool.return_connection
    back_end_doc.RoomRepository.read_room back_end_doc.Db.Query.update_room
opens_two = refl

create_room_for-Opens_example :
    Opens sample_request room_two sample_world (create_room_for sample_request sample_world).1.db
create_room_for-Opens_example = create_room_for-Opens sample_request sample_world room_two opens_two

add_player-Runs_example :
    Runs sample_world
      (returned (may_join 1 4 sample_db))
      (after_join 1 4 sample_db)
      (add_player 1 4 sample_world)
add_player-Runs_example = add_player-Runs 1 4 sample_world sample_world-IsHealthy

alone : rooms_of 4 sample_db.room_users ≡ []
unfolding rooms_of
alone = refl

least_is_two : least (terminated_ids sample_db.rooms) ≡ some 2
unfolding least terminated_ids
least_is_two = refl

abbrev free_room : Room
free_room = record waiting_room { room_id = 2; status = terminated }

two_is_free : find_room 2 sample_db.rooms ≡ some free_room
unfolding find_room
two_is_free = refl

known : has_user 4 sample_db.users ≡ true
unfolding has_user
known = refl

find_all_open-Lists_example :
    ((find_all_open sample_world).0 ≡ read_listings (open_rooms sample_db.rooms))
    × NewestFirst (open_rooms sample_db.rooms)
    × Perm (open_rooms sample_db.rooms) (are_open sample_db.rooms)
find_all_open-Lists_example = find_all_open-Lists sample_world sample_world-IsHealthy

al_is_valid : is_valid_room_name al ≡ true
unfolding is_valid_room_name all_bytes
al_is_valid = refl

four_is_in_range : out_of_range (given 4) ≡ false
unfolding out_of_range
four_is_in_range = refl

can_create : CanCreate sample_request sample_world 2 free_room
can_create = record {
  name = al;
  user = 4;
  capacity = 4;
  name_given = refl;
  user_given = refl;
  capacity_given = refl;
  name_valid = al_is_valid;
  in_range = four_is_in_range;
  alone = alone;
  known = known;
  least_free = least_is_two;
  found = two_is_free;
  free = refl;
  addresses = (
    record { ip = al; ip_is = refl; port = 8080; port_is = refl },
    (
      record { ip = al; ip_is = refl; port = 8080; port_is = refl },
      (record { ip = al; ip_is = refl; port = 8080; port_is = refl }, tt),
    ),
  );
}

create_room_for-Any_example :
    ((info : RoomInfo) × ((create_room_for sample_request sample_world).0
        ≡ returned (created_room info))
      × (info.room_id ≡ 2))
    × ((ls : List ListedRoom) × ((list_all_rooms (create_room_for sample_request sample_world).1).0
          ≡ returned (listed_rooms ls))
        × Any (Shows (reopened al 4 4 7 free_room) 1) ls)
unfolding can_create
create_room_for-Any_example =
    create_room_for-Any sample_request sample_world 2 free_room sample_world-IsHealthy can_create
      sample_db-IsConsistent
