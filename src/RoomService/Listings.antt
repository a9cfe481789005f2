-- ===== src/RoomService/Listings.antt =====
-- `listRooms` of MatchingServer/src/service/room_service.cpp, where no statement throws.
use back_end_doc.Common.{ℕ, ◌≡◌, refl, subst, List, [], ◌∷◌, Outcome, returned, threw}
use back_end_doc.Db.{Db}
use back_end_doc.Db.Query.{count_in}
use back_end_doc.Db.Transaction.{query, exec, pure, ◌>>=◌}
use back_end_doc.Response.{Response, ListedRoom, error, listed_rooms, list_raised}
use back_end_doc.RoomRepository.{
  RoomListing, open_rooms, read_listings, get_player_count, find_all_open,
}
use back_end_doc.RoomService.{count_players, list_all_rooms}
use back_end_doc.World.{World}
use back_end_doc.World.Sequence.{bind-Runs, return-Runs, catching-Runs, bind-Runs_threw}
use back_end_doc.World.Healthy.{IsHealthy, Runs, commit-Runs}

-- Each room with the number of its players.
abbrev pub with_players : Db → List RoomListing → List ListedRoom
with_players db [] = []
with_players db (l ∷ ls) =
    record { room = l; current_players = count_in l.room_id db.room_users } ∷ with_players db ls

-- What is answered for the rows: rows without an address cannot be read.
abbrev pub listing : Db → Outcome (List RoomListing) → Response
listing db threw = error list_raised
listing db (returned ls) = listed_rooms (with_players db ls)

get_player_count-Runs :
    (r : ℕ) (w : World)
    → IsHealthy w
    → Runs w (returned (count_in r w.db.room_users)) w.db (get_player_count r w)
unfolding get_player_count query exec pure ◌>>=◌
get_player_count-Runs r w h = commit-Runs _ _ w h _ w.db refl

find_all_open-Runs :
    (w : World)
    → IsHealthy w
    → Runs w (read_listings (open_rooms w.db.rooms)) w.db (find_all_open w)
unfolding find_all_open query exec pure ◌>>=◌
find_all_open-Runs w h = commit-Runs [] _ w h _ w.db refl

count_players-Runs :
    (ls : List RoomListing) (db : Db) (w : World)
    → w.db ≡ db
    → IsHealthy w
    → Runs w (returned (with_players db ls)) db (count_players ls w)
unfolding count_players
count_players-Runs [] db w e h = return-Runs [] w db e h
count_players-Runs (l ∷ ls) db w e h =
    bind-Runs (get_player_count l.room_id) _ w (count_in l.room_id db.room_users) _ db db
      (subst
        (λ d. Runs w (returned (count_in l.room_id d.room_users)) d (get_player_count l.room_id w))
        e (get_player_count-Runs l.room_id w h))
      λ v same hv.
        bind-Runs (count_players ls) _ v (with_players db ls) _ db db
          (count_players-Runs ls db v same hv) λ u same' hu. return-Runs _ u db same' hu

after_rows :
    (w : World) (o : Outcome (List RoomListing))
    → Runs w o w.db (find_all_open w)
    → Runs w (returned (listing w.db o)) w.db (list_all_rooms w)
unfolding list_all_rooms
after_rows w threw r =
    catching-Runs (error list_raised) _ w threw w.db (bind-Runs_threw find_all_open _ w w.db r)
after_rows w (returned ls) r =
    catching-Runs (error list_raised) _ w (returned (listed_rooms (with_players w.db ls))) w.db (
      bind-Runs find_all_open _ w ls _ w.db w.db r λ v same hv.
        bind-Runs (count_players ls) _ v (with_players w.db ls) _ w.db w.db
          (count_players-Runs ls w.db v same hv) λ u same' hu. return-Runs _ u w.db same' hu)

-- Where no statement throws and every connection can be made, `listRooms` answers with the rooms that
-- `findAllOpen` reads, each with the number of its players, and changes no table; if one of the rooms has
-- no address or no port, the answer is an error instead.
pub list_all_rooms-Runs :
    (w : World)
    → IsHealthy w
    → Runs w
        (returned (listing w.db (read_listings (open_rooms w.db.rooms))))
        w.db
        (list_all_rooms w)
unfolding list_all_rooms
list_all_rooms-Runs w h = after_rows w _ (find_all_open-Runs w h)
