-- ===== src/RoomService/Shown.antt =====
-- A room that was created is in the list of rooms (MatchingServer/src/service/room_service.cpp).
use back_end_doc.Common.{
  arith, ℕ, ◌≡◌, refl, sym, ap, subst, ◌∙◌, true, false, some, List, [], ◌∷◌, returned, Bytes, All,
}
use back_end_doc.Db.{Db, Room, is_terminated, terminated}
use back_end_doc.Db.Query.{
  find_room, count_in, count_in-cons, find_room-room_id, rooms_of, least, terminated_ids, has_user,
  find_room-update_room,
}
use back_end_doc.Names.{is_valid_room_name}
use back_end_doc.Request.{Request, given, to_int}
use back_end_doc.Response.{ListedRoom, listed_rooms, created_room}
use back_end_doc.RoomRepository.{
  RoomInfo, RoomListing, reopened, read_room, open_rooms, create_room_with_host,
}
use back_end_doc.RoomRepository.Consistent.{IsConsistent}
use back_end_doc.RoomRepository.Healthy.{create_room_with_host-Runs}
use back_end_doc.RoomRepository.Outcomes.{with_room}
use back_end_doc.RoomService.{
  out_of_range, create_result, try_create, create_room_for, list_all_rooms,
}
use back_end_doc.RoomService.Listings.{with_players, listing, list_all_rooms-Runs}
use back_end_doc.World.{World, ◌>>=◌}
use back_end_doc.World.Healthy.{IsHealthy, Runs}
use back_end_doc.World.Sequence.{bind-Runs, return-Runs, catching-Runs}
use back_end_doc.RoomRepository.Shown.{
  Any, Any-map, Any-All, first, later, HasAddress, find_room-Any, open_rooms-Any, open_rooms-All,
  update_room-All, IsRowOf, rows-Reads,
}

-- An entry of the list: the room with the row `r` and so many players.
pub record Shows (r : Room) (players : ℕ) (x : ListedRoom) : Type 0 where
  pub row : IsRowOf r x.room
  pub count : x.current_players ≡ players

with_players-Any :
    (db : Db) (r : Room) (ls : List RoomListing)
    → Any (IsRowOf r) ls
    → Any (Shows r (count_in r.room_id db.room_users)) (with_players db ls)
with_players-Any db r [] a = elim a [ ]
with_players-Any db r (l ∷ ls) (first h) =
    first (record { row = h; count = ap (λ k. count_in k db.room_users) h.room_id })
with_players-Any db r (l ∷ ls) (later a) = later (with_players-Any db r ls a)

-- An open room is in the list of rooms, with the number of its players.
pub list_all_rooms-Any :
    (id : ℕ) (r : Room) (w : World)
    → IsHealthy w
    → All HasAddress w.db.rooms
    → find_room id w.db.rooms ≡ some r
    → is_terminated r.status ≡ false
    → (ls : List ListedRoom) × ((list_all_rooms w).0 ≡ returned (listed_rooms ls))
      × Any (Shows r (count_in r.room_id w.db.room_users)) ls
list_all_rooms-Any id r w h addresses hit open_ =
    let rows =
      rows-Reads (open_rooms w.db.rooms) (open_rooms-All HasAddress w.db.rooms addresses) in
    let answer = (list_all_rooms-Runs w h).outcome in
    let there =
      open_rooms-Any (λ x. x ≡ r) w.db.rooms
        (Any-map _ _ w.db.rooms (λ x e. (e, ap (λ y. is_terminated y.status) e ∙ open_))
          (find_room-Any id w.db.rooms r hit)) in
    (
      with_players w.db rows.listings,
      answer ∙ ap (λ o. returned (listing w.db o)) rows.read,
      with_players-Any w.db r rows.listings (rows.kept r there),
    )

-- What `createRoom` needs to succeed: a request with a valid name and capacity, of a user who exists and is
-- in no room, and a free room with an address.
pub record CanCreate (q : Request) (w : World) (id : ℕ) (r : Room) : Type 0 where
  pub name : Bytes
  pub user : ℕ
  pub capacity : ℕ
  pub name_given : q.room_name ≡ given name
  pub user_given : q.user_id ≡ given user
  pub capacity_given : q.max_players ≡ given capacity
  pub name_valid : is_valid_room_name name ≡ true
  pub in_range : out_of_range (given capacity) ≡ false
  pub alone : rooms_of (to_int user) w.db.room_users ≡ []
  pub known : has_user (to_int user) w.db.users ≡ true
  pub least_free : least (terminated_ids w.db.rooms) ≡ some id
  pub found : find_room id w.db.rooms ≡ some r
  pub free : r.status ≡ terminated
  pub addresses : All HasAddress w.db.rooms

-- The row of the new room.
abbrev pub new_row : {q : Request} {w : World} {id : ℕ} {r : Room} → CanCreate q w id r → Room
new_row {w} {r} c = reopened c.name (to_int c.user) (to_int c.capacity) w.now r

module _ (q : Request) (w : World) (id : ℕ) (r : Room) (h : IsHealthy w)
    (c : CanCreate q w id r) where
  after_create : Db
  after_create = with_room c.name (to_int c.user) (to_int c.capacity) w.now id w.db

  created_info : (a : HasAddress r) → RoomInfo
  created_info a = record {
    room_id = r.room_id;
    room_name = c.name;
    ip_address = a.ip;
    port = a.port;
    max_players = to_int c.capacity;
  }

  result-Runs :
      (info : RoomInfo) (v : World)
      → v.db ≡ after_create
      → IsHealthy v
      → Runs v (returned (created_room info)) after_create (create_result (some info) v)
  unfolding create_result
  result-Runs info v e hv = return-Runs (created_room info) v after_create e hv

  inserted :
      (a : HasAddress r)
      → Runs w
          (returned (some (created_info a)))
          after_create
          (create_room_with_host (to_int c.user) c.name (to_int c.capacity) w)
  unfolding after_create created_info read_room
  inserted a =
      subst
        (λ o.
          Runs w o after_create
            (create_room_with_host (to_int c.user) c.name (to_int c.capacity) w))
        (rw (a.ip_is, a.port_is) refl)
        (create_room_with_host-Runs (to_int c.user) id c.name (to_int c.capacity) r w h c.alone
          c.least_free c.found c.free c.known)

  create_room_for-Runs :
      (a : HasAddress r)
      → Runs w (returned (created_room (created_info a))) after_create (create_room_for q w)
  unfolding create_room_for try_create ◌>>=◌
  create_room_for-Runs a =
      catching-Runs _ _ w (returned (created_room (created_info a))) after_create (
        rw (c.name_given, c.user_given, c.capacity_given, c.name_valid, c.in_range)
          (bind-Runs (create_room_with_host (to_int c.user) c.name (to_int c.capacity))
            create_result w (some (created_info a)) _ after_create after_create (inserted a)
            (result-Runs (created_info a))))

  free_address : HasAddress r
  free_address = Any-All HasAddress r w.db.rooms (find_room-Any id w.db.rooms r c.found) c.addresses

  found_after : find_room id after_create.rooms ≡ some (new_row c)
  unfolding after_create
  found_after = ground (
    arith,
    c.found,
    find_room-update_room id id (reopened c.name (to_int c.user) (to_int c.capacity) w.now)
        w.db.rooms (λ x. refl),
  )

  one_player : IsConsistent w.db → count_in r.room_id after_create.room_users ≡ 1
  unfolding after_create
  one_player k =
      let same = find_room-room_id id w.db.rooms r c.found in
      let none_before = k.empty id r c.found c.free in
      rw same (
        ground (
          arith,
          none_before,
          count_in-cons id (record { room = id; user = to_int c.user }) w.db.room_users,
        ))

  addresses_after : All HasAddress after_create.rooms
  unfolding after_create
  addresses_after =
      update_room-All HasAddress id _ w.db.rooms
        (λ x a. record { ip = a.ip; ip_is = a.ip_is; port = a.port; port_is = a.port_is })
        c.addresses

  shown_in :
      IsConsistent w.db
      → (v : World) → IsHealthy v
      → v.db ≡ after_create
      → (ls : List ListedRoom) × ((list_all_rooms v).0 ≡ returned (listed_rooms ls))
        × Any (Shows (new_row c) 1) ls
  shown_in k v hv e =
      let (ls, answer, there) =
        list_all_rooms-Any id (new_row c) v hv
          (subst (λ d. All HasAddress d.rooms) (sym e) addresses_after)
          (ap (λ d. find_room id d.rooms) e ∙ found_after) refl in
      (
        ls,
        answer,
        subst (λ n. Any (Shows (new_row c) n) ls)
            (ap (λ d. count_in r.room_id d.room_users) e ∙ one_player k) there,
      )

  -- From consistent tables, where no statement throws, every connection can be made and every room has an
  -- address: on a valid request of a user who exists and is in no room, if a room is free, `createRoom`
  -- opens the free room of least id, and `listRooms` after it lists the room with the name, the host and
  -- the capacity of the request, as waiting, with one player.
  pub create_room_for-Any :
      IsConsistent w.db
      → ((info : RoomInfo) × ((create_room_for q w).0 ≡ returned (created_room info))
          × (info.room_id ≡ id))
        × ((ls : List ListedRoom) × ((list_all_rooms (create_room_for q w).1).0
              ≡ returned (listed_rooms ls))
            × Any (Shows (new_row c) 1) ls)
  unfolding created_info
  create_room_for-Any k =
      let run = create_room_for-Runs free_address in
      (
        (created_info free_address, run.outcome, find_room-room_id id w.db.rooms r c.found),
        shown_in k (create_room_for q w).1 run.healthy run.tables,
      )
