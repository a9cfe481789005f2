-- ===== src/RoomRepository.antt =====
-- MatchingServer/src/repository/room_repository.cpp: rooms and who is in them. The text of each SQL
-- statement is a function of the tables; new rows of `room_users` stand first, since SQL fixes no
-- order. `max_players` is not negative.
pub mod Consistent
pub mod Reading
pub mod Healthy
pub mod Listing
pub mod Shown
pub mod Outcomes
use back_end_doc.Common.{
  ℕ, ◌≡◌, Bool, true, false, not, ◌||◌, Option, none, some, List, [], ◌∷◌, ◌==◌, leb, if◌then◌else◌,
  member, is_empty, Outcome, returned, threw, Bytes,
}
use mathlib.Core.Option
use back_end_doc.Db.{
  Db, Room, RoomStatus, RoomUser, waiting, game_in_progress, terminated, is_terminated, is_waiting,
  minus_one,
}
use back_end_doc.Db.Query.{
  find_room, update_room, terminated_ids, least, rooms_of, players_in, count_in, delete_user,
  has_user, complete_games_of,
}
use back_end_doc.Db.Transaction.{Txn, Verdict, commit, abort, exec, query, update, pure, ◌>>=◌}
use back_end_doc.World.{World, Action, transact}

-- The answer of `createRoomWithHost`; `roomId` -1 is `none` of an option.
pub record RoomInfo : Type 0 where
  pub room_id : ℕ
  pub room_name : Bytes
  pub ip_address : Bytes
  pub port : ℕ
  pub max_players : ℕ

-- The reading of the returned row: `as<std::string>()` and `as<int>()` throw on NULL.
unfoldable pub read_room : Room → Outcome (Option RoomInfo)
read_room r = elim r.ip_address [
  | none ↦ threw
  | some ip ↦ elim r.port [
    | none ↦ threw
    | some port ↦ returned (
        some (record {
          room_id = r.room_id;
          room_name = r.room_name;
          ip_address = ip;
          port = port;
          max_players = r.max_players;
        }))
  ]
]

-- SET room_name = $1, host_id = $2, max_players = $3, status = 'WAITING', created_at = DEFAULT
abbrev pub reopened : Bytes → ℕ → ℕ → ℕ → Room → Room
reopened name host max now r = record r {
  room_name = name;
  host_id = host;
  max_players = max;
  status = waiting;
  created_at = now;
}

-- UPDATE rooms ... WHERE room_id = $4 AND status = 'TERMINATED' RETURNING ...; `host_id` references
-- a user.
unfoldable pub reactivate : Bytes → ℕ → ℕ → ℕ → ℕ → Db → Option (Option Room × Db)
reactivate name host max now id db = elim (find_room id db.rooms) [
  | none ↦ some (none, db)
  | some r ↦
      if not (is_terminated r.status)
      then some (none, db)
      else if not (has_user host db.users)
      then none
      else some (
        some (reopened name host max now r),
        record db { rooms = update_room id (reopened name host max now) db.rooms },
      )
]

-- INSERT INTO room_users(room_id, user_id) VALUES($1, $2) RETURNING room_id: both ids are foreign
-- keys, and the pair is the primary key.
unfoldable pub insert_room_user : ℕ → ℕ → Db → Option (List ℕ × Db)
insert_room_user r u db = elim (find_room r db.rooms) [
  | none ↦ none
  | some _ ↦
      if not (has_user u db.users) || member u (players_in r db.room_users)
      then none
      else some (r ∷ [], record db { room_users = record { room = r; user = u } ∷ db.room_users })
]

-- The reactivated row, if there is one; then the host is put into the room.
host_joins : ℕ → ℕ → Option Room → Txn (Verdict (Option RoomInfo))
host_joins id host none = pure (abort none)
host_joins id host (some row) = do
  _ ← exec (insert_room_user id host)
  pure (commit (read_room row))

create_in : Bytes → ℕ → ℕ → ℕ → Option ℕ → Txn (Verdict (Option RoomInfo))
unfolding host_joins
create_in name host max now none = pure (abort none)
create_in name host max now (some id) = do
  row ← exec (reactivate name host max now id)
  host_joins id host row

create_body : ℕ → Bytes → ℕ → ℕ → Txn (Verdict (Option RoomInfo))
unfolding create_in
create_body host name max now = do
  joined ← query (λ db. rooms_of host db.room_users)
  if not (is_empty joined)
      then pure (abort none)
      else do id ← query (λ db. least (terminated_ids db.rooms)); create_in name host max now id

unfoldable pub create_room_with_host : ℕ → Bytes → ℕ → Action (Option RoomInfo)
unfolding create_body
create_room_with_host host name max w = transact none (create_body host name max w.now) w

-- The test of the room's capacity; row 0 of an empty result throws.
unfoldable pub capacity_of : ℕ → Db → Option ((ℕ × ℕ) × Db)
capacity_of r db =
    Option.map (λ row. ((row.max_players, count_in r db.room_users), db)) (find_room r db.rooms)

add_if_room : ℕ → ℕ → ℕ → ℕ → Txn (Verdict Bool)
add_if_room r u max current = if leb max current then pure (abort false) else do
  result ← exec (insert_room_user r u)
  if is_empty result then pure (abort false) else pure (commit (returned true))

add_to : ℕ → ℕ → Option Room → Txn (Verdict Bool)
unfolding add_if_room
add_to r u none = pure (abort false)
add_to r u (some row) = if not (is_waiting row.status) then pure (abort false) else do
  joined ← query (λ db. member u (players_in r db.room_users))
  if joined
      then pure (abort false)
      else do seats ← exec (capacity_of r); add_if_room r u seats.0 seats.1

add_body : ℕ → ℕ → Txn (Verdict Bool)
unfolding add_to
add_body r u = do room ← query (λ db. find_room r db.rooms); add_to r u room

unfoldable pub add_player : ℕ → ℕ → Action Bool
unfolding add_body
add_player room_id user_id = transact false (add_body room_id user_id)

-- UPDATE rooms SET status = 'TERMINATED' WHERE room_id = $1
abbrev pub closed : Room → Room
closed r = record r { status = terminated }

close_room : ℕ → Txn (Verdict Bool)
close_room r = do
  _ ← update (λ db. record db { rooms = update_room r closed db.rooms })
  _ ← update (λ db. record db { games = complete_games_of r db.games })
  pure (commit (returned true))

remove_from : ℕ → List ℕ → Txn (Verdict Bool)
unfolding close_room
remove_from u [] = pure (abort false)
remove_from u (r ∷ _) = do
  _ ← update (λ db. record db { room_users = delete_user u db.room_users })
  remaining ← query (λ db. count_in r db.room_users)
  if remaining == 0 then close_room r else pure (commit (returned true))

remove_body : ℕ → Txn (Verdict Bool)
unfolding remove_from
remove_body u = do rooms ← query (λ db. rooms_of u db.room_users); remove_from u rooms

unfoldable pub remove_player : ℕ → Action Bool
unfolding remove_body
remove_player user_id = transact false (remove_body user_id)

unfoldable pub get_player_count : ℕ → Action ℕ
get_player_count room_id =
    transact minus_one
      (do n ← query (λ db. count_in room_id db.room_users); pure (commit (returned n)))

unfoldable pub get_players_in_room : ℕ → Action (List ℕ)
get_players_in_room room_id =
    transact []
      (do ids ← query (λ db. players_in room_id db.room_users); pure (commit (returned ids)))

-- A row of the list of rooms.
pub record RoomListing : Type 0 where
  pub room_id : ℕ
  pub room_name : Bytes
  pub host_id : ℕ
  pub ip_address : Bytes
  pub port : ℕ
  pub max_players : ℕ
  pub status : RoomStatus
  pub created_at : ℕ

read_listing : Room → Outcome RoomListing
read_listing r = elim r.ip_address [
  | none ↦ threw
  | some ip ↦ elim r.port [
    | none ↦ threw
    | some port ↦ returned (record {
      room_id = r.room_id;
      room_name = r.room_name;
      host_id = r.host_id;
      ip_address = ip;
      port = port;
      max_players = r.max_players;
      status = r.status;
      created_at = r.created_at;
    })
  ]
]

-- ORDER BY created_at DESC
unfoldable pub insert_newest : Room → List Room → List Room
insert_newest r [] = r ∷ []
insert_newest r (s ∷ rs) =
    if leb s.created_at r.created_at then r ∷ s ∷ rs else s ∷ insert_newest r rs

-- WHERE status = 'WAITING' OR status = 'GAME_IN_PROGRESS'
pub open_rooms : List Room → List Room
unfolding insert_newest
open_rooms [] = []
open_rooms (r ∷ rs) =
    let rest = open_rooms rs in if is_terminated r.status then rest else insert_newest r rest

read_first : Outcome RoomListing → Outcome (List RoomListing) → Outcome (List RoomListing)
read_first (returned l) (returned ls) = returned (l ∷ ls)
read_first (returned l) threw = threw
read_first threw rest = threw

unfoldable pub read_listings : List Room → Outcome (List RoomListing)
unfolding read_listing read_first
read_listings [] = returned []
read_listings (r ∷ rs) = read_first (read_listing r) (read_listings rs)

unfoldable pub find_all_open : Action (List RoomListing)
unfolding open_rooms read_listings
find_all_open =
    transact [] (do rows ← query (λ db. open_rooms db.rooms); pure (commit (read_listings rows)))
