-- ===== src/GameSocket/RoomRepository.antt =====
-- GameSocketServer/src/repository/room_repository.cpp. Where a statement is one of the matching
-- server's, so is the function of the tables.
pub mod Outcomes
use back_end_doc.Common.{
  ℕ, Bool, true, false, not, Option, none, some, List, [], ◌∷◌, ◌==◌, leb, if◌then◌else◌, member,
  is_empty, Outcome, returned, Bytes,
}
use back_end_doc.Db.{Db, Room, is_waiting, minus_one}
use back_end_doc.Db.Query.{
  find_room, update_room, terminated_ids, least, rooms_of, players_in, count_in, delete_user,
}
use back_end_doc.Db.Transaction.{Txn, Verdict, commit, abort, exec, query, update, pure, ◌>>=◌}
use back_end_doc.RoomRepository
use back_end_doc.RoomRepository.{
  RoomListing, reactivate, insert_room_user, capacity_of, closed, insert_newest, read_listings,
}
use back_end_doc.World.{World, Action, transact}

or_minus_one : Option ℕ → ℕ
or_minus_one none = minus_one
or_minus_one (some id) = id

unfoldable pub find_valid_room : Action ℕ
unfolding or_minus_one
find_valid_room = transact minus_one (do
  id ← query (λ db. least (terminated_ids db.rooms))
  pure (commit (returned (or_minus_one id))))

created : Option Room → Txn (Verdict Bool)
created none = pure (abort false)
created (some _) = pure (commit (returned true))

-- The reactivation is a transaction of its own.
unfoldable pub create : ℕ → ℕ → Bytes → ℕ → Action Bool
unfolding created
create host id name max w =
    transact false (do row ← exec (reactivate name host max w.now id); created row) w

add_if_room : ℕ → ℕ → ℕ → ℕ → Txn (Verdict Bool)
add_if_room r u max current =
    if leb max current
    then pure (abort false)
    else do result ← exec (insert_room_user r u); pure (commit (returned (not (is_empty result))))

add_to : ℕ → ℕ → Option Room → Txn (Verdict Bool)
unfolding add_if_room
add_to r u none = pure (abort false)
add_to r u (some row) = if not (is_waiting row.status) then pure (abort false) else do
  joined ← query (λ db. member u (players_in r db.room_users))
  if joined
      then pure (abort false)
      else do seats ← exec (capacity_of r); add_if_room r u seats.0 seats.1

unfoldable pub add_player : ℕ → ℕ → Action Bool
unfolding add_to
add_player r u = transact false (do room ← query (λ db. find_room r db.rooms); add_to r u room)

terminate : ℕ → Txn (Verdict Bool)
terminate r = do
  _ ← update (λ db. record db { rooms = update_room r closed db.rooms })
  pure (commit (returned true))

terminate_empty : ℕ → ℕ → Txn (Verdict Bool)
unfolding terminate
terminate_empty r remaining = if remaining == 0 then terminate r else pure (commit (returned true))

remove_from : ℕ → List ℕ → Txn (Verdict Bool)
unfolding terminate_empty
remove_from u [] = pure (commit (returned false))
remove_from u (r ∷ _) = do
  _ ← update (λ db. record db { room_users = delete_user u db.room_users })
  remaining ← query (λ db. count_in r db.room_users)
  terminate_empty r remaining

unfoldable pub remove_player : ℕ → Action Bool
unfolding remove_from
remove_player u =
    transact false (do rooms ← query (λ db. rooms_of u db.room_users); remove_from u rooms)

unfoldable pub get_player_count : ℕ → Action ℕ
get_player_count = RoomRepository.get_player_count

unfoldable pub get_players_in_room : ℕ → Action (List ℕ)
get_players_in_room = RoomRepository.get_players_in_room

-- WHERE status = 'WAITING' ORDER BY created_at DESC
unfoldable pub waiting_rooms : List Room → List Room
waiting_rooms [] = []
waiting_rooms (r ∷ rs) =
    let rest = waiting_rooms rs in if is_waiting r.status then insert_newest r rest else rest

unfoldable pub find_all_open : Action (List RoomListing)
unfolding waiting_rooms
find_all_open =
    transact [] (do rows ← query (λ db. waiting_rooms db.rooms); pure (commit (read_listings rows)))
