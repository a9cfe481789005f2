-- ===== src/RoomService/Consistency.antt =====
-- Requests about rooms keep the tables consistent (MatchingServer/src/service/room_service.cpp).
use back_end_doc.Common.{
  ℕ, ◌≤◌, ◌≡◌, Bytes, returned, Bool, true, false, not, ◌||◌, Option, none, some, List, [], ◌∷◌,
  arith,
}
use back_end_doc.Names.{is_valid_room_name}
use back_end_doc.Request.{
  Request, contains, get, get_int, ActionName, create_room, join_room, exit_room, list_rooms,
}
use back_end_doc.Response.{
  error, created_room, joined_room, exited_room, listed_rooms, missing_fields, bad_room_name,
  bad_max_players, create_room_raised, join_raised, exit_raised, list_raised, unknown_room_action,
  create_room_failed, join_failed, not_in_a_room,
}
use back_end_doc.RoomRepository.{
  RoomInfo, RoomListing, create_room_with_host, add_player, remove_player, get_player_count,
  find_all_open,
}
use back_end_doc.RoomRepository.Consistent.{IsConsistent}
use back_end_doc.World.{World}
use back_end_doc.World.Keeps.{
  Keeps, Keeps-return, Keeps-if, Keeps-catching, Keeps-bind-lift, Keeps-bind,
}
use back_end_doc.RoomService.{
  out_of_range, create_result, try_create, create_room_for, join_result, try_join, join_room_for,
  exit_result, try_exit, exit_room_for, count_players, list_all_rooms, handle_room,
}
use back_end_doc.RoomService.Rooms.{in_range}
use back_end_doc.Stable.{
  IsStable, create_room-Keeps, add_player-Keeps, remove_player-Keeps, count-Keeps, open-Keeps,
}
use back_end_doc.Db.{Db}
use back_end_doc.Stable.Consistent.{consistent}

-- What the user of a request does to rooms keeps `P`.
pub record IsKept (P : Db → Type 0) (r : Request) : Type 0 where
  pub opens :
      (host : ℕ) (name : Bytes) (max : ℕ)
      → get_int r.user_id ≡ returned host
      → 1 ≤ max
      → Keeps P (create_room_with_host host name max)
  pub joins : (room user : ℕ) → get_int r.user_id ≡ returned user → Keeps P (add_player room user)
  pub leaves : (user : ℕ) → get_int r.user_id ≡ returned user → Keeps P (remove_player user)

module _ {P : Db → Type 0} (r : Request) (kept : IsKept P r) where
  create_result-Keeps : (o : Option RoomInfo) → Keeps P (create_result o)
  unfolding create_result
  create_result-Keeps none = Keeps-return P (error create_room_failed)
  create_result-Keeps (some i) = Keeps-return P (created_room i)

  create_room_for-Keeps : Keeps P (create_room_for r)
  unfolding create_room_for try_create
  create_room_for-Keeps = Keeps-catching P (error create_room_raised) _ (
      Keeps-if P
        (not (contains r.room_name) || not (contains r.user_id) || not (contains r.max_players)) _ _
        (λ _. Keeps-return P (error missing_fields))
        λ _. Keeps-bind-lift P (get r.room_name) _ λ name _.
          Keeps-if P (not (is_valid_room_name name)) _ _ (λ _. Keeps-return P (error bad_room_name))
            λ _.
              Keeps-if P (out_of_range r.max_players) _ _
                (λ _. Keeps-return P (error bad_max_players))
                λ er. Keeps-bind-lift P (get_int r.user_id) _ λ host eh.
                  Keeps-bind-lift P (get_int r.max_players) _ λ max em.
                    Keeps-bind P (create_room_with_host host name max) create_result
                      (kept.opens host name max eh
                        (omega (arith, (in_range r.max_players max er em).0)))
                      create_result-Keeps)

  join_result-Keeps : (id : ℕ) (b : Bool) → Keeps P (join_result id b)
  unfolding join_result
  join_result-Keeps id false = Keeps-return P (error join_failed)
  join_result-Keeps id true = Keeps-return P (joined_room id)

  join_room_for-Keeps : Keeps P (join_room_for r)
  unfolding join_room_for try_join
  join_room_for-Keeps = Keeps-catching P (error join_raised) _ (
      Keeps-if P (not (contains r.room_id) || not (contains r.user_id)) _ _
        (λ _. Keeps-return P (error missing_fields))
        λ _. Keeps-bind-lift P (get_int r.room_id) _ λ room _.
          Keeps-bind-lift P (get_int r.user_id) _ λ user eu.
            Keeps-bind P (add_player room user) (join_result room) (kept.joins room user eu)
              (join_result-Keeps room))

  exit_result-Keeps : (b : Bool) → Keeps P (exit_result b)
  unfolding exit_result
  exit_result-Keeps false = Keeps-return P (error not_in_a_room)
  exit_result-Keeps true = Keeps-return P exited_room

  exit_room_for-Keeps : Keeps P (exit_room_for r)
  unfolding exit_room_for try_exit
  exit_room_for-Keeps = Keeps-catching P (error exit_raised) _ (
      Keeps-if P (not (contains r.user_id)) _ _ (λ _. Keeps-return P (error missing_fields))
        λ _. Keeps-bind-lift P (get_int r.user_id) _ λ user eu.
          Keeps-bind P (remove_player user) exit_result (kept.leaves user eu) exit_result-Keeps)

  count_players-Keeps : (ls : List RoomListing) → Keeps P (count_players ls)
  unfolding count_players
  count_players-Keeps [] = Keeps-return P []
  count_players-Keeps (l ∷ ls) =
      Keeps-bind P (get_player_count l.room_id) _ (count-Keeps P l.room_id)
        λ n. Keeps-bind P (count_players ls) _ (count_players-Keeps ls) λ rest. Keeps-return P _

  list_all_rooms-Keeps : Keeps P list_all_rooms
  unfolding list_all_rooms
  list_all_rooms-Keeps = Keeps-catching P (error list_raised) _ (
      Keeps-bind P find_all_open _ (open-Keeps P) λ rooms.
        Keeps-bind P (count_players rooms) _ (count_players-Keeps rooms)
          λ listed. Keeps-return P (listed_rooms listed))

  pub user_room-Keeps : (a : ActionName) → Keeps P (handle_room a r)
  unfolding handle_room
  user_room-Keeps create_room = create_room_for-Keeps
  user_room-Keeps join_room = join_room_for-Keeps
  user_room-Keeps exit_room = exit_room_for-Keeps
  user_room-Keeps list_rooms = list_all_rooms-Keeps
  user_room-Keeps _ = Keeps-return P (error unknown_room_action)

pub handle_room-Keeps :
    {P : Db → Type 0} → IsStable P → (a : ActionName) (r : Request) → Keeps P (handle_room a r)
handle_room-Keeps st a r =
    user_room-Keeps r
      (record {
        opens = λ host name max e m. create_room-Keeps st host name max m;
        joins = λ room user e. add_player-Keeps st room user;
        leaves = λ user e. remove_player-Keeps st user;
      })
      a

-- From consistent tables: whatever the request, and whichever statement throws, the requests about
-- rooms keep every room within its number of players and every terminated room empty.
pub handle_room-IsConsistent :
    (a : ActionName) (r : Request) (w : World)
    → IsConsistent w.db
    → IsConsistent (handle_room a r w).1.db
handle_room-IsConsistent a r w = (handle_room-Keeps consistent a r).after w
