-- ===== src/GameSocket/GameService.antt =====
-- GameSocketServer/src/service/game_service.cpp. The handlers of
-- GameSocketServer/src/controller/game_controller.cpp pass a request on to it.
pub mod Reports
pub mod Endings
use back_end_doc.Common.{
  ℕ, Bool, true, false, not, ◌||◌, List, [], ◌∷◌, ◌==◌, if◌then◌else◌, Outcome, returned, threw,
}
use back_end_doc.Db.{minus_one}
use back_end_doc.Request.{Request, Field, absent, ill_typed, given, contains, get_int}
use back_end_doc.World.{World, Action, return, lift, catching, ◌>>=◌}
use back_end_doc.GameSocket.GameRepository.{Player, create_game, end_game}

pub data Message : Type 0 where
  missing_fields users_no_list no_users start_failed start_raised end_failed end_raised : Message

pub data Answer : Type 0 where
  error : Message → Answer
  started : ℕ → Answer
  ended : Answer

-- The log line reads "roomId" as an `int`, which `createGame` has done.
start_result : ℕ → Action Answer
start_result id = if id == minus_one then return (error start_failed) else return (started id)

with_users : Request → Field (List Player) → Action Answer
unfolding start_result
with_users r absent = return (error missing_fields)
with_users r ill_typed = return (error users_no_list)
with_users r (given []) = return (error no_users)
with_users r (given (p ∷ ps)) = do id ← create_game r.room_id r.map_id (p ∷ ps); start_result id

-- `users` is "users": `ill_typed` if it is no array.
try_start : Request → Field (List Player) → Action Answer
unfolding with_users
try_start r users =
    if not (contains r.room_id) || not (contains r.map_id)
    then return (error missing_fields)
    else with_users r users

unfoldable pub start_game : Request → Field (List Player) → Action Answer
unfolding try_start
start_game r users = catching (error start_raised) (try_start r users)

-- The log line reads "roomId" as an `int`: what it throws comes after the commit.
end_result : Field ℕ → Bool → Action Answer
end_result room_id false = return (error end_failed)
end_result room_id true = do _ ← lift (get_int room_id); return ended

try_end : Request → Action Answer
unfolding end_result
try_end r =
    if not (contains r.game_id)
    then return (error missing_fields)
    else do id ← lift (get_int r.game_id); done ← end_game id; end_result r.room_id done

unfoldable pub end_game_of : Request → Action Answer
unfolding try_end
end_game_of r = catching (error end_raised) (try_end r)
