-- ===== src/GameService.antt =====
-- MatchingServer/src/service/game_service.cpp, and the dispatch of
-- MatchingServer/src/controller/game_controller.cpp.
pub mod Reports
pub mod Consistency
use back_end_doc.Common.{
  ℕ, Bool, true, false, not, ◌||◌, Option, none, some, ◌==◌, if◌then◌else◌, Outcome, returned,
  threw,
}
use back_end_doc.Db.{minus_one}
use back_end_doc.GameRepository.{GameResult, create_game, end_game}
use back_end_doc.Request.{Request, Field, contains, get_int, ActionName, game_start, game_end}
use back_end_doc.Response.{
  Response, error, started_game, ended_game, missing_fields, start_failed, start_raised, end_failed,
  end_raised, unknown_game_action,
}
use back_end_doc.World.{World, Action, return, lift, catching, ◌>>=◌}

-- The log line reads `response["roomId"]` as an `int` at the end of `endGame`, and
-- `request["roomId"]` at the end of `startGame`; both convert where the game was found.
start_result : GameResult → Action Response
start_result g =
    if g.game_id == minus_one
    then return (error start_failed)
    else return (started_game g.game_id g.users)

try_start : Request → Action Response
unfolding start_result
try_start r =
    if not (contains r.room_id) || not (contains r.map_id)
    then return (error missing_fields)
    else do result ← create_game r.room_id r.map_id; start_result result

unfoldable pub start_game : Request → Action Response
unfolding try_start
start_game r = catching (error start_raised) (try_start r)

end_result : GameResult → Action Response
end_result g =
    if g.game_id == minus_one
    then return (error end_failed)
    else return (ended_game g.room_id g.users)

try_end : Request → Action Response
unfolding end_result
try_end r =
    if not (contains r.game_id)
    then return (error missing_fields)
    else do id ← lift (get_int r.game_id); result ← end_game id; end_result result

unfoldable pub end_game_of : Request → Action Response
unfolding try_end
end_game_of r = catching (error end_raised) (try_end r)

-- `GameController::handleRequest`
unfoldable pub handle_game : ActionName → Request → Action Response
handle_game game_start r = start_game r
handle_game game_end r = end_game_of r
handle_game _ r = return (error unknown_game_action)
