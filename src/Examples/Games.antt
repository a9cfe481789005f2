-- ===== src/Examples/Games.antt =====
-- Tests of the games.
use back_end_doc.Common.{◌≡◌, ◌≢◌, refl, returned, threw, List, [], ◌∷◌}
use back_end_doc.GameSocket.GameService
use back_end_doc.GameSocket.GameRepository.{Player, no_object, player}
use back_end_doc.GameSocket.GameService.Reports.{Begins, start_game-Begins}
use back_end_doc.GameSocket.GameService.Endings.{Ends, end_game_of-Ends}
use back_end_doc.GameService.{start_game}
use back_end_doc.GameService.Reports.{start_game-error}
use back_end_doc.Request.{absent, given}
use back_end_doc.Response.{Message, error}
use back_end_doc.Examples.{
  sample_engine, sample_db, sample_world, sample_request, sample_world-IsHealthy,
}

start_game-error_example :
    (m : Message) × ((start_game sample_request sample_world).0 ≡ returned (error m))
start_game-error_example = start_game-error sample_request sample_world

-- Two of these elements of "users" have no user.
abbrev some_players : List Player
some_players = no_object ∷ player (given 3) (given 1) ∷ player absent (given 1) ∷ []

start_game-Begins_example :
    Begins sample_engine some_players sample_db
      (GameService.start_game sample_request (given some_players) sample_world).0
      (GameService.start_game sample_request (given some_players) sample_world).1.db
    × ((GameService.start_game sample_request (given some_players) sample_world).0 ≢ threw)
start_game-Begins_example = start_game-Begins sample_request some_players sample_world

-- Game 1 is played in room 3, and the request names a room, too.
end_game_of-Ends_example :
    Ends 1 (given 1) sample_world (GameService.end_game_of sample_request sample_world)
end_game_of-Ends_example =
    end_game_of-Ends sample_request 1 sample_world sample_world-IsHealthy refl
