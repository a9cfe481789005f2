-- ===== src/GameService/Consistency.antt =====
-- Requests about games keep the tables of rooms consistent (MatchingServer/src/service/game_service.cpp).
use back_end_doc.Common.{not, ◌||◌, ◌==◌}
use back_end_doc.Db.{Db, minus_one}
use back_end_doc.GameRepository.{create_game, end_game}
use back_end_doc.GameService.{
  start_result, try_start, start_game, end_result, try_end, end_game_of, handle_game,
}
use back_end_doc.Request.{Request, contains, get_int, ActionName, game_start, game_end}
use back_end_doc.Response.{
  error, started_game, ended_game, missing_fields, start_failed, start_raised, end_failed,
  end_raised, unknown_game_action,
}
use back_end_doc.World.Keeps.{
  Keeps, Keeps-return, Keeps-if, Keeps-catching, Keeps-bind-lift, Keeps-bind,
}
use back_end_doc.Stable.{IsGameStable, create_game-Keeps, end_game-Keeps}
use back_end_doc.Db.{Db}

module _ {P : Db → Type 0} (st : IsGameStable P) where
  start_game-Keeps : (r : Request) → Keeps P (start_game r)
  unfolding start_game try_start start_result
  start_game-Keeps r = Keeps-catching P (error start_raised) _ (
      Keeps-if P (not (contains r.room_id) || not (contains r.map_id)) _ _
        (λ _. Keeps-return P (error missing_fields))
        λ _.
          Keeps-bind P (create_game r.room_id r.map_id) start_result
            (create_game-Keeps st r.room_id r.map_id)
            λ g.
              Keeps-if P (g.game_id == minus_one) _ _ (λ _. Keeps-return P (error start_failed))
                λ _. Keeps-return P (started_game g.game_id g.users))

  end_game_of-Keeps : (r : Request) → Keeps P (end_game_of r)
  unfolding end_game_of try_end end_result
  end_game_of-Keeps r = Keeps-catching P (error end_raised) _ (
      Keeps-if P (not (contains r.game_id)) _ _ (λ _. Keeps-return P (error missing_fields))
        λ _. Keeps-bind-lift P (get_int r.game_id) _ λ id _.
          Keeps-bind P (end_game id) end_result (end_game-Keeps st id) λ g.
            Keeps-if P (g.game_id == minus_one) _ _ (λ _. Keeps-return P (error end_failed))
              λ _. Keeps-return P (ended_game g.room_id g.users))

  pub handle_game-Keeps : (a : ActionName) (r : Request) → Keeps P (handle_game a r)
  unfolding handle_game
  handle_game-Keeps game_start r = start_game-Keeps r
  handle_game-Keeps game_end r = end_game_of-Keeps r
  handle_game-Keeps _ r = Keeps-return P (error unknown_game_action)
