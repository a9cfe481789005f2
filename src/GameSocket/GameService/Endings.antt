-- ===== src/GameSocket/GameService/Endings.antt =====
-- `endGame` of GameSocketServer/src/service/game_service.cpp: what is answered, and what has happened.
use back_end_doc.Common.{
  ℕ, ◌≡◌, refl, ◌∙◌, sym, subst, Bool, true, false, none, some, Outcome, returned,
}
use back_end_doc.Db.{Db, Room, Game}
use back_end_doc.Db.Query.{find_room, find_game}
use back_end_doc.Request.{Request, Field, absent, ill_typed, given, to_int}
use back_end_doc.World.{World, catching, ◌>>=◌}
use back_end_doc.World.Binding.{split_run}
use back_end_doc.World.Healthy.{IsHealthy}
use back_end_doc.World.Healthy
use back_end_doc.World.Leaky.{Leaks}
use back_end_doc.GameSocket.GameRepository.{end_game}
use back_end_doc.GameSocket.GameRepository.Endings.{
  Finished, no_game, no_room, finished, without_game, end_game-Finished,
}
use back_end_doc.GameSocket.GameService.{
  Answer, error, ended, end_failed, end_raised, end_result, try_end, end_game_of,
}

-- What `endGame` answers when the game is over: it reads "roomId" of the request for its log line, which
-- a request to end a game does not need.
abbrev pub end_answer : Field ℕ → Answer
end_answer (given n) = ended
end_answer absent = error end_raised
end_answer ill_typed = error end_raised

pub data Ends (id : ℕ) (room_id : Field ℕ) (w : World) : Outcome Answer × World → Type 0 where
  unknown_game :
      {y : Outcome Answer × World}
      → find_game id w.db.games ≡ none
      → Leaks w (error end_failed) y
      → Ends id room_id w y
  unknown_room :
      {y : Outcome Answer × World} (g : Game)
      → find_game id w.db.games ≡ some g
      → find_room g.room w.db.rooms ≡ none
      → Leaks w (error end_failed) y
      → Ends id room_id w y
  over :
      {y : Outcome Answer × World} (g : Game) (row : Room)
      → find_game id w.db.games ≡ some g
      → find_room g.room w.db.rooms ≡ some row
      → Healthy.Runs w (returned (end_answer room_id)) (without_game id g.room w.db) y
      → Ends id room_id w y

relayed :
    {w : World} {b : Bool} {a : Answer} {v : World} {y : Outcome Answer × World}
    → y ≡ (returned a, v)
    → Leaks w b (returned b, v)
    → Leaks w a y
relayed {w} e l = subst (Leaks w _) (sym e) (record {
  outcome = refl;
  tables = l.tables;
  one_more = l.one_more;
  healthy = l.healthy;
  engine = l.engine;
})

module _ (r : Request) (n : ℕ) (w : World) (h : IsHealthy w) (named : r.game_id ≡ given n) where
  reported :
      (b : Bool) (v : World)
      → end_game (to_int n) w ≡ (returned b, v)
      → end_game_of r w ≡ catching (error end_raised) (end_result r.room_id b) v
  unfolding end_game_of try_end catching ◌>>=◌
  reported b v e = rw (named, e) refl

  refused_end :
      (v : World)
      → catching (error end_raised) (end_result r.room_id false) v
        ≡ (returned (error end_failed), v)
  unfolding end_result catching
  refused_end v = refl

  answered_end :
      (o : Field ℕ) (v : World)
      → catching (error end_raised) (end_result o true) v ≡ (returned (end_answer o), v)
  unfolding end_result catching ◌>>=◌
  answered_end absent v = refl
  answered_end ill_typed v = refl
  answered_end (given k) v = refl

  refused_report :
      (v : World)
      → end_game (to_int n) w ≡ (returned false, v)
      → Leaks w false (end_game (to_int n) w)
      → Leaks w (error end_failed) (end_game_of r w)
  refused_report v e l = relayed (reported false v e ∙ refused_end v) (subst (Leaks w false) e l)

  over_report :
      (v : World) (db : Db)
      → end_game (to_int n) w ≡ (returned true, v)
      → Healthy.Runs w (returned true) db (end_game (to_int n) w)
      → Healthy.Runs w (returned (end_answer r.room_id)) db (end_game_of r w)
  over_report v db e h =
      let k = subst (Healthy.Runs w (returned true) db) e h in
      subst (Healthy.Runs w _ db) (sym (reported true v e ∙ answered_end r.room_id v)) (record {
        outcome = refl;
        tables = k.tables;
        healthy = k.healthy;
        engine = k.engine;
        clock = k.clock;
      })

  ended_report :
      Finished (to_int n) w (end_game (to_int n) w) → Ends (to_int n) r.room_id w (end_game_of r w)
  ended_report (no_game missing l) =
      unknown_game missing (refused_report _ (split_run _ _ l.outcome) l)
  ended_report (no_room g game missing l) =
      unknown_room g game missing (refused_report _ (split_run _ _ l.outcome) l)
  ended_report (finished g row game room k) =
      over g row game room (over_report _ _ (split_run _ _ k.outcome) k)

  -- `endGame` on the number of a game, where no statement throws and every connection can be made. If the
  -- game or its room is not there it fails, changes no table and has one more connection in use.
  -- Otherwise the game is completed and its room waits again, whatever its status was; but the answer is
  -- an error unless the request has a room's number, too.
  pub end_game_of-Ends : Ends (to_int n) r.room_id w (end_game_of r w)
  end_game_of-Ends = ended_report (end_game-Finished (to_int n) w h)
