-- ===== src/GameService/Reports.antt =====
-- What the game server is told about games (MatchingServer/src/service/game_service.cpp).
use back_end_doc.Common.{
  ℕ, ◌≡◌, refl, ap, Bool, true, false, not, ◌||◌, arith, if◌then◌else◌, Outcome, returned,
}
use back_end_doc.Db.{Db, minus_one}
use back_end_doc.GameRepository.{GameResult, create_game, end_game}
use back_end_doc.GameRepository.Outcomes
use back_end_doc.GameRepository.Outcomes.{Started, Ended, create_game-Started, end_game-Ended}
use back_end_doc.Request.{Request, contains, get_int}
use back_end_doc.Response.{
  Response, Message, error, missing_fields, start_failed, start_raised, end_failed, end_raised,
}
use back_end_doc.World.{World, Engine, Action, return, lift}
use back_end_doc.World.Binding.{bind_rule, catching_rule}
use back_end_doc.GameService.{start_result, try_start, start_game, end_result, try_end, end_game_of}

-- The answer is an error.
abbrev IsError : Response → Type 0
IsError a = (m : Message) × (a ≡ error m)

abbrev Refuses : Outcome Response × World → Type 0
Refuses r = (a : Response) → r.0 ≡ returned a → IsError a

Refuses-if :
    (b : Bool) (m n : Action Response) (w : World)
    → Refuses (m w)
    → Refuses (n w)
    → Refuses ((if b then m else n) w)
Refuses-if true m n w hm hn = hm
Refuses-if false m n w hm hn = hn

Refuses-error : (m : Message) (w : World) → Refuses (return (error m) w)
Refuses-error m w a e = (m, ground arith)

Started-id :
    {e : Engine} {db after : Db} {o : Outcome GameResult} (g : GameResult)
    → Started e db o after
    → o ≡ returned g
    → g.game_id ≡ minus_one
Started-id g Outcomes.raised h = absurd (cc)
Started-id g Outcomes.refused h = ground arith
Started-id g (Outcomes.started r m row hit eo ea) h = ground arith

Ended-id :
    {id : ℕ} {db after : Db} {o : Outcome GameResult} (g : GameResult)
    → Ended id db o after
    → o ≡ returned g
    → g.game_id ≡ minus_one
Ended-id g Outcomes.raised h = absurd (cc)
Ended-id g Outcomes.refused h = ground arith
Ended-id g (Outcomes.ended x hit eo ea) h = ground arith

start_result-Refuses :
    (g : GameResult) (w : World) → g.game_id ≡ minus_one → Refuses (start_result g w)
unfolding start_result
start_result-Refuses g w h a e = (start_failed, ground arith)

end_result-Refuses : (g : GameResult) (w : World) → g.game_id ≡ minus_one → Refuses (end_result g w)
unfolding end_result
end_result-Refuses g w h a e = (end_failed, ground arith)

try_start-Refuses : (r : Request) (w : World) → Refuses (try_start r w)
unfolding try_start
try_start-Refuses r w =
    Refuses-if (not (contains r.room_id) || not (contains r.map_id)) _ _ w
      (Refuses-error missing_fields w)
      (bind_rule Refuses (create_game r.room_id r.map_id) start_result w (λ e a h. absurd (cc))
        (λ g e.
          start_result-Refuses g _ (Started-id g (create_game-Started r.room_id r.map_id w) e)))

try_end-Refuses : (r : Request) (w : World) → Refuses (try_end r w)
unfolding try_end
try_end-Refuses r w = Refuses-if (not (contains r.game_id)) _ _ w (Refuses-error missing_fields w) (
    bind_rule Refuses (lift (get_int r.game_id)) _ w (λ e a h. absurd (cc))
      (λ id e.
        bind_rule Refuses (end_game id) end_result w (λ e a h. absurd (cc))
          (λ g e. end_result-Refuses g _ (Ended-id g (end_game-Ended id w) e))))

-- `startGame` always answers with an error, whether the game was written to the tables or not.
pub start_game-error :
    (r : Request) (w : World) → (m : Message) × ((start_game r w).0 ≡ returned (error m))
unfolding start_game
start_game-error r w =
    catching_rule (λ x. (m : Message) × (x.0 ≡ returned (error m))) (error start_raised)
      (try_start r) w (λ e. (start_raised, refl))
      (λ a e. let (m, h) = try_start-Refuses r w a e in (m, ap returned h))

-- `endGame` always answers with an error, whether the game was completed or not.
pub end_game_of-error :
    (r : Request) (w : World) → (m : Message) × ((end_game_of r w).0 ≡ returned (error m))
unfolding end_game_of
end_game_of-error r w =
    catching_rule (λ x. (m : Message) × (x.0 ≡ returned (error m))) (error end_raised) (try_end r) w
      (λ e. (end_raised, refl)) (λ a e. let (m, h) = try_end-Refuses r w a e in (m, ap returned h))
