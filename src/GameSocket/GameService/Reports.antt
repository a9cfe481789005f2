-- ===== src/GameSocket/GameService/Reports.antt =====
-- What clients are told of games (GameSocketServer/src/service/game_service.cpp), and what has happened.
use back_end_doc.Common.{
  ℕ, ◌≡◌, ◌≢◌, refl, ap, sym, subst, inl, inr, Bool-cases, Bool, true, false, not, ◌||◌, some, List,
  [], ◌∷◌, ◌==◌, arith, if◌then◌else◌, Outcome, returned, threw,
}
use back_end_doc.Db.{Db, Room, minus_one}
use back_end_doc.Db.Query.{find_room}
use back_end_doc.Request.{Request, given, contains}
use back_end_doc.World.{World, Engine, Action, ◌>>=◌}
use back_end_doc.World.Binding.{bind_rule, catching_rule}
use back_end_doc.GameSocket.GameRepository.{Player, create_game}
use back_end_doc.GameSocket.GameRepository.Outcomes
use back_end_doc.GameSocket.GameRepository.Outcomes.{Joins, Started, with_game, create_game-Started}
use back_end_doc.GameSocket.GameService.{
  Message, Answer, error, started, start_failed, start_raised, missing_fields, no_users,
  start_result, with_users, try_start, start_game,
}

-- The answer to a game that was started; an id of -1 counts as a failure.
abbrev pub start_answer : ℕ → Answer
start_answer id = if id == minus_one then error start_failed else started id

-- Nothing has changed, or a game was added.
pub data Begins (e : Engine) (users : List Player) (before : Db)
    : Outcome Answer → Db → Type 0 where
  raises : Begins e users before threw before
  refuses : (m : Message) → Begins e users before (returned (error m)) before
  begins :
      {o : Outcome Answer} {after : Db} (r m : ℕ) (row : Room)
      → find_room r before.rooms ≡ some row
      → o ≡ returned (start_answer (e.next_game before.games))
      → Joins (e.next_game before.games) users (with_game e r m before) after
      → Begins e users before o after

start_result-is : (id : ℕ) (v : World) → start_result id v ≡ (returned (start_answer id), v)
unfolding start_result
start_result-is id v = elim (Bool-cases (id == minus_one)) [
  | inl wraps ↦ rw wraps refl
  | inr other ↦ rw other refl
]

module _ (users : List Player) (w : World) where
  abbrev Reports : Outcome Answer × World → Type 0
  Reports y = Begins w.engine users w.db y.0 y.1.db

  Reports-if :
      (b : Bool) (m n : Action Answer)
      → Reports (m w)
      → Reports (n w)
      → Reports ((if b then m else n) w)
  Reports-if true m n hm hn = hm
  Reports-if false m n hm hn = hn

  failed-Reports :
      (o : Outcome ℕ) (after : Db)
      → Started w.engine users w.db o after
      → o ≡ threw
      → Begins w.engine users w.db threw after
  failed-Reports o after Outcomes.raised e = raises
  failed-Reports o after Outcomes.refused e = absurd (cc)
  failed-Reports o after (Outcomes.started r m row hit eo ea) e = absurd (cc)

  begun :
      (o : Outcome ℕ) (after : Db) (id : ℕ)
      → Started w.engine users w.db o after
      → o ≡ returned id
      → Begins w.engine users w.db (returned (start_answer id)) after
  begun o after id Outcomes.raised e = absurd (cc)
  begun o after id Outcomes.refused e =
      let same : minus_one ≡ id = ground (arith) in
      subst (λ k. Begins w.engine users w.db (returned (start_answer k)) w.db) same
        (refuses start_failed)
  begun o after id (Outcomes.started r m row hit eo ea) e =
      let same : id ≡ w.engine.next_game w.db.games = ground (arith) in
      begins r m row hit (ap (λ k. returned (start_answer k)) same) ea

  created-Reports :
      (r : Request) → Reports ((create_game r.room_id r.map_id users >>= start_result) w)
  created-Reports r =
      let s = create_game-Started r.room_id r.map_id users w in
      bind_rule Reports (create_game r.room_id r.map_id users) start_result w (failed-Reports _ _ s)
        (λ id e. subst Reports (sym (start_result-is id _)) (begun _ _ id s e))

with_users-Reports :
    (r : Request) (users : List Player) (w : World) → Reports users w (with_users r (given users) w)
unfolding with_users
with_users-Reports r [] w = refuses no_users
with_users-Reports r (p ∷ ps) w = created-Reports (p ∷ ps) w r

tried :
    (users : List Player) (w : World) (r : Request) → Reports users w (try_start r (given users) w)
unfolding try_start
tried users w r =
    Reports-if users w (not (contains r.room_id) || not (contains r.map_id)) _ _
      (refuses missing_fields) (with_users-Reports r users w)

-- An exception of the body is one before the commit.
caught :
    (users : List Player) (w : World) (o : Outcome Answer) (after : Db)
    → Begins w.engine users w.db o after
    → o ≡ threw
    → Begins w.engine users w.db (returned (error start_raised)) after
caught users w o after raises e = refuses start_raised
caught users w o after (refuses m) e = absurd (cc)
caught users w o after (begins r m row hit eo ea) e = absurd (cc)

-- `startGame`, whatever statement throws: its exceptions are caught, and what it answers is what has
-- happened. It fails and changes nothing; or it adds a game to a room that exists, and for each element of
-- "users" that has both a user and a class, which are known, the user to the game, no user twice; then it
-- answers with the id of the game, which counts as a failure if it is -1.
pub start_game-Begins :
    (r : Request) (users : List Player) (w : World)
    → Begins w.engine users w.db
        (start_game r (given users) w).0
        (start_game r (given users) w).1.db
      × ((start_game r (given users) w).0 ≢ threw)
unfolding start_game
start_game-Begins r users w =
    catching_rule (λ y. Reports users w y × (y.0 ≢ threw)) (error start_raised)
      (try_start r (given users)) w
      (λ e. (caught users w _ _ (tried users w r) e, λ f. absurd (cc)))
      (λ a e. (
        subst (λ o. Begins w.engine users w.db o (try_start r (given users) w).1.db) e
            (tried users w r),
        λ f. absurd (cc),
      ))
