-- ===== src/GameSocket/GameRepository/Endings.antt =====
-- `endGame` of GameSocketServer/src/repository/game_repository.cpp: its tables, and its connection.
use back_end_doc.Common.{
  ℕ, ◌≡◌, ◌⊎◌, refl, ap, sym, ◌∙◌, inl, inr, Bool, true, false, not, Option, none, some, List, ◌==◌,
  arith, Outcome, returned, threw, Option-cases,
}
use back_end_doc.Db.{Db, Room, Game}
use back_end_doc.Db.Query.{find_room-room_id, find_room, update_room, find_game, complete_game}
use back_end_doc.Db.Transaction.{
  commit, exec, Yields, exec-Yields, if-Yields, pure-Yields, pure, ◌>>=◌,
}
use back_end_doc.GameRepository.{finish_game}
use back_end_doc.World.{World}
use back_end_doc.World.Healthy.{IsHealthy}
use back_end_doc.World.Healthy
use back_end_doc.World.Leaky.{
  Leaks, kept-Leaks, settled-Runs, Ending, settled, kept, Ends, leaky_rule,
}
use back_end_doc.GameSocket.GameRepository.{waits_again, mark_waiting, reopened, reopen, end_game}

-- The tables after the end of game `id` in room `r`.
abbrev pub without_game : ℕ → ℕ → Db → Db
without_game id r db = record db {
  games = complete_game id db.games;
  rooms = update_room r waits_again db.rooms;
}

pub data Ended (id : ℕ) (before : Db) : Outcome Bool → Db → Type 0 where
  raised : Ended id before threw before
  refused : Ended id before (returned false) before
  ended :
      {o : Outcome Bool} {after : Db} (g : Game) (row : Room)
      → find_game id before.games ≡ some g
      → find_room g.room before.rooms ≡ some row
      → o ≡ returned true
      → after ≡ without_game id g.room before
      → Ended id before o after

module _ (id : ℕ) (db : Db) where
  abbrev Finishes : Ending Bool → Db → Type 0
  Finishes = Ends (Ended id db) db

  finish_game_split :
      (r : ℕ) (db' : Db)
      → finish_game id db ≡ some (some r, db')
      → (g : Game) × (find_game id db.games ≡ some g)
        × (r ≡ g.room)
        × (db' ≡ record db { games = complete_game id db.games })
  unfolding finish_game
  finish_game_split r db' h = elim (Option-cases (find_game id db.games)) [
    | inl missing ↦ absurd (ground (arith))
    | inr (g, hit) ↦ (g, hit, ground (arith), ground (arith))
  ]

  mark_waiting_split :
      (r : ℕ) (o : Option ℕ) (db₁ db₂ : Db)
      → mark_waiting r db₁ ≡ some (o, db₂)
      → (o ≡ none)
        ⊎ ((row : Room) × (find_room r db₁.rooms ≡ some row)
            × (db₂ ≡ record db₁ { rooms = update_room r waits_again db₁.rooms }))
  unfolding mark_waiting
  mark_waiting_split r o db₁ db₂ h = elim (Option-cases (find_room r db₁.rooms)) [
    | inl missing ↦ inl (ground (arith))
    | inr (row, hit) ↦ inr (row, hit, ground (arith))
  ]

  reopened-Ended :
      (r : ℕ) (o : Option ℕ) (db₁ db₂ : Db) (fs : List Bool)
      → finish_game id db ≡ some (some r, db₁)
      → mark_waiting r db₁ ≡ some (o, db₂)
      → Yields Finishes (reopened r o db₂ fs)
  unfolding reopened
  reopened-Ended r none db₁ db₂ fs f m = pure-Yields Finishes (kept false) db₂ fs refused
  reopened-Ended r (some j) db₁ db₂ fs f m =
      if-Yields Finishes db₂ fs (not (r == j)) _ _
        (λ differ. pure-Yields Finishes (kept false) db₂ fs refused)
        (λ same.
          let (g, game, er, e₁) = finish_game_split r db₁ f in
          elim (mark_waiting_split r (some j) db₁ db₂ m) [
            | inl missing ↦ absurd (cc)
            | inr (row, room, e₂) ↦ pure-Yields Finishes (settled (commit (returned true))) db₂ fs (
                ended g row game
                  (ap (λ d. find_room g.room d.rooms) (sym e₁)
                    ∙ ap (λ k. find_room k db₁.rooms) (sym er)
                    ∙ room)
                  refl
                  (e₂
                    ∙ ap {A = Db} (λ d. record d { rooms = update_room r waits_again d.rooms }) e₁
                    ∙ ap (λ k. without_game id k db) er))
          ])

  reopen-Ended :
      (o : Option ℕ) (db₁ : Db) (fs : List Bool)
      → finish_game id db ≡ some (o, db₁)
      → Yields Finishes (reopen o db₁ fs)
  unfolding reopen
  reopen-Ended none db₁ fs f = pure-Yields Finishes (kept false) db₁ fs refused
  reopen-Ended (some r) db₁ fs f =
      exec-Yields Finishes (reopened r) db₁ (mark_waiting r) fs
        λ o db₂ fs₂ m. reopened-Ended r o db₁ db₂ fs₂ f m

-- Whatever statement throws, `endGame` changes nothing, or it completes a game that exists and lets its
-- room wait again.
pub end_game-Ended : (id : ℕ) (w : World) → Ended id w.db (end_game id w).0 (end_game id w).1.db
unfolding end_game
end_game-Ended id w =
    leaky_rule (Ended id w.db) false w _ raised refused
      λ fs. exec-Yields (Finishes id w.db) reopen w.db (finish_game id) fs (reopen-Ended id w.db)

-- What `endGame` leaves where no statement throws: it keeps its connection if the game or its room is
-- not there.
pub data Finished (id : ℕ) (w : World) : Outcome Bool × World → Type 0 where
  no_game :
      {y : Outcome Bool × World}
      → find_game id w.db.games ≡ none
      → Leaks w false y
      → Finished id w y
  no_room :
      {y : Outcome Bool × World} (g : Game)
      → find_game id w.db.games ≡ some g
      → find_room g.room w.db.rooms ≡ none
      → Leaks w false y
      → Finished id w y
  finished :
      {y : Outcome Bool × World} (g : Game) (row : Room)
      → find_game id w.db.games ≡ some g
      → find_room g.room w.db.rooms ≡ some row
      → Healthy.Runs w (returned true) (without_game id g.room w.db) y
      → Finished id w y

module _ (id : ℕ) (w : World) (h : IsHealthy w) where
  pub end_game-Finished : Finished id w (end_game id w)
  unfolding end_game finish_game mark_waiting exec pure ◌>>=◌ reopen reopened
  end_game-Finished = elim (Option-cases (find_game id w.db.games)) [
    | inl missing ↦ no_game missing (
        kept-Leaks false _ w h false (record w.db { games = complete_game id w.db.games })
          (rw missing refl))
    | inr (g, game) ↦ elim (Option-cases (find_room g.room w.db.rooms)) [
      | inl missing ↦
          no_room g game missing
            (kept-Leaks false _ w h false (without_game id g.room w.db) (rw (game, missing) refl))
      | inr (row, room) ↦ finished g row game room (
          settled-Runs false _ w h (returned true) _
            (rw (game, room, find_room-room_id g.room w.db.rooms row room) (ground (arith))))
    ]
  ]
