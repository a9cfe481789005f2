-- ===== src/Lobby/Views.antt =====
-- What the lobby makes of each change of the tables.
use back_end_doc.Common.{
  ℕ, ◌≡◌, refl, sym, ◌∙◌, ap, true, false, Option, none, some, List, [], ◌∷◌, ◌==◌, length, member,
  is_empty, arith, Bytes, Bool-cases, inl, inr,
}
use mathlib.Core.Path.{fun_ext}
use mathlib.Core.Option
use back_end_doc.Db.{
  Db, Room, RoomUser, RoomStatus, waiting, game_in_progress, terminated, is_waiting,
}
use back_end_doc.Db.Query.{
  find_room, update_room, players_in, count_in, rooms_of, delete_user, find_room-update_room,
}
use back_end_doc.GameRepository.{GameResult}
use back_end_doc.GameRepository
use back_end_doc.GameRepository.Outcomes as Games
use back_end_doc.RoomRepository.{reopened, closed}
use back_end_doc.RoomRepository.Consistent.{IsConsistent}
use back_end_doc.RoomRepository.Outcomes as Rooms
use back_end_doc.World.{Engine}
use back_end_doc.Lobby.{
  free, gathering, playing, Lobby, put, without, shut, MayPlay, from_free, from_gathering,
  from_playing, left, by_status, stage_of, lobby_of,
}

-- Lobbies are equal where they agree room by room.
lobby_path :
    (a b : Lobby)
    → ((j : ℕ) → a.stage j ≡ b.stage j)
    → ((j : ℕ) → a.players j ≡ b.players j)
    → a ≡ b
lobby_path a b hs hp = λ i. record { stage = fun_ext hs i; players = fun_ext hp i }

stage-update_room :
    (id j : ℕ) (change : Room → Room) (rs : List Room)
    → ((r : Room) → (change r).room_id ≡ r.room_id)
    → stage_of (find_room j (update_room id change rs))
      ≡ put id (stage_of (Option.map change (find_room id rs))) (λ k. stage_of (find_room k rs)) j
stage-update_room id j change rs same = ground (arith, find_room-update_room id j change rs same)

players_in-insert :
    (r u j : ℕ) (ps : List RoomUser)
    → players_in j (record { room = r; user = u } ∷ ps)
      ≡ put r (u ∷ players_in r ps) (λ k. players_in k ps) j
unfolding players_in
players_in-insert r u j ps = ground arith

players_in-delete_user :
    (u j : ℕ) (ps : List RoomUser) → players_in j (delete_user u ps) ≡ without u (players_in j ps)
unfolding players_in delete_user without
players_in-delete_user u j [] = refl
players_in-delete_user u j (p ∷ ps) = ground (arith, players_in-delete_user u j ps)

-- A user without rooms is in no room, and the first of a user's rooms has the user.
pub nowhere :
    (u j : ℕ) (ps : List RoomUser) → rooms_of u ps ≡ [] → member u (players_in j ps) ≡ false
unfolding rooms_of players_in member
nowhere u j [] e = refl
nowhere u j (p ∷ ps) e = ground (arith, nowhere u j ps)

pub somewhere :
    (u r : ℕ) (others : List ℕ) (ps : List RoomUser)
    → rooms_of u ps ≡ r ∷ others
    → member u (players_in r ps) ≡ true
unfolding rooms_of players_in member
somewhere u r others [] e = absurd (ground arith)
somewhere u r others (p ∷ ps) e = ground (arith, somewhere u r others ps)

length_zero : (xs : List ℕ) → length xs ≡ 0 → xs ≡ []
length_zero [] e = refl
length_zero (x ∷ xs) e = absurd (omega arith)

length_test : (xs : List ℕ) → (length xs == 0) ≡ is_empty xs
length_test [] = refl
length_test (x ∷ xs) = ground arith

-- A room that is opened, with nobody in it, has then its host only.
pub opened_lobby :
    (db : Db) (id host max now : ℕ) (name : Bytes) (r : Room)
    → IsConsistent db
    → find_room id db.rooms ≡ some r
    → r.status ≡ terminated
    → lobby_of (Rooms.with_room name host max now id db) ≡ record {
      stage = put id (gathering max) (lobby_of db).stage;
      players = put id (host ∷ []) (lobby_of db).players;
    }
unfolding count_in
opened_lobby db id host max now name r c hit t =
    lobby_path _ _
      (λ j. rw (stage-update_room id j (reopened name host max now) db.rooms (λ x. refl), hit) refl)
      (λ j. rw (players_in-insert id host j db.room_users, nobody) refl)
  where
    nobody : players_in id db.room_users ≡ []
    nobody = length_zero _ (c.empty id r hit t)

pub joined_lobby :
    (db : Db) (id u : ℕ)
    → lobby_of (record db { room_users = record { room = id; user = u } ∷ db.room_users })
      ≡ record (lobby_of db) {
        players = put id (u ∷ players_in id db.room_users) (lobby_of db).players;
      }
joined_lobby db id u = lobby_path _ _ (λ j. refl) (λ j. players_in-insert id u j db.room_users)

pub waiting_stage :
    (r : Room) → is_waiting r.status ≡ true → stage_of (some r) ≡ gathering r.max_players
waiting_stage r w = by_cases r.status r.max_players w
  where
    by_cases : (s : RoomStatus) (n : ℕ) → is_waiting s ≡ true → by_status s n ≡ gathering n
    by_cases waiting n h = refl
    by_cases game_in_progress n h = absurd (ground arith)
    by_cases terminated n h = absurd (ground arith)

shut_stage : (o : Option Room) → stage_of (Option.map closed o) ≡ shut (stage_of o)
shut_stage none = refl
shut_stage (some r) = by_cases r.status r.max_players
  where
    by_cases : (s : RoomStatus) (n : ℕ) → free ≡ shut (by_status s n)
    by_cases waiting n = refl
    by_cases game_in_progress n = refl
    by_cases terminated n = refl

pub left_lobby :
    (db : Db) (r u : ℕ) → lobby_of (Rooms.without_player r u db) ≡ left r u (lobby_of db)
unfolding count_in
left_lobby db r u = elim (Bool-cases (count_in r (delete_user u db.room_users) == 0)) [
  | inl last ↦
      rw (last, sym same_test ∙ last)
        (lobby_path _ _
          (λ j.
            stage-update_room r j closed db.rooms (λ x. refl)
            ∙ ap (λ s. put r s (λ k. stage_of (find_room k db.rooms)) j)
                (shut_stage (find_room r db.rooms)))
          (λ j. players_in-delete_user u j db.room_users))
  | inr more ↦
      rw (more, sym same_test ∙ more)
        (lobby_path _ _ (λ j. refl) (λ j. players_in-delete_user u j db.room_users))
]
  where
    same_test :
        (count_in r (delete_user u db.room_users) == 0)
        ≡ is_empty (without u (players_in r db.room_users))
    same_test =
        length_test (players_in r (delete_user u db.room_users))
        ∙ ap is_empty (players_in-delete_user u r db.room_users)

pub may_play : (r : Room) → MayPlay (stage_of (some r)) r.max_players
may_play r = by_cases r.status r.max_players
  where
    by_cases : (s : RoomStatus) (n : ℕ) → MayPlay (by_status s n) n
    by_cases waiting n = from_gathering n
    by_cases game_in_progress n = from_playing n
    by_cases terminated n = from_free n

pub playing_lobby :
    (e : Engine) (r m : ℕ) (db : Db) (row : Room)
    → find_room r db.rooms ≡ some row
    → lobby_of (Games.with_game e r m db)
      ≡ record (lobby_of db) { stage = put r (playing row.max_players) (lobby_of db).stage }
playing_lobby e r m db row hit =
    lobby_path _ _
      (λ j. rw (stage-update_room r j GameRepository.playing db.rooms (λ x. refl), hit) refl)
      (λ j. refl)
