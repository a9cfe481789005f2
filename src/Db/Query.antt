-- ===== src/Db/Query.antt =====
-- The parts that the SQL statements of MatchingServer/src/repository share.
use back_end_doc.Common.{
  ℕ, suc, ◌≡◌, refl, Bool, true, false, ◌&&◌, Option, none, some, List, [], ◌∷◌, ◌==◌, leb,
  if◌then◌else◌, arith, length, ◌≤◌, member,
}
use mathlib.Core.Option
use back_end_doc.Db.{User, Room, RoomUser, Game, is_terminated, in_progress, completed, GameStatus}

-- SELECT ... FROM rooms WHERE room_id = $1
unfoldable pub find_room : ℕ → List Room → Option Room
find_room id [] = none
find_room id (r ∷ rs) = if r.room_id == id then some r else find_room id rs

-- UPDATE rooms SET ... WHERE room_id = $1
unfoldable pub update_room : ℕ → (Room → Room) → List Room → List Room
update_room id change [] = []
update_room id change (r ∷ rs) =
    (if r.room_id == id then change r else r) ∷ update_room id change rs

-- SELECT room_id FROM rooms WHERE status = 'TERMINATED'
unfoldable pub terminated_ids : List Room → List ℕ
terminated_ids [] = []
terminated_ids (r ∷ rs) =
    let rest = terminated_ids rs in if is_terminated r.status then r.room_id ∷ rest else rest

min_with : ℕ → Option ℕ → ℕ
min_with a none = a
min_with a (some b) = if leb a b then a else b

-- ORDER BY room_id LIMIT 1
unfoldable pub least : List ℕ → Option ℕ
unfolding min_with
least [] = none
least (a ∷ rest) = some (min_with a (least rest))

-- SELECT room_id FROM room_users WHERE user_id = $1
unfoldable pub rooms_of : ℕ → List RoomUser → List ℕ
rooms_of u [] = []
rooms_of u (p ∷ ps) = let rest = rooms_of u ps in if p.user == u then p.room ∷ rest else rest

-- SELECT user_id FROM room_users WHERE room_id = $1
unfoldable pub players_in : ℕ → List RoomUser → List ℕ
players_in r [] = []
players_in r (p ∷ ps) = let rest = players_in r ps in if p.room == r then p.user ∷ rest else rest

-- SELECT COUNT(*) FROM room_users WHERE room_id = $1
unfoldable pub count_in : ℕ → List RoomUser → ℕ
count_in r ps = length (players_in r ps)

-- DELETE FROM room_users WHERE user_id = $1
unfoldable pub delete_user : ℕ → List RoomUser → List RoomUser
delete_user u [] = []
delete_user u (p ∷ ps) = let rest = delete_user u ps in if p.user == u then rest else p ∷ rest

unfoldable pub has_user : ℕ → List User → Bool
has_user u [] = false
has_user u (x ∷ xs) = if x.user_id == u then true else has_user u xs

-- UPDATE users SET ... WHERE user_id = $1
unfoldable pub update_user : ℕ → (User → User) → List User → List User
update_user u change [] = []
update_user u change (x ∷ xs) = (if x.user_id == u then change x else x) ∷ update_user u change xs

-- SELECT ... FROM games WHERE game_id = $1
unfoldable pub find_game : ℕ → List Game → Option Game
find_game id [] = none
find_game id (g ∷ gs) = if g.game_id == id then some g else find_game id gs

unfoldable pub has_game : ℕ → List Game → Bool
has_game id [] = false
has_game id (g ∷ gs) = if g.game_id == id then true else has_game id gs

-- UPDATE games SET status = 'COMPLETED' WHERE game_id = $1
unfoldable pub complete_game : ℕ → List Game → List Game
complete_game id [] = []
complete_game id (g ∷ gs) =
    (if g.game_id == id then record g { status = completed } else g) ∷ complete_game id gs

is_in_progress : GameStatus → Bool
is_in_progress in_progress = true
is_in_progress completed = false

-- UPDATE games SET status = 'COMPLETED' WHERE status = 'IN_PROGRESS' AND room_id = $1
unfoldable pub complete_games_of : ℕ → List Game → List Game
unfolding is_in_progress
complete_games_of r [] = []
complete_games_of r (g ∷ gs) =
    (if is_in_progress g.status && (g.room == r) then record g { status = completed } else g)
    ∷ complete_games_of r gs

-- Laws.

pub find_room-update_room :
    (id j : ℕ) (change : Room → Room) (rs : List Room)
    → ((r : Room) → (change r).room_id ≡ r.room_id)
    → find_room j (update_room id change rs)
      ≡ (if j == id then Option.map change (find_room j rs) else find_room j rs)
unfolding find_room update_room
find_room-update_room id j change [] same = ground arith
find_room-update_room id j change (r ∷ rs) same =
    ground (arith, same r, find_room-update_room id j change rs same)

-- A room is found under its id.
pub find_room-room_id :
    (id : ℕ) (rs : List Room) (r : Room) → find_room id rs ≡ some r → r.room_id ≡ id
unfolding find_room
find_room-room_id id [] r h = absurd (cc)
find_room-room_id id (x ∷ rs) r h = ground (arith, find_room-room_id id rs r)

pub count_in-cons :
    (r : ℕ) (p : RoomUser) (ps : List RoomUser)
    → count_in r (p ∷ ps) ≡ (if p.room == r then suc (count_in r ps) else count_in r ps)
unfolding count_in players_in
count_in-cons r p ps = ground arith

pub count_in-delete_user :
    (r u : ℕ) (ps : List RoomUser) → count_in r (delete_user u ps) ≤ count_in r ps
unfolding count_in players_in delete_user
count_in-delete_user r u [] = omega arith
count_in-delete_user r u (p ∷ ps) = ground (arith, count_in-delete_user r u ps)

pub rooms_of-delete_user : (u : ℕ) (ps : List RoomUser) → rooms_of u (delete_user u ps) ≡ []
unfolding rooms_of delete_user
rooms_of-delete_user u [] = refl
rooms_of-delete_user u (p ∷ ps) = ground (arith, rooms_of-delete_user u ps)

pub rooms_of-delete_other :
    (u v : ℕ) (ps : List RoomUser)
    → (u == v) ≡ false
    → rooms_of v (delete_user u ps) ≡ rooms_of v ps
unfolding rooms_of delete_user
rooms_of-delete_other u v [] h = refl
rooms_of-delete_other u v (p ∷ ps) h = ground (arith, rooms_of-delete_other u v ps)

pub least-member : (xs : List ℕ) (m : ℕ) → least xs ≡ some m → member m xs ≡ true
unfolding least member
least-member [] m h = absurd (cc)
least-member (a ∷ []) m h = ground arith
least-member (a ∷ b ∷ xs) m h = ground (arith, least-member (b ∷ xs) (min_with b (least xs)))

pub least-le : (xs : List ℕ) (m x : ℕ) → least xs ≡ some m → member x xs ≡ true → m ≤ x
unfolding least member
least-le [] m x h i = absurd (cc)
least-le (a ∷ []) m x h i = ground arith
least-le (a ∷ b ∷ xs) m x h i = ground (arith, least-le (b ∷ xs) (min_with b (least xs)) x)
