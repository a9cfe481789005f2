-- ===== src/RoomRepository/Outcomes.antt =====
-- What the methods that change rooms may do to the tables: nothing, or one change that is written
-- out, whichever statements throw.
use back_end_doc.Common.{
  ℕ, ◌<◌, ◌≡◌, refl, sym, subst, Bool, true, false, not, Option, none, some, List, [], ◌∷◌, ◌==◌,
  leb, if◌then◌else◌, arith, Outcome, returned, threw, Bytes, is_empty, Option-cases, member, inl,
  inr,
}
use back_end_doc.Db.{Db, Room, terminated, is_waiting}
use back_end_doc.Db.Query.{
  find_room, update_room, rooms_of, players_in, count_in, delete_user, least, terminated_ids,
  complete_games_of,
}
use back_end_doc.Db.Transaction.{
  Verdict, commit, abort, pure, Yields, query-Yields, exec-Yields, update-Yields, if-Yields,
  pure-Yields,
}
use back_end_doc.World.{World}
use back_end_doc.World.Frame.{Settles, transact_rule}
use back_end_doc.RoomRepository.{
  RoomInfo, read_room, reopened, closed, reactivate, insert_room_user, host_joins, create_in,
  create_body, create_room_with_host, capacity_of, add_if_room, add_to, add_body, add_player,
  close_room, remove_from, remove_body, remove_player,
}

-- What a successful `insert_room_user` did.
pub insert_room_user_split :
    (r u : ℕ) (db db' : Db) (rows : List ℕ)
    → insert_room_user r u db ≡ some (rows, db')
    → db' ≡ record db { room_users = record { room = r; user = u } ∷ db.room_users }
unfolding insert_room_user
insert_room_user_split r u db db' rows e = ground arith

pub reactivate_split :
    (name : Bytes) (host max now id : ℕ) (db db' : Db) (row : Room)
    → reactivate name host max now id db ≡ some (some row, db')
    → (r : Room) × (find_room id db.rooms ≡ some r)
      × (r.status ≡ terminated)
      × (row ≡ reopened name host max now r)
      × (db' ≡ record db { rooms = update_room id (reopened name host max now) db.rooms })
unfolding reactivate
reactivate_split name host max now id db db' row e = elim (Option-cases (find_room id db.rooms)) [
  | inl missing ↦ absurd (ground arith)
  | inr (r, hit) ↦ (r, hit, ground arith, ground arith, ground arith)
]

-- The tables with a room opened and its host in it.
abbrev pub with_room : Bytes → ℕ → ℕ → ℕ → ℕ → Db → Db
with_room name host max now id db = record db {
  rooms = update_room id (reopened name host max now) db.rooms;
  room_users = record { room = id; user = host } ∷ db.room_users;
}

-- `createRoomWithHost`: nothing, or the terminated room of least id opened for a host who was in no
-- room; the answer is then what is read of the new row.
pub data Created (before : Db) (host : ℕ) (name : Bytes) (max now : ℕ)
    : Outcome (Option RoomInfo) → Db → Type 0 where
  raised : Created before host name max now threw before
  refused : Created before host name max now (returned none) before
  opened :
      {o : Outcome (Option RoomInfo)} {after : Db} (id : ℕ) (r : Room)
      → rooms_of host before.room_users ≡ []
      → least (terminated_ids before.rooms) ≡ some id
      → find_room id before.rooms ≡ some r
      → r.status ≡ terminated
      → o ≡ read_room (reopened name host max now r)
      → after ≡ with_room name host max now id before
      → Created before host name max now o after

module _ (host : ℕ) (name : Bytes) (max now : ℕ) (db : Db) where
  abbrev Creates : Verdict (Option RoomInfo) → Db → Type 0
  Creates = Settles (Created db host name max now) db

  host_joins-Created :
      (id : ℕ) (row : Option Room) (db' : Db) (fs : List Bool)
      → rooms_of host db.room_users ≡ []
      → least (terminated_ids db.rooms) ≡ some id
      → reactivate name host max now id db ≡ some (row, db')
      → Yields Creates (host_joins id host row db' fs)
  unfolding host_joins pure
  host_joins-Created id none db' fs alone l e = refused
  host_joins-Created id (some row) db' fs alone l e =
      let (r, hit, t, er, ed) = reactivate_split name host max now id db db' row e in
      exec-Yields Creates _ db' (insert_room_user id host) fs λ rows db'' fs' ei.
        opened id r alone l hit t (ground arith)
          (ground (arith, insert_room_user_split id host db' db'' rows ei))

  create_in-Created :
      (id : Option ℕ) (fs : List Bool)
      → rooms_of host db.room_users ≡ []
      → least (terminated_ids db.rooms) ≡ id
      → Yields Creates (create_in name host max now id db fs)
  unfolding create_in pure
  create_in-Created none fs alone l = refused
  create_in-Created (some id) fs alone l =
      exec-Yields Creates (host_joins id host) db (reactivate name host max now id) fs
        λ row db' fs' e. host_joins-Created id row db' fs' alone l e

  create_body-Created : (fs : List Bool) → Yields Creates (create_body host name max now db fs)
  unfolding create_body
  create_body-Created fs =
      query-Yields Creates _ db (λ db. rooms_of host db.room_users) fs
        λ fs'.
          if-Yields Creates db fs' (not (is_empty (rooms_of host db.room_users))) _ _
            (λ busy. pure-Yields Creates (abort none) db fs' refused)
            (λ free.
              query-Yields Creates (create_in name host max now) db
                (λ db. least (terminated_ids db.rooms)) fs'
                λ fs''. create_in-Created _ fs'' (ground arith) refl)

-- Whatever statement throws, `createRoomWithHost` changes nothing, or opens the terminated room of
-- least id for a host who is in no room.
pub create_room_with_host-Created :
    (host : ℕ) (name : Bytes) (max : ℕ) (w : World)
    → Created w.db host name max w.now
        (create_room_with_host host name max w).0
        (create_room_with_host host name max w).1.db
unfolding create_room_with_host
create_room_with_host-Created host name max w =
    transact_rule (Created w.db host name max w.now) none w (create_body host name max w.now) raised
      refused (create_body-Created host name max w.now w.db)

-- `addPlayer`: nothing, or one more player in a waiting room that has a free place. Only this room
-- is looked at.
pub data Added (before : Db) (r u : ℕ) : Outcome Bool → Db → Type 0 where
  raised : Added before r u threw before
  refused : Added before r u (returned false) before
  joined :
      {o : Outcome Bool} {after : Db} (row : Room)
      → find_room r before.rooms ≡ some row
      → is_waiting row.status ≡ true
      → member u (players_in r before.room_users) ≡ false
      → count_in r before.room_users < row.max_players
      → o ≡ returned true
      → after ≡ record before { room_users = record { room = r; user = u } ∷ before.room_users }
      → Added before r u o after

module _ (r u : ℕ) (db : Db) where
  abbrev Adds : Verdict Bool → Db → Type 0
  Adds = Settles (Added db r u) db

  add_if_room-Added :
      (row : Room) (max current : ℕ) (fs : List Bool)
      → find_room r db.rooms ≡ some row
      → is_waiting row.status ≡ true
      → member u (players_in r db.room_users) ≡ false
      → max ≡ row.max_players
      → current ≡ count_in r db.room_users
      → Yields Adds (add_if_room r u max current db fs)
  unfolding add_if_room
  add_if_room-Added row max current fs hit open_ new em ec =
      if-Yields Adds db fs (leb max current) _ _
        (λ full. pure-Yields Adds (abort false) db fs refused)
        (λ free. exec-Yields Adds _ db (insert_room_user r u) fs λ rows db' fs' e.
          if-Yields Adds db' fs' (is_empty rows) _ _
            (λ none_. pure-Yields Adds (abort false) db' fs' refused)
            (λ one. pure-Yields Adds (commit (returned true)) db' fs' (
              joined row hit open_ new (ground arith) refl
                (insert_room_user_split r u db db' rows e))))

  pub capacity_of_split :
      (row : Room) (seats : ℕ × ℕ) (db' : Db)
      → find_room r db.rooms ≡ some row
      → capacity_of r db ≡ some (seats, db')
      → (seats.0 ≡ row.max_players) × (seats.1 ≡ count_in r db.room_users) × (db' ≡ db)
  unfolding capacity_of
  capacity_of_split row seats db' hit e = ground arith

  add_to-Added :
      (room : Option Room) (fs : List Bool)
      → find_room r db.rooms ≡ room
      → Yields Adds (add_to r u room db fs)
  unfolding add_to
  add_to-Added none fs hit = pure-Yields Adds (abort false) db fs refused
  add_to-Added (some row) fs hit =
      if-Yields Adds db fs (not (is_waiting row.status)) _ _
        (λ closed_. pure-Yields Adds (abort false) db fs refused)
        (λ open_.
          query-Yields Adds _ db (λ db. member u (players_in r db.room_users)) fs
            λ fs'.
              if-Yields Adds db fs' (member u (players_in r db.room_users)) _ _
                (λ inside. pure-Yields Adds (abort false) db fs' refused)
                (λ new. exec-Yields Adds _ db (capacity_of r) fs' λ seats db' fs'' e.
                  let facts = capacity_of_split row seats db' hit e in
                  subst (λ d. Yields Adds (add_if_room r u seats.0 seats.1 d fs'')) (sym facts.2)
                    (add_if_room-Added row seats.0 seats.1 fs'' hit (ground arith) new facts.0
                      facts.1)))

  add_body-Added : (fs : List Bool) → Yields Adds (add_body r u db fs)
  unfolding add_body
  add_body-Added fs =
      query-Yields Adds (add_to r u) db (λ db. find_room r db.rooms) fs
        λ fs'. add_to-Added (find_room r db.rooms) fs' refl

-- Whatever statement throws, `addPlayer` changes nothing, or adds the player to a waiting room that
-- has a free place and where the player is not yet.
pub add_player-Added :
    (r u : ℕ) (w : World) → Added w.db r u (add_player r u w).0 (add_player r u w).1.db
unfolding add_player
add_player-Added r u w =
    transact_rule (Added w.db r u) false w (add_body r u) raised refused (add_body-Added r u w.db)

-- The tables without a player; the room that the player is found in is closed if that leaves it
-- empty, and its games are completed.
abbrev pub without_player : ℕ → ℕ → Db → Db
without_player r u db =
    if count_in r (delete_user u db.room_users) == 0
    then record db {
      rooms = update_room r closed db.rooms;
      room_users = delete_user u db.room_users;
      games = complete_games_of r db.games;
    }
    else record db { room_users = delete_user u db.room_users }

-- `removePlayer`: nothing, or the player gone from every room.
pub data Removed (before : Db) (u : ℕ) : Outcome Bool → Db → Type 0 where
  raised : Removed before u threw before
  refused : Removed before u (returned false) before
  left :
      {o : Outcome Bool} {after : Db} (r : ℕ) (others : List ℕ)
      → rooms_of u before.room_users ≡ r ∷ others
      → o ≡ returned true
      → after ≡ without_player r u before
      → Removed before u o after

module _ (u : ℕ) (db : Db) where
  abbrev Removes : Verdict Bool → Db → Type 0
  Removes = Settles (Removed db u) db

  remove_from-Removed :
      (rooms : List ℕ) (fs : List Bool)
      → rooms_of u db.room_users ≡ rooms
      → Yields Removes (remove_from u rooms db fs)
  unfolding remove_from close_room
  remove_from-Removed [] fs e = pure-Yields Removes (abort false) db fs refused
  remove_from-Removed (r ∷ others) fs e = update-Yields Removes _ db _ fs λ fs₁.
      query-Yields Removes _ _ (λ db. count_in r db.room_users) fs₁
        λ fs₂.
          if-Yields Removes _ fs₂ (count_in r (delete_user u db.room_users) == 0) _ _
            (λ empty. update-Yields Removes _ _ _ fs₂ λ fs₃. update-Yields Removes _ _ _ fs₃ λ fs₄.
              pure-Yields Removes (commit (returned true)) _ fs₄
                (left r others e refl (ground arith)))
            (λ more.
              pure-Yields Removes (commit (returned true)) _ fs₂
                (left r others e refl (ground arith)))

  remove_body-Removed : (fs : List Bool) → Yields Removes (remove_body u db fs)
  unfolding remove_body
  remove_body-Removed fs =
      query-Yields Removes (remove_from u) db (λ db. rooms_of u db.room_users) fs
        λ fs'. remove_from-Removed (rooms_of u db.room_users) fs' refl

-- Whatever statement throws, `removePlayer` changes nothing, or takes the player out of every room
-- and closes the room found first if nobody is left in it.
pub remove_player-Removed :
    (u : ℕ) (w : World) → Removed w.db u (remove_player u w).0 (remove_player u w).1.db
unfolding remove_player
remove_player-Removed u w =
    transact_rule (Removed w.db u) false w (remove_body u) raised refused
      (remove_body-Removed u w.db)
