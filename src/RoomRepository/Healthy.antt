-- ===== src/RoomRepository/Healthy.antt =====
-- The methods on rooms where no statement throws, against descriptions of what they should do
-- (MatchingServer/src/repository/room_repository.cpp).
use back_end_doc.Common.{
  ℕ, ◌≡◌, refl, Bool, true, false, not, ◌&&◌, Option, none, some, List, [], ◌∷◌, ◌==◌, ltb,
  if◌then◌else◌, arith, sym, subst, returned, member, Bool-cases, inl, inr, Bytes,
}
use back_end_doc.Db.{Db, Room, RoomUser, is_waiting, terminated}
use back_end_doc.Db.Query.{
  find_room, players_in, count_in, has_user, rooms_of, least, terminated_ids, find_room-update_room,
}
use back_end_doc.Db.Transaction.{done, failed, commit, abort, exec, query, pure, ◌>>=◌}
use back_end_doc.World.{World}
use back_end_doc.World.Healthy.{IsHealthy, Runs, commit-Runs, abort-Runs, fail-Runs}
use back_end_doc.RoomRepository.Outcomes.{with_room}
use back_end_doc.RoomRepository.{
  read_room, reopened, reactivate, host_joins, create_in, create_body, create_room_with_host,
  insert_room_user, capacity_of, add_if_room, add_to, add_body, add_player,
}

-- May the user join the room: it exists and waits, the user exists and is not in it, and a place is
-- free.
abbrev pub may_join : ℕ → ℕ → Db → Bool
may_join r u db = elim (find_room r db.rooms) [
  | none ↦ false
  | some row ↦
      is_waiting row.status
      && not (member u (players_in r db.room_users))
      && ltb (count_in r db.room_users) row.max_players
      && has_user u db.users
]

abbrev pub after_join : ℕ → ℕ → Db → Db
after_join r u db =
    if may_join r u db
    then record db { room_users = record { room = r; user = u } ∷ db.room_users }
    else db

-- How the statements of `addPlayer` end, none of them failing by chance.
data Joining (r u : ℕ) (db : Db) : Type 0 where
  joins :
      may_join r u db ≡ true
      → add_body r u db []
        ≡ done
            (commit (returned true))
            (record db { room_users = record { room = r; user = u } ∷ db.room_users })
            []
      → Joining r u db
  refuses : may_join r u db ≡ false → add_body r u db [] ≡ done (abort false) db [] → Joining r u db
  violates : may_join r u db ≡ false → add_body r u db [] ≡ failed [] → Joining r u db

module _ (r u : ℕ) (db : Db) where
  has_place-Joining :
      (row : Room)
      → find_room r db.rooms ≡ some row
      → is_waiting row.status ≡ true
      → member u (players_in r db.room_users) ≡ false
      → ltb (count_in r db.room_users) row.max_players ≡ true
      → Joining r u db
  unfolding add_body add_to add_if_room capacity_of insert_room_user query exec pure ◌>>=◌
  has_place-Joining row e w m f = elim (Bool-cases (has_user u db.users)) [
    | inl known ↦ joins (ground arith) (ground arith)
    | inr unknown ↦ violates (ground arith) (ground arith)
  ]

  any-Joining : (o : Option Room) → find_room r db.rooms ≡ o → Joining r u db
  unfolding add_body add_to add_if_room capacity_of query exec pure ◌>>=◌
  any-Joining none e = refuses (ground arith) (ground arith)
  any-Joining (some row) e = elim (Bool-cases (is_waiting row.status)) [
    | inr closed_ ↦ refuses (ground arith) (ground arith)
    | inl open_ ↦ elim (Bool-cases (member u (players_in r db.room_users))) [
      | inl inside ↦ refuses (ground arith) (ground arith)
      | inr new ↦ elim (Bool-cases (ltb (count_in r db.room_users) row.max_players)) [
        | inr full ↦ refuses (ground arith) (ground arith)
        | inl free ↦ has_place-Joining row e open_ new free
      ]
    ]
  ]

-- Where no statement throws and every connection can be made, `addPlayer` answers whether the user
-- may join the room, and puts the user into the room exactly then.
pub add_player-Runs :
    (r u : ℕ) (w : World)
    → IsHealthy w
    → Runs w (returned (may_join r u w.db)) (after_join r u w.db) (add_player r u w)
unfolding add_player
add_player-Runs r u w h = go (any-Joining r u w.db (find_room r w.db.rooms) refl)
  where
    Ran : Bool → Type 0
    Ran b =
        Runs w (returned b)
          (if b
            then record w.db { room_users = record { room = r; user = u } ∷ w.db.room_users }
            else w.db)
          (add_player r u w)

    go : Joining r u w.db → Ran (may_join r u w.db)
    go (joins m e) = subst Ran (sym m) (commit-Runs false (add_body r u) w h _ _ e)
    go (refuses m e) = subst Ran (sym m) (abort-Runs false (add_body r u) w h false w.db e)
    go (violates m e) = subst Ran (sym m) (fail-Runs false (add_body r u) w h e)

-- Who is in no room is in none of the lists of players.
alone_nowhere :
    (u r : ℕ) (ps : List RoomUser) → rooms_of u ps ≡ [] → member u (players_in r ps) ≡ false
unfolding rooms_of players_in member
alone_nowhere u r [] e = refl
alone_nowhere u r (p ∷ ps) e = elim (Bool-cases (p.user == u)) [
  | inl hit ↦ absurd (ground arith)
  | inr miss ↦ ground (arith, alone_nowhere u r ps)
]

-- Where no statement throws and every connection can be made, `createRoomWithHost` opens the
-- terminated room of least id for an existing user who is in no room, puts the user into it, and
-- answers what is read of the row.
pub create_room_with_host-Runs :
    (host id : ℕ) (name : Bytes) (max : ℕ) (r : Room) (w : World)
    → IsHealthy w
    → rooms_of host w.db.room_users ≡ []
    → least (terminated_ids w.db.rooms) ≡ some id
    → find_room id w.db.rooms ≡ some r
    → r.status ≡ terminated
    → has_user host w.db.users ≡ true
    → Runs w
        (read_room (reopened name host max w.now r))
        (with_room name host max w.now id w.db)
        (create_room_with_host host name max w)
unfolding create_room_with_host create_body create_in host_joins reactivate insert_room_user query
    exec pure ◌>>=◌
create_room_with_host-Runs host id name max r w h alone free hit t known =
    commit-Runs none (create_body host name max w.now) w h _ _ (
      ground (
        arith,
        alone_nowhere host id w.db.room_users alone,
        find_room-update_room id id (reopened name host max w.now) w.db.rooms (λ x. refl),
      ))
