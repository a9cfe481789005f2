-- ===== src/RoomRepository/Consistent.antt =====
-- The tables of rooms stay consistent: no room has more players than it admits, and a terminated
-- room has none.
use back_end_doc.Common.{
  ℕ, ◌≤◌, ◌+◌, ◌≡◌, refl, sym, subst, Bool, true, Option, some, ◌∷◌, ◌==◌, arith, Outcome, Bytes,
  Bool-cases, Option-cases, inl, inr,
}
use back_end_doc.Db.{Db, Room, terminated, is_waiting}
use back_end_doc.Db.Query.{
  find_room, update_room, count_in, delete_user, find_room-update_room, count_in-cons,
  count_in-delete_user,
}
use back_end_doc.World.{World}
use back_end_doc.RoomRepository.{
  reopened, closed, create_room_with_host, add_player, remove_player, RoomInfo,
}
use back_end_doc.RoomRepository.Outcomes
use back_end_doc.RoomRepository.Outcomes.{
  Created, Added, Removed, with_room, without_player, create_room_with_host-Created,
  add_player-Added, remove_player-Removed,
}

pub record IsConsistent (db : Db) : Type 0 where
  pub capacity :
      (id : ℕ) (r : Room)
      → find_room id db.rooms ≡ some r
      → count_in id db.room_users ≤ r.max_players
  pub empty :
      (id : ℕ) (r : Room)
      → find_room id db.rooms ≡ some r
      → r.status ≡ terminated
      → count_in id db.room_users ≡ 0

-- A room that was terminated may be opened for at least one player, who then sits in it.
open_one :
    (db : Db) (id host now max : ℕ) (name : Bytes) (r : Room)
    → IsConsistent db
    → 1 ≤ max
    → find_room id db.rooms ≡ some r
    → r.status ≡ terminated
    → IsConsistent (record db {
      rooms = update_room id (reopened name host max now) db.rooms;
      room_users = record { room = id; user = host } ∷ db.room_users;
    })
open_one db id host now max name r c m e t = record {
  capacity = λ j s f. ground (
    arith,
    find_room-update_room id j (reopened name host max now) db.rooms (λ x. refl),
    count_in-cons j (record { room = id; user = host }) db.room_users,
    c.capacity j s,
    c.empty id r e t,
  );
  empty = λ j s f z. ground (
    arith,
    find_room-update_room id j (reopened name host max now) db.rooms (λ x. refl),
    count_in-cons j (record { room = id; user = host }) db.room_users,
    c.empty j s,
  );
}

pub join_one :
    (db : Db) (id u : ℕ) (r : Room)
    → IsConsistent db
    → find_room id db.rooms ≡ some r
    → is_waiting r.status ≡ true
    → count_in id db.room_users + 1 ≤ r.max_players
    → IsConsistent (record db { room_users = record { room = id; user = u } ∷ db.room_users })
join_one db id u r c e st m = record {
  capacity = λ j s f.
      ground
        (arith, count_in-cons j (record { room = id; user = u }) db.room_users, c.capacity j s);
  empty = λ j s f z.
      ground (arith, count_in-cons j (record { room = id; user = u }) db.room_users, c.empty j s);
}

leave : (db : Db) (r u : ℕ) → IsConsistent db → IsConsistent (without_player r u db)
leave db r u c = elim (Bool-cases (count_in r (delete_user u db.room_users) == 0)) [
  | inl last ↦ rw last (record {
    capacity = λ j s f. ground (
      arith,
      find_room-update_room r j closed db.rooms (λ x. refl),
      count_in-delete_user j u db.room_users,
      Option-cases (find_room j db.rooms),
      c.capacity j s,
    );
    empty = λ j s f z. ground (
      arith,
      find_room-update_room r j closed db.rooms (λ x. refl),
      count_in-delete_user j u db.room_users,
      c.empty j s,
    );
  })
  | inr more ↦ rw more (record {
    capacity = λ j s f. omega (arith, count_in-delete_user j u db.room_users, c.capacity j s f);
    empty = λ j s f z. omega (arith, count_in-delete_user j u db.room_users, c.empty j s f z);
  })
]

pub Created-IsConsistent :
    {db after : Db} {host max now : ℕ} {name : Bytes} {o : Outcome (Option RoomInfo)}
    → IsConsistent db
    → 1 ≤ max
    → Created db host name max now o after
    → IsConsistent after
Created-IsConsistent c m Outcomes.raised = c
Created-IsConsistent c m Outcomes.refused = c
Created-IsConsistent {db} {after} {host} {max} {now} {name} c m
      (Outcomes.opened id r alone l hit t eo ea) =
    subst IsConsistent (sym ea) (open_one db id host now max name r c m hit t)

pub Added-IsConsistent :
    {db after : Db} {r u : ℕ} {o : Outcome Bool}
    → IsConsistent db
    → Added db r u o after
    → IsConsistent after
Added-IsConsistent c Outcomes.raised = c
Added-IsConsistent c Outcomes.refused = c
Added-IsConsistent {db} {after} {r} {u} c (Outcomes.joined row hit w new free eo ea) =
    subst IsConsistent (sym ea) (join_one db r u row c hit w (omega arith))

pub Removed-IsConsistent :
    {db after : Db} {u : ℕ} {o : Outcome Bool}
    → IsConsistent db
    → Removed db u o after
    → IsConsistent after
Removed-IsConsistent c Outcomes.raised = c
Removed-IsConsistent c Outcomes.refused = c
Removed-IsConsistent {db} {after} {u} c (Outcomes.left r others e eo ea) =
    subst IsConsistent (sym ea) (leave db r u c)

-- Whatever statement throws, `createRoomWithHost` for at least one player keeps the tables
-- consistent.
pub create_room_with_host-IsConsistent :
    (host : ℕ) (name : Bytes) (max : ℕ) (w : World)
    → IsConsistent w.db
    → 1 ≤ max
    → IsConsistent (create_room_with_host host name max w).1.db
create_room_with_host-IsConsistent host name max w c m =
    Created-IsConsistent c m (create_room_with_host-Created host name max w)

-- Whatever statement throws, `addPlayer` keeps every room within its number of players.
pub add_player-IsConsistent :
    (r u : ℕ) (w : World) → IsConsistent w.db → IsConsistent (add_player r u w).1.db
add_player-IsConsistent r u w c = Added-IsConsistent c (add_player-Added r u w)

-- Whatever statement throws, `removePlayer` keeps the tables consistent.
pub remove_player-IsConsistent :
    (u : ℕ) (w : World) → IsConsistent w.db → IsConsistent (remove_player u w).1.db
remove_player-IsConsistent u w c = Removed-IsConsistent c (remove_player-Removed u w)
