-- ===== src/GameSocket/RoomRepository/Outcomes.antt =====
-- What the methods that change rooms may do to the tables, and that these stay consistent
-- (GameSocketServer/src/repository/room_repository.cpp).
use back_end_doc.Common.{
  ℕ, ◌≡◌, refl, sym, subst, Bool, true, false, not, Option, none, some, List, [], ◌∷◌, ◌==◌, leb,
  if◌then◌else◌, arith, Outcome, returned, Bytes, is_empty, member, Option-cases, inl, inr,
}
use mathlib.Core.Option
use back_end_doc.Db.{Db, minus_one, Room, terminated, is_waiting}
use back_end_doc.Db.Query.{
  find_room, update_room, rooms_of, players_in, count_in, delete_user, least, terminated_ids,
  find_room-update_room, count_in-delete_user,
}
use back_end_doc.Db.Transaction.{
  Verdict, commit, abort, pure, Yields, query-Yields, exec-Yields, update-Yields, if-Yields,
  pure-Yields,
}
use back_end_doc.RoomRepository.Outcomes
use back_end_doc.RoomRepository.Outcomes.{
  Added, insert_room_user_split, reactivate_split, capacity_of_split,
}
use back_end_doc.RoomRepository.{reopened, closed, reactivate, insert_room_user, capacity_of}
use back_end_doc.RoomRepository.Consistent.{IsConsistent, Added-IsConsistent}
use back_end_doc.World.{World}
use back_end_doc.World.Keeps.{Keeps-read}
use back_end_doc.World.Frame.{Settles, transact_rule}
use back_end_doc.GameSocket.RoomRepository.{
  or_minus_one, find_valid_room, created, create, add_if_room, add_to, add_player, terminate,
  terminate_empty, remove_from, remove_player,
}

abbrev Safe {ℓ} : {A : Type ℓ} → Outcome A → Db → Type 0
Safe o db = IsConsistent db

-- A terminated room, which is empty, may be opened.
reopen :
    (db : Db) (id host now max : ℕ) (name : Bytes) (r : Room)
    → IsConsistent db
    → find_room id db.rooms ≡ some r
    → r.status ≡ terminated
    → IsConsistent (record db { rooms = update_room id (reopened name host max now) db.rooms })
reopen db id host now max name r c hit t = record {
  capacity = λ j s f. ground (
    arith,
    find_room-update_room id j (reopened name host max now) db.rooms (λ x. refl),
    c.capacity j s,
    c.empty id r hit t,
  );
  empty = λ j s f z. ground (
    arith,
    find_room-update_room id j (reopened name host max now) db.rooms (λ x. refl),
    c.empty j s,
  );
}

module _ (db : Db) (c : IsConsistent db) where
  abbrev Settled : Verdict Bool → Db → Type 0
  Settled = Settles Safe db

  created-Settled :
      (host id now max : ℕ) (name : Bytes) (row : Option Room) (db' : Db) (fs : List Bool)
      → reactivate name host max now id db ≡ some (row, db')
      → Yields Settled (created row db' fs)
  unfolding created
  created-Settled host id now max name none db' fs e = pure-Yields Settled (abort false) db' fs c
  created-Settled host id now max name (some row) db' fs e =
      let (r, hit, t, er, ed) = reactivate_split name host max now id db db' row e in
      pure-Yields Settled (commit (returned true)) db' fs
        (subst IsConsistent (sym ed) (reopen db id host now max name r c hit t))

  without_user : (u : ℕ) → IsConsistent (record db { room_users = delete_user u db.room_users })
  without_user u = record {
    capacity = λ j s f. omega (arith, count_in-delete_user j u db.room_users, c.capacity j s f);
    empty = λ j s f z. omega (arith, count_in-delete_user j u db.room_users, c.empty j s f z);
  }

  close_empty :
      (u r : ℕ)
      → (count_in r (delete_user u db.room_users) == 0) ≡ true
      → IsConsistent (record db {
        rooms = update_room r closed db.rooms;
        room_users = delete_user u db.room_users;
      })
  close_empty u r last = record {
    capacity = λ j s f. elim (Option-cases (find_room j db.rooms)) [
      | inl missing ↦ absurd (ground (arith, law j))
      | inr (old, known) ↦
          ground (arith, law j, count_in-delete_user j u db.room_users, c.capacity j old known)
    ];
    empty = λ j s f z. elim (Option-cases (find_room j db.rooms)) [
      | inl missing ↦ absurd (ground (arith, law j))
      | inr (old, known) ↦
          ground (arith, law j, count_in-delete_user j u db.room_users, c.empty j old known)
    ];
  }
    where
      law :
          (j : ℕ)
          → find_room j (update_room r closed db.rooms)
            ≡ (if j == r then Option.map closed (find_room j db.rooms) else find_room j db.rooms)
      law j = find_room-update_room r j closed db.rooms (λ x. refl)

  remove_from-Settled :
      (u : ℕ) (rooms : List ℕ) (fs : List Bool) → Yields Settled (remove_from u rooms db fs)
  unfolding remove_from terminate_empty terminate
  remove_from-Settled u [] fs = pure-Yields Settled (commit (returned false)) db fs c
  remove_from-Settled u (r ∷ others) fs = update-Yields Settled _ db _ fs λ fs₁.
      query-Yields Settled (terminate_empty r) _ (λ db. count_in r db.room_users) fs₁
        λ fs₂.
          if-Yields Settled _ fs₂ (count_in r (delete_user u db.room_users) == 0) (terminate r)
            (pure (commit (returned true)))
            (λ last.
              update-Yields Settled _ _ _ fs₂
                λ fs₃. pure-Yields Settled (commit (returned true)) _ fs₃ (close_empty u r last))
            (λ more. pure-Yields Settled (commit (returned true)) _ fs₂ (without_user u))

-- Whatever statement throws, the methods keep the tables consistent.
pub find_valid_room-IsConsistent :
    (w : World) → IsConsistent w.db → IsConsistent (find_valid_room w).1.db
unfolding find_valid_room
find_valid_room-IsConsistent w =
    (Keeps-read IsConsistent minus_one (λ db. least (terminated_ids db.rooms))
        (λ id. returned (or_minus_one id))).after
      w

pub create-IsConsistent :
    (host id : ℕ) (name : Bytes) (max : ℕ) (w : World)
    → IsConsistent w.db
    → IsConsistent (create host id name max w).1.db
unfolding create
create-IsConsistent host id name max w c = transact_rule Safe false w _ c c λ fs.
    exec-Yields (Settled w.db c) created w.db (reactivate name host max w.now id) fs
      (created-Settled w.db c host id w.now max name)

pub remove_player-IsConsistent :
    (u : ℕ) (w : World) → IsConsistent w.db → IsConsistent (remove_player u w).1.db
unfolding remove_player
remove_player-IsConsistent u w c = transact_rule Safe false w _ c c λ fs.
    query-Yields (Settled w.db c) (remove_from u) w.db (λ db. rooms_of u db.room_users) fs
      λ fs'. remove_from-Settled w.db c u (rooms_of u w.db.room_users) fs'

inserted_one :
    (r u : ℕ) (db db' : Db) (rows : List ℕ)
    → insert_room_user r u db ≡ some (rows, db')
    → rows ≡ r ∷ []
unfolding insert_room_user
inserted_one r u db db' rows e = ground arith

module _ (r u : ℕ) (db : Db) where
  abbrev Adds : Verdict Bool → Db → Type 0
  Adds = Settles (Added db r u) db

  add_if_room-Added :
      (row : Room) (max current : ℕ) (fs : List Bool)
      → find_room r db.rooms ≡ some row
      → is_waiting row.status ≡ true
      → member u (players_in r db.room_users) ≡ false
      → max ≡ row.max_players
      → current ≡ count_in r db.room_users
      → Yields Adds (add_if_room r u max current db fs)
  unfolding add_if_room
  add_if_room-Added row max current fs hit open_ new em ec =
      if-Yields Adds db fs (leb max current) _ _
        (λ full. pure-Yields Adds (abort false) db fs Outcomes.refused)
        (λ free. exec-Yields Adds _ db (insert_room_user r u) fs λ rows db' fs' e.
          pure-Yields Adds (commit (returned (not (is_empty rows)))) db' fs' (
            Outcomes.joined row hit open_ new (ground arith)
              (ground (arith, inserted_one r u db db' rows e))
              (insert_room_user_split r u db db' rows e)))

  add_to-Added :
      (room : Option Room) (fs : List Bool)
      → find_room r db.rooms ≡ room
      → Yields Adds (add_to r u room db fs)
  unfolding add_to
  add_to-Added none fs hit = pure-Yields Adds (abort false) db fs Outcomes.refused
  add_to-Added (some row) fs hit =
      if-Yields Adds db fs (not (is_waiting row.status)) _ _
        (λ closed_. pure-Yields Adds (abort false) db fs Outcomes.refused)
        (λ open_.
          query-Yields Adds _ db (λ db. member u (players_in r db.room_users)) fs
            λ fs'.
              if-Yields Adds db fs' (member u (players_in r db.room_users)) _ _
                (λ inside. pure-Yields Adds (abort false) db fs' Outcomes.refused)
                (λ new. exec-Yields Adds _ db (capacity_of r) fs' λ seats db' fs'' e.
                  let facts = capacity_of_split r u db row seats db' hit e in
                  subst (λ d. Yields Adds (add_if_room r u seats.0 seats.1 d fs'')) (sym facts.2)
                    (add_if_room-Added row seats.0 seats.1 fs'' hit (ground arith) new facts.0
                      facts.1)))

-- Whatever statement throws, `addPlayer` changes nothing, or adds the player to a waiting room that
-- has a free place and where the player is not yet.
pub add_player-Added :
    (r u : ℕ) (w : World) → Added w.db r u (add_player r u w).0 (add_player r u w).1.db
unfolding add_player
add_player-Added r u w =
    transact_rule (Added w.db r u) false w _ Outcomes.raised Outcomes.refused λ fs.
      query-Yields (Adds r u w.db) (add_to r u) w.db (λ db. find_room r db.rooms) fs
        λ fs'. add_to-Added r u w.db (find_room r w.db.rooms) fs' refl

pub add_player-IsConsistent :
    (r u : ℕ) (w : World) → IsConsistent w.db → IsConsistent (add_player r u w).1.db
add_player-IsConsistent r u w c = Added-IsConsistent c (add_player-Added r u w)
