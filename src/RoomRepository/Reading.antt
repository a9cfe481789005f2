-- ===== src/RoomRepository/Reading.antt =====
-- The methods that only read rooms leave the tables as they are, and answer what the tables say.
use back_end_doc.Common.{ℕ, ◌≡◌, refl, [], Outcome, returned}
use back_end_doc.Db.{Db, minus_one}
use back_end_doc.Db.Query.{count_in}
use back_end_doc.Db.Transaction.{commit, query-Yields, pure-Yields}
use back_end_doc.World.{World}
use back_end_doc.World.Frame.{Settles, transact_rule}
use back_end_doc.RoomRepository.{get_player_count, find_all_open, open_rooms, read_listings}

abbrev Same {ℓ} : {A : Type ℓ} → Db → Outcome A → Db → Type 0
Same before o after = after ≡ before

pub get_player_count-Reads : (id : ℕ) (w : World) → (get_player_count id w).1.db ≡ w.db
unfolding get_player_count
get_player_count-Reads id w = transact_rule (Same w.db) minus_one w _ refl refl λ fs.
    query-Yields (Settles (Same w.db) w.db) _ w.db (λ db. count_in id db.room_users) fs
      λ fs'.
        pure-Yields (Settles (Same w.db) w.db) (commit (returned (count_in id w.db.room_users)))
          w.db fs' refl

pub find_all_open-Reads : (w : World) → (find_all_open w).1.db ≡ w.db
unfolding find_all_open
find_all_open-Reads w = transact_rule (Same w.db) [] w _ refl refl λ fs.
    query-Yields (Settles (Same w.db) w.db) _ w.db (λ db. open_rooms db.rooms) fs
      λ fs'.
        pure-Yields (Settles (Same w.db) w.db) (commit (read_listings (open_rooms w.db.rooms))) w.db
          fs' refl
