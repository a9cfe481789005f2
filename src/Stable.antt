-- ===== src/Stable.antt =====
-- Properties of the tables that every method of the matching server's repositories keeps
-- (MatchingServer/src/repository): what is to be shown of each change, and what follows for the
-- methods.
pub mod Consistent
pub mod Persistence
pub mod Accounts
pub mod Others
use back_end_doc.Common.{ℕ, ◌≤◌, sym, subst, Bool, Option, Outcome, Bytes}
use back_end_doc.Db.{Db, User}
use back_end_doc.GameRepository.{GameResult, create_game, end_game}
use back_end_doc.GameRepository.Outcomes.{Started, Ended, create_game-Started, end_game-Ended}
use back_end_doc.Request.{Field}
use back_end_doc.RoomRepository.{
  RoomInfo, create_room_with_host, add_player, remove_player, get_player_count, find_all_open,
}
use back_end_doc.RoomRepository.Outcomes.{
  Created, Added, Removed, create_room_with_host-Created, add_player-Added, remove_player-Removed,
}
use back_end_doc.RoomRepository.Reading.{get_player_count-Reads, find_all_open-Reads}
use back_end_doc.UserRepository.{
  logged_in_at, renamed, find_by_username, create, update_last_login, update_user_nick_name,
}
use back_end_doc.UserRepository.Outcomes
use back_end_doc.UserRepository.Outcomes.{
  Found, Inserted, Changed, find_by_username-Found, create-Inserted, update_last_login-Changed,
  update_user_nick_name-Changed,
}
use back_end_doc.World.{Engine, World}
use back_end_doc.World.Keeps.{Keeps}

-- `P` survives each change that a method may make; rooms are opened for at least one player.
pub record IsStable (P : Db → Type 0) : Type 0 where
  pub rooms_open :
      (db after : Db) (host max now : ℕ) (name : Bytes) (o : Outcome (Option RoomInfo))
      → P db
      → 1 ≤ max
      → Created db host name max now o after
      → P after
  pub players_join :
      (db after : Db) (r u : ℕ) (o : Outcome Bool) → P db → Added db r u o after → P after
  pub players_leave :
      (db after : Db) (u : ℕ) (o : Outcome Bool) → P db → Removed db u o after → P after
  pub games_start :
      (e : Engine) (db after : Db) (o : Outcome GameResult) → P db → Started e db o after → P after
  pub games_end :
      (id : ℕ) (db after : Db) (o : Outcome GameResult) → P db → Ended id db o after → P after
  pub accounts_open :
      (e : Engine) (name hash : Bytes) (now : ℕ) (db after : Db) (o : Outcome ℕ)
      → P db
      → Inserted e name hash now db o after
      → P after
  pub users_log_in :
      (id now : ℕ) (db after : Db) (o : Outcome Bool)
      → P db
      → Changed id (logged_in_at now) db o after
      → P after
  pub users_rename :
      (id : ℕ) (nick : Bytes) (db after : Db) (o : Outcome Bool)
      → P db
      → Changed id (renamed nick) db o after
      → P after

-- The same of games, and of accounts that are made or log in.
pub record IsGameStable (P : Db → Type 0) : Type 0 where
  pub start :
      (e : Engine) (db after : Db) (o : Outcome GameResult) → P db → Started e db o after → P after
  pub end : (id : ℕ) (db after : Db) (o : Outcome GameResult) → P db → Ended id db o after → P after

pub record IsAccountStable (P : Db → Type 0) : Type 0 where
  pub open_account :
      (e : Engine) (name hash : Bytes) (now : ℕ) (db after : Db) (o : Outcome ℕ)
      → P db
      → Inserted e name hash now db o after
      → P after
  pub log_in :
      (id now : ℕ) (db after : Db) (o : Outcome Bool)
      → P db
      → Changed id (logged_in_at now) db o after
      → P after

pub game_part : {P : Db → Type 0} → IsStable P → IsGameStable P
game_part st = record { start = st.games_start; end = st.games_end }

pub account_part : {P : Db → Type 0} → IsStable P → IsAccountStable P
account_part st = record { open_account = st.accounts_open; log_in = st.users_log_in }

module _ {P : Db → Type 0} (st : IsGameStable P) where
  pub create_game-Keeps : (r m : Field ℕ) → Keeps P (create_game r m)
  create_game-Keeps r m = record {
    after = λ w c. st.start w.engine w.db _ _ c (create_game-Started r m w);
  }

  pub end_game-Keeps : (id : ℕ) → Keeps P (end_game id)
  end_game-Keeps id = record { after = λ w c. st.end id w.db _ _ c (end_game-Ended id w) }

module _ {P : Db → Type 0} (st : IsAccountStable P) where
  pub create-Keeps : (name hash : Bytes) → Keeps P (create name hash)
  create-Keeps name hash = record {
    after =
        λ w c. st.open_account w.engine name hash w.now w.db _ _ c (create-Inserted name hash w);
  }

  pub update-Keeps : (id : ℕ) → Keeps P (update_last_login id)
  update-Keeps id = record {
    after = λ w c. st.log_in id w.now w.db _ _ c (update_last_login-Changed id w);
  }

module _ {P : Db → Type 0} (st : IsStable P) where
  pub create_room-Keeps :
      (host : ℕ) (name : Bytes) (max : ℕ) → 1 ≤ max → Keeps P (create_room_with_host host name max)
  create_room-Keeps host name max m = record {
    after = λ w c.
        st.rooms_open w.db _ host max w.now name _ c m
          (create_room_with_host-Created host name max w);
  }

  pub add_player-Keeps : (r u : ℕ) → Keeps P (add_player r u)
  add_player-Keeps r u = record {
    after = λ w c. st.players_join w.db _ r u _ c (add_player-Added r u w);
  }

  pub remove_player-Keeps : (u : ℕ) → Keeps P (remove_player u)
  remove_player-Keeps u = record {
    after = λ w c. st.players_leave w.db _ u _ c (remove_player-Removed u w);
  }

  pub rename-Keeps : (id : ℕ) (nick : Bytes) → Keeps P (update_user_nick_name id nick)
  rename-Keeps id nick = record {
    after = λ w c. st.users_rename id nick w.db _ _ c (update_user_nick_name-Changed id nick w);
  }

-- What reads only keeps every property.
module _ (P : Db → Type 0) where
  reads_only :
      {e : Engine} {name : Bytes} {db after : Db} {o : Outcome (Option User)}
      → P db
      → Found e name db o after
      → P after
  reads_only c Outcomes.raised = c
  reads_only c Outcomes.missing = c
  reads_only c (Outcomes.found u known eo) = c

  pub find-Keeps : (name : Bytes) → Keeps P (find_by_username name)
  find-Keeps name = record { after = λ w c. reads_only c (find_by_username-Found name w) }

  pub count-Keeps : (id : ℕ) → Keeps P (get_player_count id)
  count-Keeps id = record { after = λ w c. subst P (sym (get_player_count-Reads id w)) c }

  pub open-Keeps : Keeps P find_all_open
  open-Keeps = record { after = λ w c. subst P (sym (find_all_open-Reads w)) c }
