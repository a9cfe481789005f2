-- ===== src/GameSocket/UserRepository.antt =====
-- GameSocketServer/src/repository/user_repository.cpp. `create` and `updateLastLogin` run the
-- statements of the matching server.
pub mod Leak
use back_end_doc.Common.{
  ℕ, Bool, Option, none, some, List, [], ◌∷◌, if◌then◌else◌, returned, Bytes, bytes_eq,
}
use back_end_doc.Db.{Db, User}
use back_end_doc.Db.Transaction.{Txn, commit, query, pure, ◌>>=◌}
use back_end_doc.UserRepository
use back_end_doc.World.{World, Action}
use back_end_doc.World.Leaky.{Ending, settled, kept, transact_leaky}

-- WHERE user_name = $1
unfoldable pub user_called : Bytes → List User → Option User
user_called name [] = none
user_called name (u ∷ us) = if bytes_eq u.user_name name then some u else user_called name us

-- If there is no row, the method returns before it gives the connection back.
unfoldable pub found_or_kept : Option User → Txn (Ending (Option User))
found_or_kept none = pure (kept none)
found_or_kept (some u) = pure (settled (commit (returned (some u))))

unfoldable pub find_by_username : Bytes → Action (Option User)
find_by_username name =
    transact_leaky none (do u ← query (λ db. user_called name db.users); found_or_kept u)

unfoldable pub create : Bytes → Bytes → Action ℕ
create = UserRepository.create

unfoldable pub update_last_login : ℕ → Action Bool
update_last_login = UserRepository.update_last_login
