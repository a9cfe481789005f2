-- ===== src/GameSocket/UserRepository/Leak.antt =====
-- What `findByUsername` does with its connection (GameSocketServer/src/repository/user_repository.cpp).
use back_end_doc.Common.{◌≡◌, refl, none, Bytes}
use back_end_doc.Db.Transaction.{query, exec, pure, ◌>>=◌}
use back_end_doc.World.{World}
use back_end_doc.World.Healthy.{IsHealthy}
use back_end_doc.World.Leaky.{Leaks, kept-Leaks}
use back_end_doc.GameSocket.UserRepository.{user_called, found_or_kept, find_by_username}

-- A look-up of a name that no account has keeps its connection.
pub find_by_username-Leaks :
    (name : Bytes) (w : World)
    → IsHealthy w
    → user_called name w.db.users ≡ none
    → Leaks w none (find_by_username name w)
unfolding find_by_username found_or_kept query exec pure ◌>>=◌
find_by_username-Leaks name w h e = kept-Leaks none _ w h none w.db (rw e refl)
