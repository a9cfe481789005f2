-- ===== src/GameSocket/DbPool.antt =====
-- GameSocketServer/src/util/db_pool.cpp: statement by statement the pool of the matching server.
use back_end_doc.Common.{ℕ, Outcome}
use back_end_doc.DbPool
use back_end_doc.DbPool.{Driver, DbPool}

unfoldable pub create : Driver → ℕ → Outcome DbPool
create = DbPool.create

unfoldable pub get_connection : Driver → DbPool → Outcome ℕ × DbPool
get_connection = DbPool.get_connection

unfoldable pub return_connection : ℕ → DbPool → DbPool
return_connection = DbPool.return_connection
