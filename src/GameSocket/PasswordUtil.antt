-- ===== src/GameSocket/PasswordUtil.antt =====
-- GameSocketServer/src/util/password_util.cpp: statement by statement that of the matching server.
use back_end_doc.Common.{Bool, Bytes}
use back_end_doc.PasswordUtil
use back_end_doc.World.{Engine}

unfoldable pub hash_password : Engine → Bytes → Bytes
hash_password = PasswordUtil.hash_password

unfoldable pub verify_password : Engine → Bytes → Bytes → Bool
verify_password = PasswordUtil.verify_password
