-- ===== src/AuthService/Renaming.antt =====
-- `updateNickName` of MatchingServer/src/service/auth_service.cpp where no statement throws.
use back_end_doc.Common.{ℕ, not, ltb, ◌&&◌, ◌≡◌, ◌∙◌, refl, Bool, true, false, Bytes, returned}
use back_end_doc.Db.Query.{has_user}
use back_end_doc.Names.{is_valid_nick_name}
use back_end_doc.Request.{Request, given, to_int}
use back_end_doc.UserRepository.{characters, update_user_nick_name}
use back_end_doc.UserRepository.Healthy.{with_nick_name, update_user_nick_name-Runs}
use back_end_doc.World.{World, ◌>>=◌}
use back_end_doc.World.Healthy.{IsHealthy, Runs}
use back_end_doc.AuthService.{update_nick_name_of, nick_name_result}
use back_end_doc.World.Binding.{split_run}

result_db : (nick : Bytes) (b : Bool) (w : World) → (nick_name_result nick b w).1.db ≡ w.db
unfolding nick_name_result
result_db nick true w = refl
result_db nick false w = refl

pub update_nick_name_of-renames :
    (r : Request) (id : ℕ) (nick : Bytes) (w : World)
    → IsHealthy w
    → r.user_id ≡ given id
    → r.nick_name ≡ given nick
    → is_valid_nick_name nick ≡ true
    → (update_nick_name_of r w).1.db ≡ with_nick_name (to_int id) nick w.db
unfolding update_nick_name_of ◌>>=◌
update_nick_name_of-renames r id nick w h ei en ev =
    rw (ei, en, ev, split_run (update_user_nick_name (to_int id) nick w) _ run.outcome)
      (result_db nick (not (ltb 16 (characters nick)) && has_user (to_int id) w.db.users) _
        ∙ run.tables)
  where
    run :
        Runs w
          (returned (not (ltb 16 (characters nick)) && has_user (to_int id) w.db.users))
          (with_nick_name (to_int id) nick w.db)
          (update_user_nick_name (to_int id) nick w)
    run = update_user_nick_name-Runs (to_int id) nick w h
