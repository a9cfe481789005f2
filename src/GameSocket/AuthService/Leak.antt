-- ===== src/GameSocket/AuthService/Leak.antt =====
-- What logins under unknown names cost (GameSocketServer/src/service/auth_service.cpp).
use back_end_doc.Common.{ℕ, zero, suc, ◌+◌, ◌≡◌, ◌∙◌, ap, refl, none, arith, Bytes}
use back_end_doc.DbPool.Vectors.{busy}
use back_end_doc.Request.{Request, given}
use back_end_doc.World.{World, ◌>>=◌}
use back_end_doc.World.Binding.{split_run}
use back_end_doc.World.Healthy.{IsHealthy}
use back_end_doc.World.Leaky.{Leaks}
use back_end_doc.GameSocket.{error, invalid_user_name}
use back_end_doc.GameSocket.UserRepository.{user_called, find_by_username}
use back_end_doc.GameSocket.UserRepository.Leak.{find_by_username-Leaks}
use back_end_doc.GameSocket.AuthService.{login_user, login_found}

-- The same login, so many times.
pub repeat_login : Request → ℕ → World → World
repeat_login r zero w = w
repeat_login r (suc n) w = repeat_login r n (login_user r w).1

module _ (r : Request) (name : Bytes) (named : r.user_name ≡ given name) where
  login_user-Leaks :
      (w : World)
      → IsHealthy w
      → user_called name w.db.users ≡ none
      → Leaks w (error invalid_user_name) (login_user r w)
  unfolding login_user login_found ◌>>=◌
  login_user-Leaks w h new =
      let l = find_by_username-Leaks name w h new in
      rw (named, split_run (find_by_username name w) _ l.outcome)
        (record {
          outcome = refl;
          tables = l.tables;
          one_more = l.one_more;
          healthy = l.healthy;
          engine = l.engine;
        })

  -- Where no statement throws and every connection can be made, so many logins under a name that no
  -- account has leave so many more connections in use, in a valid pool.
  pub repeat_login-leaks :
      (n : ℕ) (w : World)
      → IsHealthy w
      → user_called name w.db.users ≡ none
      → (busy (repeat_login r n w).pool.in_use ≡ n + busy w.pool.in_use)
        × IsHealthy (repeat_login r n w)
  unfolding repeat_login
  repeat_login-leaks zero w h new = (omega arith, h)
  repeat_login-leaks (suc n) w h new =
      let l = login_user-Leaks w h new in
      let rest =
        repeat_login-leaks n (login_user r w).1 l.healthy
          (ap (λ db. user_called name db.users) l.tables ∙ new) in
      (omega (arith, rest.0, l.one_more), rest.1)
