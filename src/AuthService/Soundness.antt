-- ===== src/AuthService/Soundness.antt =====
-- Who is let in (MatchingServer/src/service/auth_service.cpp).
use back_end_doc.Common.{
  ◌≡◌, refl, ap, subst, ◌∙◌, Bool, true, false, not, ◌||◌, Option, none, some, arith, if◌then◌else◌,
  Outcome, returned, Bytes,
}
use back_end_doc.Db.{Db, User}
use back_end_doc.PasswordUtil.{verify_password}
use back_end_doc.Request.{Request, contains, get}
use back_end_doc.Response.{Response, error, logged_in, missing_fields}
use back_end_doc.UserRepository.{user_named, find_by_username, update_last_login}
use back_end_doc.UserRepository.Outcomes
use back_end_doc.UserRepository.Outcomes.{Found, find_by_username-Found, find_by_username_engine}
use back_end_doc.World.{World, Engine, Action, return, lift, ◌>>=◌}
use back_end_doc.World.Binding.{bind_rule}
use back_end_doc.AuthService.{verified, welcome, login_found, login_user}

-- The account that is let in is the first of the name in the request, and the password of the
-- request verifies against its hash.
pub record Admits (r : Request) (w : World) (o : Option User) : Type 0 where
  pub account : User
  pub name : Bytes
  pub password : Bytes
  pub is_account : o ≡ some account
  pub name_given : get r.user_name ≡ returned name
  pub password_given : get r.password ≡ returned password
  pub known : user_named w.engine name w.db.users ≡ some account
  pub verifies : verify_password w.engine password account.password_hash ≡ true

abbrev AdmitsIf : Request → World → Outcome Response × World → Type 0
AdmitsIf r w x = (o : Option User) → x.0 ≡ returned (logged_in o) → Admits r w o

module _ (r : Request) (w : World) where
  welcome-AdmitsIf :
      (u : User) (b : Bool) (v : World)
      → (b ≡ true → Admits r w (some u))
      → AdmitsIf r w (welcome u b v)
  unfolding welcome
  welcome-AdmitsIf u false v h = λ o e. absurd (ground arith)
  welcome-AdmitsIf u true v h =
      bind_rule (AdmitsIf r w) (update_last_login u.user_id) _ v (λ _ o e. absurd (ground arith))
        λ _ _ o e. subst (Admits r w) (ground arith) (h refl)

  login_found-AdmitsIf :
      (name : Bytes) (u : Option User) (v : World)
      → v.engine ≡ w.engine
      → get r.user_name ≡ returned name
      → ((x : User) → u ≡ some x → user_named w.engine name w.db.users ≡ some x)
      → AdmitsIf r w (login_found r.password u v)
  unfolding login_found verified
  login_found-AdmitsIf name none v same en h = λ o e. absurd (ground arith)
  login_found-AdmitsIf name (some u) v same en h =
      bind_rule (AdmitsIf r w) (lift (get r.password)) _ v (λ _ o e. absurd (ground arith))
        λ text et.
          bind_rule (AdmitsIf r w) (verified text u.password_hash) (welcome u) v
            (λ _ o e. absurd (ground arith))
            λ b eb. welcome-AdmitsIf u b v λ yes_. record {
              account = u;
              name = name;
              password = text;
              is_account = refl;
              name_given = en;
              password_given = et;
              known = h u refl;
              verifies =
                  subst (λ e. verify_password e text u.password_hash ≡ true) same (ground arith);
            }

Found_some :
    {e : Engine} {name : Bytes} {before after : Db} {o : Outcome (Option User)} (u : User)
    → Found e name before o after
    → o ≡ returned (some u)
    → user_named e name before.users ≡ some u
Found_some u Outcomes.raised h = absurd (cc)
Found_some u Outcomes.missing h = absurd (ground arith)
Found_some u (Outcomes.found x known eo) h = ground arith

-- If `loginUser` answers that a user is logged in, then the name and the password were in the
-- request, the account is the first of that name, and the password has the account's hash.
pub login_user-Admits :
    (r : Request) (w : World) (o : Option User)
    → (login_user r w).0 ≡ returned (logged_in o)
    → Admits r w o
unfolding login_user
login_user-Admits r w = guarded (not (contains r.user_name) || not (contains r.password))
  where
    search_ : Action Response
    search_ = lift (get r.user_name) >>= λ name.
        find_by_username name >>= λ user. login_found r.password user

    searched : AdmitsIf r w (search_ w)
    searched =
        bind_rule (AdmitsIf r w) (lift (get r.user_name)) _ w (λ _ o e. absurd (ground arith))
          λ name en.
            bind_rule (AdmitsIf r w) (find_by_username name) (login_found r.password) w
              (λ _ o e. absurd (ground arith))
              λ u eu.
                login_found-AdmitsIf r w name u _ (find_by_username_engine name w) en
                  λ x ex. Found_some x (find_by_username-Found name w) (eu ∙ ap returned ex)

    guarded : (b : Bool) → AdmitsIf r w ((if b then return (error missing_fields) else search_) w)
    guarded true = λ o e. absurd (ground arith)
    guarded false = searched
