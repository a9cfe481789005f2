-- ===== src/Session/Once.antt =====
-- One login per user (`process_request` of MatchingServer/src/core/session.cpp).
use back_end_doc.Common.{
  ℕ, ◌≡◌, ◌≢◌, ◌∙◌, ap, refl, true, false, Option, some, none, ◌∷◌, returned, arith, if◌then◌else◌,
  ◌==◌,
}
use back_end_doc.AuthService.{handle_auth, login_user}
use back_end_doc.Db.{User}
use back_end_doc.Request.{Request, given, login}
use back_end_doc.Response.{error, logged_in, already_logged_in}
use back_end_doc.Server.{Server, Session, check_already_login, register_session}
use back_end_doc.Server.Table.{lookup, erase_value, lookup-insert}
use back_end_doc.Session.{Site, answered, change_object, change_session, reply}
use back_end_doc.Session.Requests.{
  logged, to_auth, act, caught, on_action, registered_as, after_login, after_response,
  after_controller, process_request,
}

change_tables :
    (f : Session → Session) (sid : ℕ) (o : Option Session) (v : Server)
    → ((change_object f sid o v).sessions ≡ v.sessions)
      × ((change_object f sid o v).tokens ≡ v.tokens)
change_tables f sid none v = (refl, refl)
change_tables f sid (some s) v = (refl, refl)

module _ (uuid sid : ℕ) (s : Session) (r : Request) (u : User) (x : Site) (z : s.user_id ≡ 0)
    (ea : r.action ≡ given login)
    (ok : (login_user r x.world).0 ≡ returned (logged_in (some u))) where
  logs_in :
      process_request uuid sid s r x
      ≡ caught sid (after_login uuid sid (some u) (record x { world = (login_user r x.world).1 }))
  unfolding process_request on_action act to_auth handle_auth after_controller after_response
  logs_in =
      ap (on_action uuid sid s r x) ea
      ∙ ap
          (λ b. caught sid (
            after_controller uuid sid (
              answered x
                (login_user (if b == 0 then r else record r { user_id = given b }) x.world))))
          z
      ∙ ap (λ o. caught sid (after_controller uuid sid (answered x (o, (login_user r x.world).1))))
          ok

  -- Where a session that is not logged in asks for "login", and `loginUser` answers with a user who has
  -- a token already, the server stays as it was, and the session is told why.
  pub process_request-already :
      check_already_login u.user_id x.server ≡ true
      → ((process_request uuid sid s r x).1.server ≡ x.server)
        × ((process_request uuid sid s r x).1.sent
            ≡ (sid, reply (error already_logged_in)) ∷ x.sent)
  unfolding after_login caught
  process_request-already again = rw (logs_in, again) (refl, refl)

  -- Where a session that is not logged in asks for "login", and `loginUser` answers with a user whose id
  -- is not 0 and who has no token, the user gets the new token, which stands for this session.
  pub process_request-registers :
      u.user_id ≢ 0
      → check_already_login u.user_id x.server ≡ false
      → (lookup u.user_id (process_request uuid sid s r x).1.server.tokens ≡ some uuid)
        × (lookup uuid (process_request uuid sid s r x).1.server.sessions ≡ some sid)
  unfolding after_login caught registered_as change_session register_session
  process_request-registers ne fresh =
      rw (logs_in, fresh)
        (
          ap (lookup u.user_id) (change_tables _ sid _ registered).1
              ∙ ground (arith, lookup-insert u.user_id u.user_id uuid changed.tokens),
          ap (lookup uuid) (change_tables _ sid _ registered).0
              ∙ ground (arith, lookup-insert uuid uuid sid (erase_value sid changed.sessions)),
        )
    where
      changed : Server
      changed = change_object (logged u) sid (lookup sid x.server.objects) x.server

      registered : Server
      registered = register_session uuid sid u.user_id changed
