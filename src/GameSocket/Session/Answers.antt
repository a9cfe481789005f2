-- ===== src/GameSocket/Session/Answers.antt =====
-- What clients of GameSocketServer/src/core/session.cpp are told.
use back_end_doc.Common.{
  ◌≡◌, ◌≢◌, ◌⊎◌, inl, inr, ◌∙◌, ap, refl, ◌∷◌, arith, Outcome, returned, threw,
}
use back_end_doc.Db.{User}
use back_end_doc.Request.{Request, given, ActionName, register, login, game_start, game_end}
use back_end_doc.World.{World}
use back_end_doc.GameSocket
use back_end_doc.GameSocket.{Response, error, logged_in, invalid_format, unknown_game_action}
use back_end_doc.GameSocket.AuthService.{handle_auth, login_user}
use back_end_doc.GameSocket.Session.{
  Site, write, after_auth, answer_auth, act, to_game, handle_game, on_action, process_request,
}

after_auth-sent :
    (o : Outcome Response) (x : Site) → (after_auth o x).sent ≡ error invalid_format ∷ x.sent
unfolding after_auth
after_auth-sent threw x = refl
after_auth-sent (returned (GameSocket.logged_in u)) x = refl
after_auth-sent (returned _) x = refl

answer_auth-sent :
    (o : Outcome Response × World) (x : Site)
    → (answer_auth o x).sent ≡ error invalid_format ∷ x.sent
unfolding answer_auth
answer_auth-sent (o, w) x = after_auth-sent o (record x { world = w })

answer_login :
    (o : Outcome Response × World) (u : User) (x : Site)
    → o.0 ≡ returned (logged_in u)
    → ((answer_auth o x).user_id ≡ u.user_id) × ((answer_auth o x).world ≡ o.1)
unfolding answer_auth after_auth
answer_login (o, w) u x e = rw e (refl, refl)

-- Whatever comes of a request to register or to log in, its client is told that the format of the
-- request is invalid.
pub process_request-auth :
    (r : Request) (a : ActionName) (x : Site)
    → r.action ≡ given a
    → (a ≡ register) ⊎ (a ≡ login)
    → (process_request r x).sent ≡ error invalid_format ∷ x.sent
unfolding process_request on_action act
process_request-auth r a x ea (inl e) =
    ap (λ o. (on_action o r x).sent) (ea ∙ ap given e) ∙ answer_auth-sent _ x
process_request-auth r a x ea (inr e) =
    ap (λ o. (on_action o r x).sent) (ea ∙ ap given e) ∙ answer_auth-sent _ x

-- A login that succeeds logs the session in, in the world that the login leaves, but its client is
-- told that the format of the request is invalid.
pub process_request-login :
    (r : Request) (u : User) (x : Site)
    → r.action ≡ given login
    → (login_user r x.world).0 ≡ returned (logged_in u)
    → ((process_request r x).user_id ≡ u.user_id)
      × ((process_request r x).world ≡ (login_user r x.world).1)
      × ((process_request r x).sent ≡ error invalid_format ∷ x.sent)
unfolding process_request on_action act handle_auth
process_request-login r u x ea ok = (
  ap (λ o. (on_action o r x).user_id) ea ∙ (answer_login (login_user r x.world) u x ok).0,
  ap (λ o. (on_action o r x).world) ea ∙ (answer_login (login_user r x.world) u x ok).1,
  process_request-auth r login x ea (inr refl),
)

to_game-unknown :
    (a : ActionName) (x : Site) → x.user_id ≢ 0 → to_game a x ≡ write (error unknown_game_action) x
unfolding to_game handle_game
to_game-unknown a x ne = ground arith

-- A user who starts or ends a game is told that the action is unknown, and nothing else happens.
pub process_request-game :
    (r : Request) (a : ActionName) (x : Site)
    → r.action ≡ given a
    → (a ≡ game_start) ⊎ (a ≡ game_end)
    → x.user_id ≢ 0
    → process_request r x ≡ write (error unknown_game_action) x
unfolding process_request on_action act
process_request-game r a x ea (inl e) ne =
    ap (λ o. on_action o r x) (ea ∙ ap given e) ∙ to_game-unknown game_start x ne
process_request-game r a x ea (inr e) ne =
    ap (λ o. on_action o r x) (ea ∙ ap given e) ∙ to_game-unknown game_end x ne
