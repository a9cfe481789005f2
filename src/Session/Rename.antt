-- ===== src/Session/Rename.antt =====
-- `updateNickName` in a session that is not logged in (`process_request` of
-- MatchingServer/src/core/session.cpp).
use back_end_doc.Common.{
  ℕ, ltb, ◌≡◌, ◌∙◌, ap, refl, Bool, true, false, Option, none, some, Bytes, Outcome, returned,
  threw, if◌then◌else◌, ◌==◌,
}
use back_end_doc.AuthService.{handle_auth, update_nick_name_of}
use back_end_doc.AuthService.Renaming.{update_nick_name_of-renames}
use back_end_doc.Db.Query.{update_user}
use back_end_doc.Names.{is_valid_nick_name}
use back_end_doc.Request.{Request, given, to_int, update_nick_name}
use back_end_doc.Response.{Response}
use back_end_doc.Server.{Server, Session}
use back_end_doc.UserRepository.{characters, renamed}
use back_end_doc.World.{World}
use back_end_doc.World.Healthy.{IsHealthy}
use back_end_doc.Session.{Site, Step, change_session}
use back_end_doc.Session.Requests.{
  to_auth, act, caught, on_action, registered_as, after_login, told_mirror, told_statuses,
  after_response, after_controller, process_request,
}

if_world :
    (b : Bool) (y z : Step) (w : World)
    → y.1.world ≡ w
    → z.1.world ≡ w
    → (if b then y else z).1.world ≡ w
if_world true y z w hy hz = hy
if_world false y z w hy hz = hz

statuses-world :
    (sid : ℕ) (r : Response) (o : Option Server) (x : Site)
    → (told_statuses sid r o x).world ≡ x.world
unfolding told_statuses
statuses-world sid r none x = refl
statuses-world sid r (some v) x = refl

-- What follows a response changes the server and writes messages; the world of the services stays.
after_response-world :
    (uuid sid : ℕ) (r : Response) (x : Site) → (after_response uuid sid r x).1.world ≡ x.world
unfolding after_response after_login told_mirror change_session registered_as
after_response-world uuid sid (Response.logged_in none) x = if_world _ _ _ x.world refl refl
after_response-world uuid sid (Response.logged_in (some u)) x = if_world _ _ _ x.world refl refl
after_response-world uuid sid (Response.created_room info) x = go _
  where
    go : (m : Option ℕ × Server) → (told_mirror sid info m x).world ≡ x.world
    go (none, v) = refl
    go (some mirror, v) = refl
after_response-world uuid sid (Response.joined_room id) x = refl
after_response-world uuid sid Response.exited_room x = refl
after_response-world uuid sid (Response.started_game id users) x = statuses-world sid _ _ x
after_response-world uuid sid (Response.ended_game id users) x = statuses-world sid _ _ x
after_response-world uuid sid (Response.nick_name_updated nick) x = refl
after_response-world uuid sid _ x = refl

pub after_controller-world :
    (uuid sid : ℕ) (y : Outcome Response × Site)
    → (caught sid (after_controller uuid sid y)).1.world ≡ y.1.world
unfolding after_controller caught
after_controller-world uuid sid (threw, x) = refl
after_controller-world uuid sid (returned r, x) =
    go (after_response uuid sid r x) ∙ after_response-world uuid sid r x
  where
    go : (y : Step) → (caught sid y).1.world ≡ y.1.world
    go (returned tt, z) = refl
    go (threw, z) = refl

-- Where no statement throws and every connection can be made, on a valid nickname: a session that is not
-- logged in gives it to the account whose id its request names. But where it has more than 16
-- characters, which the column does not hold, nothing in the tables changes.
pub process_request-renames :
    (uuid sid id : ℕ) (nick : Bytes) (s : Session) (r : Request) (x : Site)
    → IsHealthy x.world
    → s.user_id ≡ 0
    → r.action ≡ given update_nick_name
    → r.user_id ≡ given id
    → r.nick_name ≡ given nick
    → is_valid_nick_name nick ≡ true
    → (process_request uuid sid s r x).1.world.db ≡ (
        if ltb 16 (characters nick)
        then x.world.db
        else record x.world.db { users = update_user (to_int id) (renamed nick) x.world.db.users })
unfolding process_request on_action act to_auth handle_auth
process_request-renames uuid sid id nick s r x h z ea ei en ev =
    ap (λ o. (on_action uuid sid s r x o).1.world.db) ea
    ∙ ap (λ w. w.db) (after_controller-world uuid sid _)
    ∙ ap
        (λ b.
          (update_nick_name_of (if b == 0 then r else record r { user_id = given b }) x.world).1.db)
        z
    ∙ update_nick_name_of-renames r id nick x.world h ei en ev
