-- ===== src/Stable/Others.antt =====
-- What another user of the matching server does (MatchingServer/src/repository) leaves an account in its
-- rooms and with its nickname.
use back_end_doc.Common.{
  arith, ℕ, ◌≡◌, refl, sym, subst, ◌∙◌, Bool, true, false, Option, some, none, List, [], ◌∷◌, ◌==◌,
  if◌then◌else◌, Bytes, Outcome, returned,
}
use back_end_doc.AuthService.{handle_auth}
use back_end_doc.AuthService.Consistency.{handle_auth-Keeps}
use back_end_doc.Db.{Db, User, RoomUser}
use back_end_doc.Db.Query.{
  rooms_of, delete_user, rooms_of-delete_other, has_user, update_user, update_room, count_in,
  complete_games_of,
}
use back_end_doc.GameRepository.{GameResult}
use back_end_doc.GameRepository.Outcomes as Games
use back_end_doc.Request.{ActionName, get_int, Request}
use back_end_doc.RoomRepository.{RoomInfo, closed}
use back_end_doc.RoomRepository.Outcomes as Rooms
use back_end_doc.RoomRepository.Outcomes.{
  create_room_with_host-Created, add_player-Added, remove_player-Removed, without_player,
}
use back_end_doc.RoomService.Consistency.{IsKept}
use back_end_doc.Stable.{IsGameStable, IsAccountStable}
use back_end_doc.UserRepository.{logged_in_at, renamed}
use back_end_doc.UserRepository.Outcomes as Accounts
use back_end_doc.UserRepository.Outcomes.{update_user_nick_name-Changed}
use back_end_doc.World.{Engine}
use back_end_doc.World.Keeps.{Keeps}

-- The nickname of the account with an id.
abbrev pub nick_of : ℕ → List User → Option Bytes
nick_of v [] = none
nick_of v (u ∷ us) = if u.user_id == v then some u.nick_name else nick_of v us

nick_of-has_user :
    (v : ℕ) (n : Bytes) (us : List User) → nick_of v us ≡ some n → has_user v us ≡ true
unfolding has_user
nick_of-has_user v n [] e = absurd (cc)
nick_of-has_user v n (u ∷ us) e = ground (arith, nick_of-has_user v n us)

nick_of-logged :
    (v id now : ℕ) (us : List User)
    → nick_of v (update_user id (logged_in_at now) us) ≡ nick_of v us
unfolding update_user
nick_of-logged v id now [] = refl
nick_of-logged v id now (u ∷ us) = ground (arith, nick_of-logged v id now us)

nick_of-renamed :
    (v id : ℕ) (nick : Bytes) (us : List User)
    → (id == v) ≡ false
    → nick_of v (update_user id (renamed nick) us) ≡ nick_of v us
unfolding update_user
nick_of-renamed v id nick [] h = refl
nick_of-renamed v id nick (u ∷ us) h = ground (arith, nick_of-renamed v id nick us h)

rooms_of-cons :
    (v r u : ℕ) (ps : List RoomUser)
    → (u == v) ≡ false
    → rooms_of v (record { room = r; user = u } ∷ ps) ≡ rooms_of v ps
unfolding rooms_of
rooms_of-cons v r u ps h = ground arith

-- The account `v` is in the rooms `rs`, and has the nickname `n`.
module _ (v : ℕ) (rs : List ℕ) (n : Bytes) where
  abbrev pub HasKept : Db → Type 0
  HasKept db = (rooms_of v db.room_users ≡ rs) × (nick_of v db.users ≡ some n)

  pub games : IsGameStable HasKept
  games = record { start = started; end = ended }
    where
      started :
          (e : Engine) (db after : Db) (o : Outcome GameResult)
          → HasKept db
          → Games.Started e db o after
          → HasKept after
      started e db _ _ c Games.raised = c
      started e db _ _ c Games.refused = c
      started e db after o c (Games.started r m row hit eo ea) = subst HasKept (sym ea) c

      ended :
          (id : ℕ) (db after : Db) (o : Outcome GameResult)
          → HasKept db
          → Games.Ended id db o after
          → HasKept after
      ended id db _ _ c Games.raised = c
      ended id db _ _ c Games.refused = c
      ended id db after o c (Games.ended g hit eo ea) = subst HasKept (sym ea) c

  pub accounts : IsAccountStable HasKept
  accounts = record { open_account = opened; log_in = logged }
    where
      opened :
          (e : Engine) (name hash : Bytes) (now : ℕ) (db after : Db) (o : Outcome ℕ)
          → HasKept db
          → Accounts.Inserted e name hash now db o after
          → HasKept after
      opened e name hash now db _ _ c Accounts.raised = c
      opened e name hash now db _ _ c Accounts.refused = c
      opened e name hash now db after o c (Accounts.inserted free eo ea) =
          let known = nick_of-has_user v n db.users c.1 in
          let new = e.next_user_fresh db.users in subst HasKept (sym ea) (c.0, ground (arith, c.1))

      logged :
          (id now : ℕ) (db after : Db) (o : Outcome Bool)
          → HasKept db
          → Accounts.Changed id (logged_in_at now) db o after
          → HasKept after
      logged id now db _ _ c Accounts.raised = c
      logged id now db _ _ c Accounts.refused = c
      logged id now db after o c (Accounts.changed eo ea) =
          subst HasKept (sym ea) (c.0, nick_of-logged v id now db.users ∙ c.1)

  module _ (own : ℕ) (other : (own == v) ≡ false) where
    opens :
        (host max now : ℕ) (name : Bytes) (db after : Db) (o : Outcome (Option RoomInfo))
        → own ≡ host
        → HasKept db
        → Rooms.Created db host name max now o after
        → HasKept after
    opens host max now name db _ _ e c Rooms.raised = c
    opens host max now name db _ _ e c Rooms.refused = c
    opens host max now name db after o e c (Rooms.opened id r alone l hit t eo ea) =
        subst HasKept (sym ea)
          (rooms_of-cons v id host db.room_users (subst (λ u. (u == v) ≡ false) e other) ∙ c.0, c.1)

    joins :
        (r u : ℕ) (db after : Db) (o : Outcome Bool)
        → own ≡ u
        → HasKept db
        → Rooms.Added db r u o after
        → HasKept after
    joins r u db _ _ e c Rooms.raised = c
    joins r u db _ _ e c Rooms.refused = c
    joins r u db after o e c (Rooms.joined row hit w m l eo ea) =
        subst HasKept (sym ea)
          (rooms_of-cons v r u db.room_users (subst (λ u. (u == v) ≡ false) e other) ∙ c.0, c.1)

    without_player-HasKept :
        (r u : ℕ) (db : Db) → (u == v) ≡ false → HasKept db → HasKept (without_player r u db)
    without_player-HasKept r u db h c = go (count_in r (delete_user u db.room_users) == 0)
      where
        rest : rooms_of v (delete_user u db.room_users) ≡ rs
        rest = rooms_of-delete_other u v db.room_users h ∙ c.0

        go :
            (b : Bool)
            → HasKept (
                if b
                then record db {
                  rooms = update_room r closed db.rooms;
                  room_users = delete_user u db.room_users;
                  games = complete_games_of r db.games;
                }
                else record db { room_users = delete_user u db.room_users })
        go true = (rest, c.1)
        go false = (rest, c.1)

    leaves :
        (u : ℕ) (db after : Db) (o : Outcome Bool)
        → own ≡ u
        → HasKept db
        → Rooms.Removed db u o after
        → HasKept after
    leaves u db _ _ e c Rooms.raised = c
    leaves u db _ _ e c Rooms.refused = c
    leaves u db after o e c (Rooms.left r others in_room eo ea) =
        subst HasKept (sym ea)
          (without_player-HasKept r u db (subst (λ u. (u == v) ≡ false) e other) c)

    pub room-IsKept : (r : Request) → get_int r.user_id ≡ returned own → IsKept HasKept r
    room-IsKept r e = record {
      opens = λ host name max eh m. record {
        after = λ w c.
            opens host max w.now name w.db _ _ (same host eh) c
              (create_room_with_host-Created host name max w);
      };
      joins = λ room user eu. record {
        after = λ w c. joins room user w.db _ _ (same user eu) c (add_player-Added room user w);
      };
      leaves = λ user eu. record {
        after = λ w c. leaves user w.db _ _ (same user eu) c (remove_player-Removed user w);
      };
    }
      where
        same : (u : ℕ) → get_int r.user_id ≡ returned u → own ≡ u
        same u f = ground (arith)

    renames :
        (id : ℕ) (nick : Bytes) (db after : Db) (o : Outcome Bool)
        → own ≡ id
        → HasKept db
        → Accounts.Changed id (renamed nick) db o after
        → HasKept after
    renames id nick db _ _ e c Accounts.raised = c
    renames id nick db _ _ e c Accounts.refused = c
    renames id nick db after o e c (Accounts.changed eo ea) =
        subst HasKept (sym ea)
          (c.0, nick_of-renamed v id nick db.users (subst (λ u. (u == v) ≡ false) e other) ∙ c.1)

    pub auth-Keeps :
        (a : ActionName) (r : Request)
        → get_int r.user_id ≡ returned own
        → Keeps HasKept (handle_auth a r)
    auth-Keeps a r e = handle_auth-Keeps accounts a r λ id nick ei. record {
      after = λ w c.
          renames id nick w.db _ _ (ground (arith)) c (update_user_nick_name-Changed id nick w);
    }
