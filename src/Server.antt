-- ===== src/Server.antt =====
-- MatchingServer/src/core/server.{h,cpp}: who is connected. Tokens and IP addresses are numbers that
-- stand for their texts, and a session object is the number of its pointer; `objects` are the
-- sessions that are alive, so `lock()` of a weak pointer is a look-up there. Every method runs under
-- its mutexes, so it is one step. The order of a map is that of the list.
pub mod Table
pub mod Sweep
pub mod Login
use back_end_doc.Common.{
  ℕ, ◌+◌, ◌-◌, ◌/◌, Bool, true, false, not, ◌&&◌, ◌||◌, Option, none, some, List, [], ◌∷◌, ◌==◌,
  ltb, if◌then◌else◌, length, member, Bytes,
}
use Table.{lookup, insert, erase, erase_value}

-- `status_` of a session: empty, "대기중", "게임중", or "N번 방".
pub data Status : Type 0 where
  unset idle playing : Status
  in_room : ℕ → Status

pub record Session : Type 0 where
  pub user_id : ℕ
  pub user_name : Bytes
  pub nick_name : Bytes
  pub status : Status
  pub token : Option ℕ
  pub is_mirror : Bool
  pub mirror_port : ℕ
  pub remote_ip : ℕ
  pub last_activity : ℕ
  pub is_open : Bool

pub record Server : Type 0 where
  pub mirrors : List (ℕ × ℕ)
  pub sessions : List (ℕ × ℕ)
  pub tokens : List (ℕ × ℕ)
  pub connected_ips : List ℕ
  pub objects : List (ℕ × Session)
  pub timeout : ℕ
  pub version : Bytes

-- Session::isActive: whole seconds since the last ping, from milliseconds.
unfoldable pub is_active : ℕ → ℕ → Session → Bool
is_active now timeout s = ltb ((now - s.last_activity) / 1000) timeout

unfoldable pub check_already_login : ℕ → Server → Bool
check_already_login user_id v = elim (lookup user_id v.tokens) [ none ↦ false | some _ ↦ true ]

-- registerSession: `token` is what the generator of UUIDs gives, `sid` and `user_id` are the session.
-- The entry that the session had is erased.
unfoldable pub register_session : ℕ → ℕ → ℕ → Server → Server
register_session token sid user_id v = record v {
  sessions = insert token sid (erase_value sid v.sessions);
  tokens = if user_id == 0 then v.tokens else insert user_id token v.tokens;
}

unfoldable pub register_mirror_session : ℕ → ℕ → Server → Server
register_mirror_session sid port v = record v {
  mirrors = insert port sid (erase_value sid v.mirrors);
}

unfoldable pub remove_session : ℕ → ℕ → Server → Server
remove_session token user_id v = record v {
  sessions = erase token v.sessions;
  tokens = erase user_id v.tokens;
}

unfoldable pub remove_mirror_session : ℕ → Server → Server
remove_mirror_session port v = record v { mirrors = erase port v.mirrors }

-- An entry whose session is gone is erased from the map.
unfoldable pub get_session : ℕ → Server → Option ℕ × Server
get_session token v = elim (lookup token v.sessions) [
  | none ↦ (none, v)
  | some sid ↦ elim (lookup sid v.objects) [
    | none ↦ (none, record v { sessions = erase token v.sessions })
    | some _ ↦ (some sid, v)
  ]
]

unfoldable pub get_mirror_session : ℕ → Server → Option ℕ × Server
get_mirror_session port v = elim (lookup port v.mirrors) [
  | none ↦ (none, v)
  | some sid ↦ elim (lookup sid v.objects) [
    | none ↦ (none, record v { mirrors = erase port v.mirrors })
    | some _ ↦ (some sid, v)
  ]
]

unfoldable pub get_ccu : Server → ℕ
get_ccu v = length v.sessions

unfoldable pub get_room_capacity : Server → ℕ
get_room_capacity v = length v.mirrors

unfoldable pub is_idle : Status → Bool
is_idle idle = true
is_idle _ = false

-- The test of the loops of `getWaitingSessions` and `broadcastCCU` on one entry.
unfoldable pub is_waiting_session : Option Session → Bool
unfolding is_idle
is_waiting_session none = false
is_waiting_session (some s) = not (s.user_id == 0) && is_idle s.status

unfoldable pub waiting_in : List (ℕ × Session) → List (ℕ × ℕ) → List ℕ
waiting_in objects [] = []
waiting_in objects ((token, sid) ∷ rest) =
    let others = waiting_in objects rest in
    if is_waiting_session (lookup sid objects) then sid ∷ others else others

unfoldable pub get_waiting_sessions : Server → List ℕ
unfolding waiting_in
get_waiting_sessions v = waiting_in v.objects v.sessions

-- The users that `broadcastCCU` lists: nickname and status of every logged-in session.
listed_user : Option Session → Option (Bytes × Status)
listed_user none = none
listed_user (some s) = if s.user_id == 0 then none else some (s.nick_name, s.status)

cons_some {ℓ} : {A : Type ℓ} → Option A → List A → List A
cons_some none xs = xs
cons_some (some a) xs = a ∷ xs

users_in : List (ℕ × Session) → List (ℕ × ℕ) → List (Bytes × Status)
unfolding listed_user cons_some
users_in objects [] = []
users_in objects ((token, sid) ∷ rest) =
    cons_some (listed_user (lookup sid objects)) (users_in objects rest)

-- broadcastCCU: the list of users, and the sessions that it is written to.
unfoldable pub broadcast_ccu : Server → List (Bytes × Status) × List ℕ
unfolding users_in
broadcast_ccu v = (users_in v.objects v.sessions, get_waiting_sessions v)

unfoldable pub allow_connection : ℕ → Server → Bool × Server
allow_connection ip v =
    if member ip v.connected_ips
    then (false, v)
    else (true, record v { connected_ips = ip ∷ v.connected_ips })

unfoldable pub remove_number : ℕ → List ℕ → List ℕ
remove_number a [] = []
remove_number a (x ∷ xs) = let rest = remove_number a xs in if x == a then rest else x ∷ rest

unfoldable pub remove_connection : ℕ → Server → Server
unfolding remove_number
remove_connection ip v = record v { connected_ips = remove_number ip v.connected_ips }

-- The tokens that `check_inactive_sessions` collects: of dead sessions and of those timed out.
keeps : ℕ → ℕ → Option Session → Bool
keeps now timeout none = false
keeps now timeout (some s) = is_active now timeout s

unfoldable pub stale_tokens : ℕ → ℕ → List (ℕ × Session) → List (ℕ × ℕ) → List ℕ
unfolding keeps
stale_tokens now timeout objects [] = []
stale_tokens now timeout objects ((token, sid) ∷ rest) =
    let others = stale_tokens now timeout objects rest in
    if keeps now timeout (lookup sid objects) then others else token ∷ others

unfoldable pub erase_all : List ℕ → List (ℕ × ℕ) → List (ℕ × ℕ)
erase_all [] m = m
erase_all (t ∷ ts) m = erase_all ts (erase t m)

-- The session of a stale token, if it is alive: `handle_error` is called on it.
still_alive : List (ℕ × Session) → Option ℕ → Option ℕ
still_alive objects none = none
still_alive objects (some sid) = elim (lookup sid objects) [ none ↦ none | some _ ↦ some sid ]

closing : List (ℕ × Session) → List (ℕ × ℕ) → List ℕ → List ℕ
unfolding cons_some still_alive
closing objects sessions [] = []
closing objects sessions (t ∷ ts) =
    cons_some (still_alive objects (lookup t sessions)) (closing objects sessions ts)

-- check_inactive_sessions: the server without the stale entries, and the sessions to close.
unfoldable pub check_inactive_sessions : ℕ → Server → Server × List ℕ
unfolding stale_tokens erase_all closing
check_inactive_sessions now v =
    let stale = stale_tokens now v.timeout v.objects v.sessions in
    (record v { sessions = erase_all stale v.sessions }, closing v.objects v.sessions stale)

-- setSessionStatus: the users with a token whose session is registered. Where the session is no longer
-- alive the code dereferences a null pointer, which is `none`.
set_status : Bool → Session → Session
set_status true s = record s { status = playing }
set_status false s = record s { status = idle }

unfoldable pub set_status_of : Bool → ℕ → Server → Option Server
unfolding set_status
set_status_of flag user_id v = elim (lookup user_id v.tokens) [
  | none ↦ some v
  | some token ↦ elim (lookup token v.sessions) [
    | none ↦ some v
    | some sid ↦ elim (lookup sid v.objects) [
      | none ↦ none
      | some s ↦ some (record v { objects = insert sid (set_status flag s) v.objects })
    ]
  ]
]

unfoldable pub set_session_status : Bool → List ℕ → Server → Option Server
set_session_status flag [] v = some v
set_session_status flag (u ∷ us) v = elim (set_status_of flag u v) [
  | none ↦ none
  | some w ↦ set_session_status flag us w
]
