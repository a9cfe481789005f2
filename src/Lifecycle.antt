-- ===== src/Lifecycle.antt =====
-- MatchingServer/src/core/server.cpp: `run`, `stop`, the timers and the broadcasts, around the sessions.
-- A timer that waits is `armed`; the cancelling of a timer, whose handler then does nothing, disarms it.
pub mod Timers
pub mod Stopping
pub mod Hearing
pub mod Refinement
pub mod Accepting
pub mod Listening
pub mod Beginning
use back_end_doc.Common.{
  ℕ, Bool, true, false, not, ◌||◌, Option, none, some, List, [], ◌∷◌, if◌then◌else◌, Bytes,
}
use back_end_doc.Server.{
  Status, Session, Server, check_inactive_sessions, get_waiting_sessions, broadcast_ccu,
}
use back_end_doc.Server.Table.{lookup}
use back_end_doc.Session.{Site, handle_error}

pub data Broadcast : Type 0 where
  ccu_list : List (Bytes × Status) → Broadcast
  new_login : Bytes → Broadcast
  chat : Bytes → Bytes → Broadcast

pub record Machine : Type 0 where
  pub site : Site
  pub is_running : Bool
  pub is_checking : Bool
  pub is_broadcasting : Bool
  pub is_accepting : Bool
  pub check_armed : Bool
  pub broadcast_armed : Bool
  pub heard : List (ℕ × Broadcast)

-- `broadcastActiveUser`
unfoldable pub broadcast_active_user : Broadcast → List ℕ → Machine → Machine
broadcast_active_user b [] m = m
broadcast_active_user b (sid ∷ sids) m =
    broadcast_active_user b sids (record m { heard = (sid, b) ∷ m.heard })

unfoldable pub broadcast_login : Bytes → Machine → Machine
broadcast_login nick_name m =
    broadcast_active_user (new_login nick_name) (get_waiting_sessions m.site.server) m

unfoldable pub broadcast_chat : Bytes → Bytes → Machine → Machine
broadcast_chat nick_name message m =
    broadcast_active_user (chat nick_name message) (get_waiting_sessions m.site.server) m

unfoldable pub send_ccu : Machine → Machine
send_ccu m =
    let (users, sids) = broadcast_ccu m.site.server in broadcast_active_user (ccu_list users) sids m

unfoldable pub set_session_timeout : ℕ → Machine → Machine
set_session_timeout seconds m = record m {
  site = record m.site { server = record m.site.server { timeout = seconds } };
}

-- `handle_error` of each of the sessions that is alive.
close_if : Option Session → ℕ → Site → Site
close_if none sid x = x
close_if (some s) sid x = handle_error sid s x

unfoldable pub close_all : List ℕ → Site → Site
unfolding close_if
close_all [] x = x
close_all (sid ∷ sids) x = close_all sids (close_if (lookup sid x.server.objects) sid x)

-- `check_inactive_sessions`. As `handle_error` leaves the map of sessions alone, the entries are
-- erased before the sessions are closed.
sweep : Server × List ℕ → Machine → Machine
sweep (v, stale) m = record m {
  site = close_all stale (record m.site { server = v });
  check_armed = true;
}

unfoldable pub check_inactive : Machine → Machine
unfolding sweep
check_inactive m =
    if not m.is_running || not m.is_checking
    then m
    else sweep (check_inactive_sessions m.site.world.now m.site.server) m

unfoldable pub start_session_timeout_check : Machine → Machine
start_session_timeout_check m =
    if m.is_checking then m else check_inactive (record m { is_checking = true })

unfoldable pub schedule_broadcast : Machine → Machine
schedule_broadcast m =
    if not m.is_running || not m.is_broadcasting then m else record m { broadcast_armed = true }

unfoldable pub start_broadcast_timer : Machine → Machine
start_broadcast_timer m =
    if m.is_broadcasting then m else schedule_broadcast (record m { is_broadcasting = true })

unfoldable pub run : Machine → Machine
run m =
    start_broadcast_timer
      (start_session_timeout_check (record m { is_running = true; is_accepting = true }))

abbrev pub values : List (ℕ × ℕ) → List ℕ
values [] = []
values ((token, sid) ∷ rest) = sid ∷ values rest

abbrev pub forget_sessions : Site → Site
forget_sessions x = record x { server = record x.server { sessions = [] } }

unfoldable pub stop : Machine → Machine
stop m = if not m.is_running then m else record m {
  site = forget_sessions (close_all (values m.site.server.sessions) m.site);
  is_running = false;
  is_checking = false;
  is_broadcasting = false;
  is_accepting = false;
  check_armed = false;
  broadcast_armed = false;
}

-- The handlers of the two timers.
unfoldable pub check_fires : Machine → Machine
check_fires m = check_inactive (record m { check_armed = false })

unfoldable pub broadcast_fires : Machine → Machine
broadcast_fires m = schedule_broadcast (send_ccu (record m { broadcast_armed = false }))
