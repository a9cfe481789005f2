-- ===== src/Examples/Sessions.antt =====
-- Tests of the server.
use back_end_doc.Common.{◌≡◌, ◌↔◌, refl, true, false, some, [], ◌∷◌, arith}
use back_end_doc.Server.{Server, Session, idle, is_active, check_inactive_sessions}
use back_end_doc.Server.Table.{lookup, count_value}
use back_end_doc.Server.Login.{OneToken}
use back_end_doc.Server.Sweep.{DistinctKeys, has_key, check_inactive_sessions_iff}
use back_end_doc.Examples.{al}

abbrev pub sample_session : Session
sample_session = record {
  user_id = 1;
  user_name = al;
  nick_name = al;
  status = idle;
  token = some 100;
  is_mirror = false;
  mirror_port = 0;
  remote_ip = 9;
  last_activity = 50000;
  is_open = true;
}

-- Session 11 has been silent for a minute.
abbrev pub sample_server : Server
sample_server = record {
  mirrors = [];
  sessions = (100, 10) ∷ (101, 11) ∷ [];
  tokens = (1, 100) ∷ (2, 101) ∷ [];
  connected_ips = 9 ∷ [];
  objects = (10, sample_session) ∷ (11, record sample_session { last_activity = 1000 }) ∷ [];
  timeout = 30;
  version = [];
}

pub sample_server-OneToken : OneToken sample_server
unfolding count_value
sample_server-OneToken sid = ground arith

sample_server-DistinctKeys : DistinctKeys sample_server.sessions
unfolding has_key
sample_server-DistinctKeys = (refl, (refl, tt))

check_inactive_sessions_iff_example :
    (lookup 100 (check_inactive_sessions 61000 sample_server).0.sessions ≡ some 10) ↔ (
      (lookup 100 sample_server.sessions ≡ some 10)
      × ((s : Session) × (lookup 10 sample_server.objects ≡ some s)
          × (is_active 61000 30 s ≡ true)))
check_inactive_sessions_iff_example =
    check_inactive_sessions_iff 61000 sample_server 100 10 sample_server-DistinctKeys
