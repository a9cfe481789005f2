-- ===== src/Lifecycle/Refinement.antt =====
-- The whole life of the matching server (MatchingServer/src/core/server.cpp) against the lobby.
use back_end_doc.Lifecycle.{Machine}
use back_end_doc.Lifecycle.Timers.{Lives, IsTimed, Lives-Good}
use back_end_doc.Lobby.{Plays, rests, lobby_of}
use back_end_doc.Lobby.Refinement.{Follows-IsStable}
use back_end_doc.RoomRepository.Consistent.{IsConsistent}

-- From consistent tables, where the flags and the timers agree with `running_`: over every sequence of
-- starts, stops, fired timers and steps of the sessions, whichever statements throw, what the tables
-- say of the rooms changes by moves of the lobby only.
pub Lives-Plays :
    (m n : Machine)
    → Lives m n
    → IsConsistent m.site.world.db
    → IsTimed m
    → Plays (lobby_of m.site.world.db) (lobby_of n.site.world.db)
Lives-Plays m n l c t =
    let start = lobby_of m.site.world.db in
    (Lives-Good (Follows-IsStable start) m n l
      (record { tables = record { consistency = c; played = rests }; timed = t })).tables.played
