-- ===== src/Session/Tokens/Runs.antt =====
-- The map of tokens over every run of the sessions (MatchingServer/src/core/session.cpp and
-- MatchingServer/src/core/server.cpp).
use back_end_doc.Common.{
  ℕ, ◌≤◌, Bool, true, false, Option, none, some, List, [], ◌∷◌, if◌then◌else◌, arith,
}
use back_end_doc.Server.{
  Server, Session, stale_tokens, erase_all, check_inactive_sessions, remove_session,
  remove_mirror_session, remove_connection,
}
use back_end_doc.Server.Login.{OneToken, count-erase, registered-Once}
use back_end_doc.Server.Table.{count_value}
use back_end_doc.Session.{Site, destroy, forget_token, forget_mirror}
use back_end_doc.Session.Runs.{
  Happens, accepts, shakes_hands, reads, breaks, dies, sweeps, turns, Reaches, stays, goes_on,
}
use back_end_doc.Session.Tokens.{IsTokenStable}
use back_end_doc.Session.Tokens.Steps.{handle_error-Kept, read_message-Kept, read_handshake-Kept}

module _ {P : List (ℕ × ℕ) → Type 0} (st : IsTokenStable P) where
  erase_all-Kept : (ts : List ℕ) (m : List (ℕ × ℕ)) → P m → P (erase_all ts m)
  unfolding erase_all
  erase_all-Kept [] m c = c
  erase_all-Kept (t ∷ ts) m c = erase_all-Kept ts _ (st.erases t m c)

  either : (b : Bool) (v w : Server) → P v.sessions → P w.sessions → P (if b then v else w).sessions
  either true v w hv hw = hv
  either false v w hv hw = hw

  forget_mirror-Kept : (s : Session) (v : Server) → P v.sessions → P (forget_mirror s v).sessions
  unfolding forget_mirror remove_mirror_session
  forget_mirror-Kept s v c = either s.is_mirror _ v c c

  forget_token-Kept :
      (o : Option ℕ) (u : ℕ) (v : Server) → P v.sessions → P (forget_token o u v).sessions
  unfolding forget_token remove_session
  forget_token-Kept none u v c = c
  forget_token-Kept (some token) u v c = st.erases token v.sessions c

  Happens-Kept : {x y : Site} → Happens x y → P x.server.sessions → P y.server.sessions
  unfolding destroy remove_connection check_inactive_sessions
  Happens-Kept (accepts sid s e n) c = c
  Happens-Kept {x} (shakes_hands uuid next sid s h e) c =
      read_handshake-Kept st uuid next sid s h x c
  Happens-Kept {x} (reads uuid sid s m e) c = read_message-Kept st uuid sid s m x c
  Happens-Kept {x} (breaks sid s e) c = handle_error-Kept st sid s x c
  Happens-Kept {x} (dies sid s e) c =
      forget_token-Kept s.token s.user_id _ (forget_mirror-Kept s _ c)
  Happens-Kept {x} (sweeps now) c =
      erase_all-Kept (stale_tokens now x.server.timeout x.server.objects x.server.sessions)
        x.server.sessions c
  Happens-Kept (turns now faults) c = c

  Reaches-Kept : (x y : Site) → Reaches x y → P x.server.sessions → P y.server.sessions
  Reaches-Kept x y stays c = c
  Reaches-Kept x y (goes_on r h) c = Happens-Kept h (Reaches-Kept x _ r c)

-- Every session has one entry at most.
abbrev Once : List (ℕ × ℕ) → Type 0
Once m = (sid : ℕ) → count_value sid m ≤ 1

Once-IsTokenStable : IsTokenStable Once
Once-IsTokenStable = record {
  registers = λ token sid m h. registered-Once token sid m h;
  erases = λ token m h sid. omega (arith, count-erase sid token m, h sid);
}

-- From a server on which every session is registered under one token at most: whatever happens to the
-- sessions, in every order, every session is registered under one token at most.
pub Reaches-OneToken : (x y : Site) → Reaches x y → OneToken x.server → OneToken y.server
Reaches-OneToken = Reaches-Kept Once-IsTokenStable
