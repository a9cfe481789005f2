-- ===== src/Lifecycle/Listening.antt =====
-- One accept is pending (MatchingServer/src/core/server.cpp), and what the accepting server does is part
-- of a life of the server.
use back_end_doc.Common.{
  arith, ℕ, ◌-◌, ◌≤◌, ◌≡◌, ◌≢◌, refl, sym, subst, ◌∙◌, true, false, returned, Bool-cases, inl, inr,
}
use back_end_doc.Lifecycle.{
  Machine, ccu_list, run, stop, check_fires, broadcast_fires, start_broadcast_timer,
  schedule_broadcast, start_session_timeout_check, check_inactive, sweep, send_ccu,
}
use back_end_doc.Lifecycle.Timers
use back_end_doc.Lifecycle.Timers.{IsQuiet, broadcast-IsQuiet, Turns, Lives, is_born, lives_on}
use back_end_doc.Server.{broadcast_ccu}
use back_end_doc.Session.{Site}
use back_end_doc.Session.Runs
use back_end_doc.Session.Runs.{Happens, IsNew}
use back_end_doc.Lifecycle.Accepting.{
  Accepted, connection, gone, failed, Listening, new_session, with_session, do_accept, start_up,
  shut_down, next_accept, accepted, IsNewObject, Hears, accepts, stops, checks, broadcasts, serves,
  Listens, begins, hears,
}

-- Which operations leave `running_` as it is.
run-running : (m : Machine) → (run m).is_running ≡ true
unfolding run start_broadcast_timer schedule_broadcast start_session_timeout_check check_inactive
    sweep
run-running m = ground (arith)

stop-running : (m : Machine) → (stop m).is_running ≡ false
unfolding stop
stop-running m = ground (arith)

check_fires-running : (m : Machine) → (check_fires m).is_running ≡ m.is_running
unfolding check_fires check_inactive sweep
check_fires-running m = ground (arith)

schedule-running : (m : Machine) → (schedule_broadcast m).is_running ≡ m.is_running
unfolding schedule_broadcast
schedule-running m = ground (arith)

broadcast_fires-running : (m : Machine) → (broadcast_fires m).is_running ≡ m.is_running
unfolding broadcast_fires send_ccu
broadcast_fires-running m =
    let (users, sids) = broadcast_ccu m.site.server in
    schedule-running _
    ∙ (broadcast-IsQuiet (ccu_list users) sids (record m { broadcast_armed = false })).same_running

-- One accept is pending while the server runs, and never more.
pub record IsListening (l : Listening) : Type 0 where
  pub at_most_one : l.pending ≤ 1
  pub one : l.machine.is_running ≡ true → l.pending ≡ 1

-- What a step of the accepting server is: a life of the server, and a change of what is pending.
record Follows (l k : Listening) : Type 0 where
  pub life : Lives l.machine k.machine
  pub listening : IsListening l → IsListening k

next_accept-machine : (l : Listening) → (next_accept l).machine ≡ l.machine
unfolding next_accept do_accept
next_accept-machine l = elim (Bool-cases l.machine.is_running) [
  | inl on ↦ simp on refl
  | inr off ↦ simp off refl
]

-- Of `pending`, one less and perhaps one more.
next_accept-IsListening :
    (l m : Listening)
    → IsListening l
    → m.machine.is_running ≡ l.machine.is_running
    → m.pending ≡ l.pending - 1
    → l.pending ≢ 0
    → IsListening (next_accept m)
unfolding next_accept do_accept
next_accept-IsListening l m g r p n =
    let most = g.at_most_one in
    elim (Bool-cases m.machine.is_running) [
      | inl on ↦ simp on (record { at_most_one = omega (arith); one = λ e. omega (arith) })
      | inr off ↦ simp off (record { at_most_one = omega (arith); one = λ e. absurd (cc) })
    ]

new_session-IsNew : (ip now : ℕ) → IsNew (new_session ip now)
new_session-IsNew ip now = record {
  no_user = refl;
  no_names = (refl, refl);
  no_status = refl;
  no_token = refl;
  no_mirror = refl;
  connected = refl;
}

-- The handler, once it has made the session, if any.
handled :
    (l m : Listening)
    → Lives l.machine m.machine
    → m.machine.is_running ≡ l.machine.is_running
    → m.pending ≡ l.pending - 1
    → l.pending ≢ 0
    → Follows l (next_accept m)
handled l m life r p n = record {
  life = subst (Lives l.machine) (sym (next_accept-machine m)) life;
  listening = λ g. next_accept-IsListening l m g r p n;
}

accepted-Follows :
    (a : Accepted) (l : Listening)
    → l.pending ≢ 0
    → IsNewObject a l.machine.site
    → (k : Listening) → accepted a l ≡ returned k
    → Follows l k
unfolding accepted
accepted-Follows (connection sid ip) l n new k e =
    let site : Site = with_session sid ip l.machine.site in
    let m : Listening = record l {
      machine = record l.machine { site = site };
      pending = l.pending - 1;
    } in
    let same : next_accept m ≡ k = cc in
    subst (Follows l) same (
      handled l m
        (lives_on is_born (
          Timers.serves (
            Runs.accepts sid (new_session ip l.machine.site.world.now) new
              (new_session-IsNew _ _))))
        refl refl n)
accepted-Follows gone l n new k e = absurd (cc)
accepted-Follows failed l n new k e =
    let m : Listening = record l { pending = l.pending - 1 } in
    let same : next_accept m ≡ k = cc in subst (Follows l) same (handled l m is_born refl refl n)

Hears-Follows : (l k : Listening) → Hears l k → Follows l k
unfolding shut_down
Hears-Follows l k (accepts a _ n new e) = accepted-Follows a l n new k e
Hears-Follows l _ stops = record {
  life = lives_on is_born Timers.stops;
  listening = λ g. record {
    at_most_one = g.at_most_one;
    one = λ e. let off = stop-running l.machine in absurd (cc);
  };
}
Hears-Follows l _ (checks armed) = record {
  life = lives_on is_born (Timers.checks armed);
  listening = λ g. record {
    at_most_one = g.at_most_one;
    one = λ e. g.one (sym (check_fires-running l.machine) ∙ e);
  };
}
Hears-Follows l _ (broadcasts armed) = record {
  life = lives_on is_born (Timers.broadcasts armed);
  listening = λ g. record {
    at_most_one = g.at_most_one;
    one = λ e. g.one (sym (broadcast_fires-running l.machine) ∙ e);
  };
}
Hears-Follows l _ (serves h later) = record {
  life = lives_on is_born (Timers.serves h);
  listening = λ g. record { at_most_one = g.at_most_one; one = g.one };
}

joined : {m n k : Machine} → Lives m n → Lives n k → Lives m k
joined l is_born = l
joined l (lives_on r t) = lives_on (joined l r) t

-- A server on which no accept was pending, from `run` on, over every sequence of connections and of what
-- the server and its sessions do then, `stop` included: its states are those of a life of the server,
-- each connection being a new session. One accept is pending while it runs, and never more.
pub Listens-IsListening :
    (start k : Listening)
    → start.pending ≡ 0
    → Listens start k
    → Lives start.machine k.machine
      × (k.pending ≤ 1)
      × (k.machine.is_running ≡ true → k.pending ≡ 1)
unfolding start_up do_accept
Listens-IsListening start _ z begins =
    (lives_on is_born Timers.starts, omega (arith), λ e. omega (arith))
Listens-IsListening start k z (hears {l} run h) =
    let (life, most, one) = Listens-IsListening start l z run in
    let f = Hears-Follows l k h in
    let g = f.listening (record { at_most_one = most; one = one }) in
    (joined life f.life, g.at_most_one, g.one)
