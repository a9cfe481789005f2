-- ===== src/Session/Pending.antt =====
-- How much is pending on the sockets of the sessions (MatchingServer/src/core/session.cpp).
use back_end_doc.Common.{
  arith, ℕ, ◌+◌, ◌≤◌, ◌≡◌, ◌≢◌, sym, subst, Bool, true, false, Option, ap, refl, ◌∙◌, ◌⊎◌, inl, inr,
  List, [], ◌∷◌, ◌++◌, ◌==◌, ◌&&◌, if◌then◌else◌,
}
use mathlib.Core.List.{append-nil}
use back_end_doc.Request.{Request}
use back_end_doc.RoomRepository.{RoomInfo}
use back_end_doc.Response.{error, ip_in_use}
use back_end_doc.Session.{Site, Message, set_room, reply}
use back_end_doc.Session.Greeting
use back_end_doc.Session.Greeting.{Greets, silent, and_refusal, read_handshake-Hailed}
use back_end_doc.Session.Answering.{
  Answers, once, with_mirror, logs_out, undefined, read_message-Answers,
}
use back_end_doc.Session.Sockets.{
  Sockets, bump, drop_one, bump_all, begin_session, hail_done, hail_broken, read_done, write_done,
  read_broken, write_broken, broadcast_broken, Turns, begins, passes, hail_ends, hail_breaks,
  read_ends, write_ends, read_breaks, write_breaks, broadcast_breaks, Runs, starts, turns,
}

-- What a session is told besides its answers: of a new room, as a mirror server, or that its address is
-- in use.
abbrev pub is_extra : Message → Bool
is_extra (set_room info) = true
is_extra (reply (error ip_in_use)) = true
is_extra _ = false

abbrev pub told_extra : ℕ → List (ℕ × Message) → ℕ
told_extra k [] = 0
told_extra k ((sid, a) ∷ ms) =
    if k == sid && is_extra a then told_extra k ms + 1 else told_extra k ms

abbrev pub pending : ℕ → Sockets → ℕ
pending k io = io.hails k + io.reads k + io.writes k

-- A read of `sid`, of which `reads` says how many are pending, that writes `ms`.
Bounded : ℕ → ℕ → List (ℕ × Message) → Type 0
Bounded k sid ms =
    (reads writes : ℕ → ℕ) (log : List (ℕ × Message))
    → reads sid ≢ 0
    → drop_one sid reads k + bump_all ms writes k + told_extra k log
      ≤ reads k + writes k + told_extra k (ms ++ log)

none-Bounded : (k sid : ℕ) → Bounded k sid []
unfolding Bounded
none-Bounded k sid reads writes log h = ground (arith)

once-Bounded : (k sid : ℕ) (a : Message) → Bounded k sid ((sid, a) ∷ [])
unfolding Bounded
once-Bounded k sid a reads writes log h = ground (arith)

mirror-Bounded :
    (k sid mirror : ℕ) (a : Message) (info : RoomInfo)
    → Bounded k sid ((sid, a) ∷ (mirror, set_room info) ∷ [])
unfolding Bounded
mirror-Bounded k sid mirror a info reads writes log h = ground (arith)

bump_all-append :
    (ms ns : List (ℕ × Message)) (f : ℕ → ℕ) → bump_all (ms ++ ns) f ≡ bump_all ms (bump_all ns f)
bump_all-append [] ns f = refl
bump_all-append ((sid, a) ∷ ms) ns f = ap (bump sid) (bump_all-append ms ns f)

told_extra-append :
    (k : ℕ) (ms ns : List (ℕ × Message))
    → told_extra k (ms ++ ns) ≡ told_extra k ms + told_extra k ns
told_extra-append k [] ns = omega arith
told_extra-append k ((sid, a) ∷ ms) ns = ground (arith, told_extra-append k ms ns)

-- A session that is told first that its address is in use.
refused-Bounded :
    (k sid : ℕ) (ms : List (ℕ × Message))
    → Bounded k sid ms
    → Bounded k sid (ms ++ (sid, reply (error ip_in_use)) ∷ [])
unfolding Bounded
refused-Bounded k sid ms b reads writes log h =
    let refusal : List (ℕ × Message) = (sid, reply (error ip_in_use)) ∷ [] in
    rw (bump_all-append ms refusal writes) (
      ground (
        arith,
        b reads (bump sid writes) log h,
        told_extra-append k ms log,
        told_extra-append k (ms ++ refusal) log,
        told_extra-append k ms refusal,
      ))

-- What is written in front of `before`.
abbrev Front : ℕ → ℕ → List (ℕ × Message) → Site → Type 0
Front k sid before y = (ms : List (ℕ × Message)) × (y.sent ≡ ms ++ before) × Bounded k sid ms

answers-Front :
    (k sid : ℕ) (m : Option Request) (before : List (ℕ × Message)) (y : Site)
    → Answers sid m before y
    → Front k sid before y
answers-Front k sid m before y (once a e) = ((sid, a) ∷ [], e, once-Bounded k sid a)
answers-Front k sid m before y (with_mirror mirror info e) =
    (_ ∷ (mirror, set_room info) ∷ [], e, mirror-Bounded k sid mirror _ info)
answers-Front k sid m before y (logs_out r f g e) = ([], e, none-Bounded k sid)
answers-Front k sid m before y (undefined d e) = ([], e, none-Bounded k sid)

Greets-Front :
    (k sid : ℕ) (before : List (ℕ × Message)) (y : Site)
    → Greets sid before y
    → Front k sid before y
Greets-Front k sid before y (silent e) = ([], e, none-Bounded k sid)
Greets-Front k sid before y (Greeting.answers m h) = answers-Front k sid m before y h

Front-Bounded : (k sid : ℕ) (y : Site) → Front k sid [] y → Bounded k sid y.sent
Front-Bounded k sid y (ms, e, b) = subst (Bounded k sid) (sym (e ∙ append-nil ms)) b

hailed-Bounded :
    (k sid : ℕ) (y : Site)
    → Greets sid [] y ⊎ Greets sid (and_refusal sid []) y
    → Bounded k sid y.sent
hailed-Bounded k sid y (inl g) = Front-Bounded k sid y (Greets-Front k sid [] y g)
hailed-Bounded k sid y (inr g) =
    let (ms, e, b) = Greets-Front k sid (and_refusal sid []) y g in
    subst (Bounded k sid) (sym e) (refused-Bounded k sid ms b)

-- What may be pending.
abbrev allowed : ℕ → Sockets → ℕ
allowed k io = io.begun k + told_extra k io.log

Turns-pending :
    (k : ℕ) {io jo : Sockets}
    → Turns io jo
    → pending k jo + allowed k io ≤ pending k io + allowed k jo
unfolding begin_session hail_done hail_broken read_done write_done read_broken write_broken
    broadcast_broken Bounded
Turns-pending k {io} (begins sid s n) = ground (arith)
Turns-pending k {io} (passes x) = omega (arith)
Turns-pending k {io} (hail_ends uuid next sid s m h o) = omega (
  arith,
  hailed-Bounded k sid _ (read_handshake-Hailed uuid next sid s m (record io.site { sent = [] }))
      io.hails io.writes io.log h,
)
Turns-pending k {io} (hail_breaks sid s h o) = ground (arith)
Turns-pending k {io} (read_ends uuid sid s m h o) = omega (
  arith,
  Front-Bounded k sid _
      (answers-Front k sid m [] _
        (read_message-Answers uuid sid s m (record io.site { sent = [] })))
      io.reads io.writes io.log h,
)
Turns-pending k {io} (write_ends sid h) = ground (arith)
Turns-pending k {io} (read_breaks sid s h o) = ground (arith)
Turns-pending k {io} (write_breaks sid s h o) = ground (arith)
Turns-pending k {io} (broadcast_breaks sid s o) = omega (arith)

-- Over every sequence of sessions that are started, and of handshakes, reads, writes and broadcasts that
-- end or fail, whatever else happens to the server between them: a session has at most as many reads and
-- writes pending as at the start, broadcasts left out; one more if it was started since; and one more for
-- each time that it was told, as a mirror server, of a new room, or that its address is in use.
pub Runs-pending :
    (k : ℕ) (start io : Sockets)
    → Runs start io
    → pending k io + (start.begun k + told_extra k start.log)
      ≤ pending k start + (io.begun k + told_extra k io.log)
Runs-pending k start _ starts = omega (arith)
Runs-pending k start jo (turns {io} run t) =
    omega (arith, Runs-pending k start io run, Turns-pending k t)
