-- ===== src/Lifecycle/Hearing.antt =====
-- Who hears the broadcasts of MatchingServer/src/core/server.cpp.
use back_end_doc.Common.{
  ℕ, zero, suc, ◌≡◌, refl, ◌∙◌, ap, Bool, true, false, List, [], ◌∷◌, ◌==◌, if◌then◌else◌,
  Bool-cases, inl, inr, arith, Bytes,
}
use back_end_doc.Common.{not, ◌&&◌, Option, none, some}
use back_end_doc.Server.{
  Status, idle, unset, playing, in_room, is_idle, Session, is_waiting_session, waiting_in,
  get_waiting_sessions,
}
use back_end_doc.Server.Table.{lookup, count_value}
use back_end_doc.Lifecycle.{Broadcast, chat, Machine, broadcast_active_user, broadcast_chat}

-- What one session heard, the newest first.
unfoldable pub heard_by : ℕ → List (ℕ × Broadcast) → List Broadcast
heard_by sid [] = []
heard_by sid ((to, b) ∷ rest) =
    let others = heard_by sid rest in if to == sid then b ∷ others else others

abbrev pub add_times : ℕ → Broadcast → List Broadcast → List Broadcast
add_times zero b bs = bs
add_times (suc n) b bs = b ∷ add_times n b bs

add_times-cons :
    (n : ℕ) (b : Broadcast) (bs : List Broadcast) → add_times n b (b ∷ bs) ≡ b ∷ add_times n b bs
add_times-cons zero b bs = refl
add_times-cons (suc n) b bs = ap (λ l. b ∷ l) (add_times-cons n b bs)

one_more :
    (hit : Bool) (n : ℕ) (b : Broadcast) (bs : List Broadcast)
    → add_times n b (if hit then b ∷ bs else bs) ≡ add_times (if hit then suc n else n) b bs
one_more true n b bs = add_times-cons n b bs
one_more false n b bs = refl

occurs : ℕ → List ℕ → ℕ
occurs sid [] = 0
occurs sid (x ∷ xs) = let rest = occurs sid xs in if x == sid then suc rest else rest

occurs-waiting_in :
    (sid : ℕ) (objects : List (ℕ × Session)) (ss : List (ℕ × ℕ))
    → occurs sid (waiting_in objects ss)
      ≡ (if is_waiting_session (lookup sid objects) then count_value sid ss else 0)
unfolding occurs waiting_in count_value
occurs-waiting_in sid objects [] = ground arith
occurs-waiting_in sid objects ((token, s) ∷ ss) = elim (Bool-cases (s == sid)) [
  | inl hit ↦ ground (arith, occurs-waiting_in sid objects ss)
  | inr miss ↦ ground (arith, occurs-waiting_in sid objects ss)
]

heard_by-broadcast :
    (sid : ℕ) (b : Broadcast) (sids : List ℕ) (m : Machine)
    → heard_by sid (broadcast_active_user b sids m).heard
      ≡ add_times (occurs sid sids) b (heard_by sid m.heard)
unfolding broadcast_active_user occurs heard_by
heard_by-broadcast sid b [] m = refl
heard_by-broadcast sid b (s ∷ sids) m =
    heard_by-broadcast sid b sids (record m { heard = (s, b) ∷ m.heard })
    ∙ one_more (s == sid) (occurs sid sids) b (heard_by sid m.heard)

-- A session that is alive, logged in, and has the status "대기중".
abbrev pub waits_as : Status → Bool
waits_as idle = true
waits_as _ = false

abbrev pub waits : Option Session → Bool
waits none = false
waits (some s) = if s.user_id == 0 then false else waits_as s.status

waits-is_waiting_session : (o : Option Session) → is_waiting_session o ≡ waits o
unfolding is_waiting_session is_idle
waits-is_waiting_session none = refl
waits-is_waiting_session (some s) = by_cases (s.user_id == 0) s.status
  where
    by_cases : (b : Bool) (t : Status) → (not b && is_idle t) ≡ (if b then false else waits_as t)
    by_cases true t = refl
    by_cases false idle = refl
    by_cases false unset = refl
    by_cases false playing = refl
    by_cases false (in_room n) = refl

-- A chat message is written to a session once for each of its entries, if it is alive, logged in and
-- waits, and not at all otherwise.
pub broadcast_chat-heard :
    (nick_name message : Bytes) (m : Machine) (sid : ℕ)
    → heard_by sid (broadcast_chat nick_name message m).heard
      ≡ add_times
          (if waits (lookup sid m.site.server.objects)
            then count_value sid m.site.server.sessions
            else 0)
          (chat nick_name message)
          (heard_by sid m.heard)
unfolding broadcast_chat get_waiting_sessions
broadcast_chat-heard nick_name message m sid =
    heard_by-broadcast sid (chat nick_name message) (get_waiting_sessions m.site.server) m
    ∙ ap (λ n. add_times n (chat nick_name message) (heard_by sid m.heard))
        (occurs-waiting_in sid m.site.server.objects m.site.server.sessions
          ∙ ap (λ b. if b then count_value sid m.site.server.sessions else 0)
              (waits-is_waiting_session (lookup sid m.site.server.objects)))
