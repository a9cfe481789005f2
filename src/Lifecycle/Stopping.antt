-- ===== src/Lifecycle/Stopping.antt =====
-- What `stop` of MatchingServer/src/core/server.cpp does to the sessions.
use back_end_doc.Common.{
  ℕ, ◌≡◌, refl, ◌∙◌, ap, Bool, true, false, not, ◌||◌, Option, none, some, List, [], ◌∷◌, ◌==◌,
  if◌then◌else◌, ◌⊎◌, Bool-cases, inl, inr, arith, member,
}
use back_end_doc.Server.{Session}
use back_end_doc.Server.Table.{lookup, lookup-insert}
use back_end_doc.Session.{Site, handle_error, close_socket, change_session}
use back_end_doc.Session.Tokens.{leave_room-server}
use back_end_doc.Lifecycle.{Machine, close_if, close_all, values, stop}

-- The socket of a session is closed, or there is no such session.
abbrev pub is_shut : Option Session → Bool
is_shut none = true
is_shut (some s) = not s.is_open

abbrev pub shut_at : ℕ → Site → Bool
shut_at j x = is_shut (lookup j x.server.objects)

close_if-shut :
    (sid j : ℕ) (x : Site) (o : Option Session)
    → lookup sid x.server.objects ≡ o
    → shut_at j (close_if o sid x) ≡ ((sid == j) || shut_at j x)
unfolding close_if handle_error change_session
close_if-shut sid j x none e = elim (Bool-cases (sid == j)) [
  | inl hit ↦ ground (arith, e)
  | inr miss ↦ rw miss refl
]
close_if-shut sid j x (some s) e =
    rw (leave_room-server s.user_id x, e, lookup-insert sid j (close_socket s) x.server.objects)
      (cases (Bool-cases (sid == j)))
  where
    cases :
        ((sid == j) ≡ true) ⊎ ((sid == j) ≡ false)
        → is_shut (if sid == j then some (close_socket s) else lookup j x.server.objects)
          ≡ ((sid == j) || shut_at j x)
    cases (inl hit) = rw hit refl
    cases (inr miss) = rw miss refl

close_all-shut :
    (sids : List ℕ) (j : ℕ) (x : Site)
    → shut_at j (close_all sids x) ≡ (member j sids || shut_at j x)
unfolding close_all member
close_all-shut [] j x = refl
close_all-shut (sid ∷ sids) j x =
    let o = lookup sid x.server.objects in
    close_all-shut sids j (close_if o sid x)
    ∙ ap (λ b. member j sids || b) (close_if-shut sid j x o refl)
    ∙ swap (member j sids) (sid == j) (shut_at j x)
  where
    swap : (a b c : Bool) → (a || (b || c)) ≡ ((b || a) || c)
    swap true true c = refl
    swap true false c = refl
    swap false true c = refl
    swap false false c = refl

-- A server that runs is stopped: the sockets that are closed afterwards are those that were, and those
-- of the sessions that are registered, and no session is registered any more.
pub stop-shut :
    (m : Machine)
    → m.is_running ≡ true
    → ((j : ℕ)
        → shut_at j (stop m).site ≡ (member j (values m.site.server.sessions) || shut_at j m.site))
      × ((stop m).site.server.sessions ≡ [])
unfolding stop
stop-shut m on = (λ j. rw on (close_all-shut (values m.site.server.sessions) j m.site), rw on refl)
