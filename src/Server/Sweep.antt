-- ===== src/Server/Sweep.antt =====
-- `check_inactive_sessions` of MatchingServer/src/core/server.cpp.
use back_end_doc.Common.{
  ℕ, ◌≡◌, ◌↔◌, refl, Bool, true, false, Option, none, some, List, [], ◌∷◌, ◌==◌, if◌then◌else◌,
  arith, member, Bool-cases, inl, inr,
}
use back_end_doc.Server.{
  Server, Session, is_active, keeps, stale_tokens, erase_all, check_inactive_sessions,
}
use back_end_doc.Server.Table.{lookup, erase, lookup-erase}

unfoldable pub has_key : ℕ → List (ℕ × ℕ) → Bool
has_key k [] = false
has_key k ((j, v) ∷ m) = if j == k then true else has_key k m

-- No two entries have one key.
abbrev pub DistinctKeys : List (ℕ × ℕ) → Type 0
DistinctKeys [] = Unit
DistinctKeys ((k, v) ∷ m) = (has_key k m ≡ false) × DistinctKeys m

lookup-erase_all :
    (ts : List ℕ) (t : ℕ) (m : List (ℕ × ℕ))
    → lookup t (erase_all ts m) ≡ (if member t ts then none else lookup t m)
unfolding erase_all member
lookup-erase_all [] t m = refl
lookup-erase_all (x ∷ ts) t m =
    ground (arith, lookup-erase_all ts t (erase x m), lookup-erase x t m)

module _ (now timeout : ℕ) (objects : List (ℕ × Session)) where
  kept_is_active :
      (t sid : ℕ) (m : List (ℕ × ℕ))
      → lookup t m ≡ some sid
      → member t (stale_tokens now timeout objects m) ≡ false
      → keeps now timeout (lookup sid objects) ≡ true
  unfolding stale_tokens member lookup
  kept_is_active t sid [] e h = absurd (cc)
  kept_is_active t sid ((j, s) ∷ m) e h = elim (Bool-cases (keeps now timeout (lookup s objects))) [
    | inl good ↦ elim (Bool-cases (j == t)) [
      | inl hit ↦ ground arith
      | inr miss ↦ kept_is_active t sid m (ground arith) (ground arith)
    ]
    | inr bad ↦ elim (Bool-cases (j == t)) [
      | inl hit ↦ absurd (ground arith)
      | inr miss ↦ kept_is_active t sid m (ground arith) (ground arith)
    ]
  ]

  stale_has_key :
      (t : ℕ) (m : List (ℕ × ℕ))
      → has_key t m ≡ false
      → member t (stale_tokens now timeout objects m) ≡ false
  unfolding stale_tokens member has_key
  stale_has_key t [] h = refl
  stale_has_key t ((j, s) ∷ m) h = ground (arith, stale_has_key t m)

  active_is_kept :
      (t sid : ℕ) (m : List (ℕ × ℕ))
      → DistinctKeys m
      → lookup t m ≡ some sid
      → keeps now timeout (lookup sid objects) ≡ true
      → member t (stale_tokens now timeout objects m) ≡ false
  unfolding stale_tokens member lookup
  active_is_kept t sid [] d e h = refl
  active_is_kept t sid ((j, s) ∷ m) d e h = elim (Bool-cases (j == t)) [
    | inl hit ↦ ground (arith, stale_has_key t m)
    | inr miss ↦ ground (arith, active_is_kept t sid m d.1)
  ]

keeps_split :
    (now timeout : ℕ) (o : Option Session)
    → keeps now timeout o ≡ true
    → (s : Session) × (o ≡ some s) × (is_active now timeout s ≡ true)
unfolding keeps
keeps_split now timeout none h = absurd (cc)
keeps_split now timeout (some s) h = (s, refl, h)

-- In a map that has no token twice: after `check_inactive_sessions` a token is registered for a
-- session exactly if it was so before and the session is alive and has been active within the timeout.
pub check_inactive_sessions_iff :
    (now : ℕ) (v : Server) (token sid : ℕ)
    → DistinctKeys v.sessions
    → (lookup token (check_inactive_sessions now v).0.sessions ≡ some sid) ↔ (
        (lookup token v.sessions ≡ some sid)
        × ((s : Session) × (lookup sid v.objects ≡ some s) × (is_active now v.timeout s ≡ true)))
unfolding check_inactive_sessions
check_inactive_sessions_iff now v token sid d = (sound, complete)
  where
    stale : List ℕ
    stale = stale_tokens now v.timeout v.objects v.sessions

    law :
        lookup token (erase_all stale v.sessions)
        ≡ (if member token stale then none else lookup token v.sessions)
    law = lookup-erase_all stale token v.sessions

    sound :
        lookup token (erase_all stale v.sessions) ≡ some sid
        → (lookup token v.sessions ≡ some sid)
          × ((s : Session) × (lookup sid v.objects ≡ some s) × (is_active now v.timeout s ≡ true))
    sound e = elim (Bool-cases (member token stale)) [
      | inl gone ↦ absurd (ground (arith, law))
      | inr here ↦
          let known : lookup token v.sessions ≡ some sid = ground (arith, law) in
          (
            known,
            keeps_split now v.timeout (lookup sid v.objects)
                (kept_is_active now v.timeout v.objects token sid v.sessions known here),
          )
    ]

    complete :
        (lookup token v.sessions ≡ some sid)
          × ((s : Session) × (lookup sid v.objects ≡ some s) × (is_active now v.timeout s ≡ true))
        → lookup token (erase_all stale v.sessions) ≡ some sid
    complete (known, (s, alive, active)) =
        let kept =
          active_is_kept now v.timeout v.objects token sid v.sessions d known
            (rw alive (unfold keeps in active)) in
        ground (arith, law, kept)
