-- ===== src/Server/Login.antt =====
-- The tokens of sessions and users (MatchingServer/src/core/server.cpp).
use back_end_doc.Common.{
  ℕ, suc, ◌≤◌, ◌≡◌, ◌≢◌, refl, true, false, some, List, [], ◌∷◌, ◌==◌, if◌then◌else◌, arith,
}
use back_end_doc.Server.{Server, register_session, remove_session, check_already_login}
use back_end_doc.Server.Table.{
  lookup, erase, insert, erase_value, count_value, lookup-erase, lookup-insert,
}

pub count-erase : (a k : ℕ) (m : List (ℕ × ℕ)) → count_value a (erase k m) ≤ count_value a m
unfolding count_value erase
count-erase a k [] = omega arith
count-erase a k ((j, b) ∷ m) = ground (arith, count-erase a k m)

count-erase_value : (a b : ℕ) (m : List (ℕ × ℕ)) → count_value a (erase_value b m) ≤ count_value a m
unfolding count_value erase_value
count-erase_value a b [] = omega arith
count-erase_value a b ((j, c) ∷ m) = ground (arith, count-erase_value a b m)

count-erase_value_self :
    (a : ℕ) (m : List (ℕ × ℕ)) → count_value a m ≤ 1 → count_value a (erase_value a m) ≡ 0
unfolding count_value erase_value
count-erase_value_self a [] h = refl
count-erase_value_self a ((j, c) ∷ m) h = ground (arith, count-erase_value_self a m)

-- Every session is registered under one token at most.
abbrev pub OneToken : Server → Type 0
OneToken v = (sid : ℕ) → count_value sid v.sessions ≤ 1

count-insert :
    (a k b : ℕ) (m : List (ℕ × ℕ))
    → count_value a (insert k b m)
      ≡ (if b == a then suc (count_value a (erase k m)) else count_value a (erase k m))
unfolding count_value insert
count-insert a k b m = ground arith

pub registered-Once :
    (token sid : ℕ) (m : List (ℕ × ℕ))
    → ((other : ℕ) → count_value other m ≤ 1)
    → (other : ℕ) → count_value other (insert token sid (erase_value sid m)) ≤ 1
registered-Once token sid m h other = ground (
  arith,
  count-insert other token sid (erase_value sid m),
  count-erase other token (erase_value sid m),
  count-erase_value other sid m,
  count-erase_value_self sid m (h sid),
  h other,
)

-- Where every session has one token at most, `registerSession` maps the new token to the session,
-- drops the token that the session had, and leaves every session with one token at most.
pub register_session-OneToken :
    (token sid user_id : ℕ) (v : Server)
    → OneToken v
    → (lookup token (register_session token sid user_id v).sessions ≡ some sid)
      × (count_value sid (register_session token sid user_id v).sessions ≡ 1)
      × OneToken (register_session token sid user_id v)
unfolding register_session
register_session-OneToken token sid user_id v h = (
  ground (arith, lookup-insert token token sid (erase_value sid v.sessions)),
  ground (
    arith,
    count-insert sid token sid (erase_value sid v.sessions),
    count-erase sid token (erase_value sid v.sessions),
    count-erase_value_self sid v.sessions (h sid),
  ),
  registered-Once token sid v.sessions h,
)

-- A session that logs in as one user and then as another, both ids other than 0, and is destroyed with
-- its last token and user, leaves the first user marked as logged in; the second is not.
pub register_session-stale :
    (sid first second t₁ t₂ : ℕ) (v : Server)
    → first ≢ 0
    → second ≢ 0
    → first ≢ second
    → let u =
        remove_session t₂ second
          (register_session t₂ sid second (register_session t₁ sid first v)) in
      (check_already_login first u ≡ true) × (check_already_login second u ≡ false)
unfolding register_session remove_session check_already_login
register_session-stale sid first second t₁ t₂ v h₁ h₂ ne = (
  ground (
    arith,
    lookup-erase second first (insert second t₂ (insert first t₁ v.tokens)),
    lookup-insert second first t₂ (insert first t₁ v.tokens),
    lookup-insert first first t₁ v.tokens,
  ),
  ground (arith, lookup-erase second second (insert second t₂ (insert first t₁ v.tokens))),
)
