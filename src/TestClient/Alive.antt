-- ===== src/TestClient/Alive.antt =====
-- What ends the io thread of GameSocketTestClient/GameTestClient.cpp, before `stop`: an exception that is
-- no parse error.
use back_end_doc.Common.{
  arith, ℕ, ◌≡◌, refl, ◌∙◌, ◌⊎◌, inl, inr, Bool, true, false, not, ◌&&◌, Option, none, some, List,
  Outcome, returned, threw, Bool-cases,
}
use back_end_doc.Request.{Field, absent, ill_typed, given, ActionName}
use mathlib.Core.List.{Mem}
use back_end_doc.TestClient.{
  Library, Outgoing, Client, is_login_action, with_user, submitted, submit, take_response, login_of,
  pushed, handle_read, read_fails, ping,
}

module _ (lib : Library) where
  -- A response that says that it is one to a login that succeeded, or could be, and whose action or user
  -- has another type.
  pub data IsIllTyped (j : lib.Json) : Type 0 where
    action_is : lib.is_success j ≡ true → lib.action j ≡ ill_typed → IsIllTyped j
    user_is :
        (a : ActionName)
        → lib.is_success j ≡ true
        → lib.action j ≡ given a
        → is_login_action a ≡ true
        → lib.user_id j ≡ ill_typed
        → IsIllTyped j

  abbrev pub Ended : List (Option lib.Json) → Type 0
  Ended texts = (j : lib.Json) × Mem (some j) texts × IsIllTyped j

  -- The io thread runs and reads; `b` says that the client was not stopped.
  pub record Alive (b : Bool) (c : Client lib) : Type 0 where
    pub io : c.io_runs ≡ true
    pub reading : c.is_reading ≡ true
    pub running : c.is_running ≡ b

  module _ (b : Bool) where
    record_like :
        (c d : Client lib)
        → d.io_runs ≡ c.io_runs
        → d.is_reading ≡ c.is_reading
        → d.is_running ≡ c.is_running
        → Alive b c
        → Alive b d
    record_like c d i r n a = record {
      io = i ∙ a.io;
      reading = r ∙ a.reading;
      running = n ∙ a.running;
    }

    submitted-Alive :
        (o : Outcome Outgoing) (c d : Client lib)
        → submitted lib o c ≡ returned d
        → Alive b c
        → Alive b d
    unfolding submitted
    submitted-Alive threw c d e a = absurd (cc)
    submitted-Alive (returned m) c d e a = record_like c d (cc) (cc) (cc) a

    pub submit-Alive :
        (m : Outgoing) (c d : Client lib)
        → submit lib false m c ≡ returned d
        → Alive b c
        → Alive b d
    unfolding submit
    submit-Alive m c d e a = submitted-Alive (with_user c.user_id m) c d e a

    pub ping-Alive : (fails : Bool) (c : Client lib) → Alive b c → Alive b (ping lib fails c)
    unfolding ping
    ping-Alive fails c a = elim (Bool-cases (c.is_running && not fails)) [
      | inl writes ↦ rw writes (record_like c _ refl refl refl a)
      | inr not_now ↦ rw not_now a
    ]

    pub take-Alive : (c : Client lib) → Alive b c → Alive b (take_response lib c).1
    unfolding take_response
    take-Alive c a = record_like c _ (ground (arith)) (ground (arith)) (ground (arith)) a

    login_of-Alive :
        (j : lib.Json) (x : Field ActionName) (n : Field ℕ) (c : Client lib)
        → lib.is_success j ≡ true
        → lib.action j ≡ x
        → lib.user_id j ≡ n
        → Alive b c
        → Alive b (pushed lib j (login_of lib x n c) c) ⊎ IsIllTyped j
    unfolding login_of pushed
    login_of-Alive j absent n c s x u a = inl (record_like c _ refl refl refl a)
    login_of-Alive j ill_typed n c s x u a = inr (action_is s x)
    login_of-Alive j (given action) absent c s x u a = inl (record_like c _ refl refl refl a)
    login_of-Alive j (given action) ill_typed c s x u a =
        elim (Bool-cases (is_login_action action)) [
          | inl login ↦ inr (user_is action s x login u)
          | inr other ↦ inl (rw other (record_like c _ refl refl refl a))
        ]
    login_of-Alive j (given action) (given n) c s x u a =
        elim (Bool-cases (is_login_action action)) [
          | inl login ↦ inl (rw login (record_like c _ refl refl refl a))
          | inr other ↦ inl (rw other (record_like c _ refl refl refl a))
        ]

    read_json-Alive :
        (j : lib.Json) (c : Client lib)
        → Alive b c
        → Alive b (handle_read lib (some j) c) ⊎ IsIllTyped j
    unfolding handle_read pushed
    read_json-Alive j c a = elim (Bool-cases (lib.is_success j)) [
      | inl success ↦
          rw success (login_of-Alive j (lib.action j) (lib.user_id j) c success refl refl a)
      | inr other ↦ inl (rw other (record_like c _ refl refl refl a))
    ]

    pub after_read :
        (t : Option lib.Json) (c : Client lib) (texts : List (Option lib.Json))
        → Mem t texts
        → Alive b c
        → Alive b (handle_read lib t c) ⊎ Ended texts
    unfolding handle_read
    after_read none c texts m a = inl a
    after_read (some j) c texts m a = elim (read_json-Alive j c a) [
      | inl alive ↦ inl alive
      | inr ill ↦ inr (j, m, ill)
    ]

  pub fails-Alive : (c : Client lib) → Alive true c → Alive true (read_fails lib c)
  unfolding read_fails
  fails-Alive c a = rw a.running (record { io = a.io; reading = a.reading; running = refl })
