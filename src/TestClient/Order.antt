-- ===== src/TestClient/Order.antt =====
-- The order of the responses in GameSocketTestClient/GameTestClient.cpp, over all interleavings of its
-- threads: what `sendRequest` returns is told from the queue alone, not from the request.
use back_end_doc.Common.{
  arith, ℕ, ◌≡◌, refl, sym, ap, ◌∙◌, Bool, true, false, not, ◌&&◌, Option, none, some, List, [],
  ◌∷◌, ◌++◌, if◌then◌else◌, Outcome, returned, threw, Bool-cases, inl, inr,
}
use back_end_doc.Request.{Field, absent, ill_typed, given, ActionName}
use mathlib.Core.List.{append_assoc, append-nil}
use back_end_doc.TestClient.{
  Library, Outgoing, Client, with_user, submitted, submit, take_response, login_of, pushed,
  handle_read, read_fails, ping,
}
use back_end_doc.TestClient.System.{
  System, Moves, submits, pings, arrives, reads, takes, breaks, Runs, starts, moves, IsInOrder,
  IsFresh, whole,
}

whole-append : {A : Type 0} (ts us : List (Option A)) → whole (ts ++ us) ≡ whole ts ++ whole us
whole-append [] us = refl
whole-append (none ∷ ts) us = whole-append ts us
whole-append (some j ∷ ts) us = ap (λ l. j ∷ l) (whole-append ts us)

module _ (lib : Library) where
  submitted-queue :
      (o : Outcome Outgoing) (c d : Client lib)
      → submitted lib o c ≡ returned d
      → (d.queue ≡ c.queue) × (d.is_reading ≡ c.is_reading)
  unfolding submitted
  submitted-queue threw c d e = absurd (cc)
  submitted-queue (returned m) c d e = (cc, cc)

  ping-queue :
      (fails : Bool) (c : Client lib)
      → ((ping lib fails c).queue ≡ c.queue) × ((ping lib fails c).is_reading ≡ c.is_reading)
  unfolding ping
  ping-queue fails c = elim (Bool-cases (c.is_running && not fails)) [
    | inl writes ↦ rw writes (refl, refl)
    | inr not_now ↦ rw not_now (refl, refl)
  ]

  fails-queue :
      (c : Client lib)
      → ((read_fails lib c).queue ≡ c.queue)
        × ((read_fails lib c).is_reading ≡ true → c.is_reading ≡ true)
  unfolding read_fails
  fails-queue c = elim (Bool-cases c.is_running) [
    | inl again ↦ (ground (arith), λ h. ground (arith))
    | inr over ↦ (ground (arith), λ h. ground (arith))
  ]

  -- What the handler makes of a text.
  data Handles (t : Option lib.Json) (c : Client lib) : Client lib → Type 0 where
    kept : {d : Client lib} → d.queue ≡ c.queue ++ whole (t ∷ []) → Handles t c d
    ended : {d : Client lib} → d.queue ≡ c.queue → d.is_reading ≡ false → Handles t c d

  pushed-Handles :
      (j : lib.Json) (o : Outcome (Client lib)) (c : Client lib)
      → ((d : Client lib) → o ≡ returned d → d.queue ≡ c.queue)
      → Handles (some j) c (pushed lib j o c)
  unfolding pushed
  pushed-Handles j threw c h = ended refl refl
  pushed-Handles j (returned d) c h = kept (ap (λ q. q ++ j ∷ []) (h d refl))

  login_of-queue :
      (a : Field ActionName) (n : Field ℕ) (c d : Client lib)
      → login_of lib a n c ≡ returned d
      → d.queue ≡ c.queue
  unfolding login_of
  login_of-queue absent n c d e = cc
  login_of-queue ill_typed n c d e = absurd (cc)
  login_of-queue (given a) absent c d e = cc
  login_of-queue (given a) ill_typed c d e = ground (arith)
  login_of-queue (given a) (given n) c d e = ground (arith)

  read_json-queue :
      (b : Bool) (a : Field ActionName) (n : Field ℕ) (c d : Client lib)
      → (if b then login_of lib a n c else returned c) ≡ returned d
      → d.queue ≡ c.queue
  read_json-queue true a n c d e = login_of-queue a n c d e
  read_json-queue false a n c d e = cc

  handle_read-Handles : (t : Option lib.Json) (c : Client lib) → Handles t c (handle_read lib t c)
  unfolding handle_read
  handle_read-Handles none c = kept (sym (append-nil c.queue))
  handle_read-Handles (some j) c =
      pushed-Handles j _ c (read_json-queue (lib.is_success j) (lib.action j) (lib.user_id j) c)

  -- The text `t`, read while nothing is lost.
  module _ (s : System lib) (t : Option lib.Json) (ts : List (Option lib.Json)) where
    read_next :
        s.client.is_reading ≡ true
        → s.unread ≡ t ∷ ts
        → (k : IsInOrder lib s) → k.handled ++ t ∷ [] ++ ts ≡ s.texts
    read_next reading e k =
        append_assoc k.handled (t ∷ []) ts
        ∙ ap (λ l. k.handled ++ l) (sym e)
        ∙ ap (λ l. l ++ s.unread) (sym (append-nil k.handled))
        ∙ ap (λ l. k.handled ++ l ++ s.unread) (sym (k.none_lost reading))
        ∙ k.all_texts

    after_read :
        (d : Client lib)
        → s.client.is_reading ≡ true
        → s.unread ≡ t ∷ ts
        → Handles t s.client d
        → IsInOrder lib s
        → IsInOrder lib (record s { client = d; unread = ts })
    after_read d reading e (kept q) k = record {
      handled = k.handled ++ t ∷ [];
      lost = [];
      all_texts = ap (λ l. l ++ ts) (append-nil (k.handled ++ t ∷ [])) ∙ read_next reading e k;
      in_order =
          ap (λ l. s.taken ++ l) q
          ∙ sym (append_assoc s.taken s.client.queue (whole (t ∷ [])))
          ∙ ap (λ l. l ++ whole (t ∷ [])) k.in_order
          ∙ sym (whole-append k.handled (t ∷ []));
      none_lost = λ h. refl;
      one_lost = omega (arith);
    }
    after_read d reading e (ended q off) k = record {
      handled = k.handled;
      lost = t ∷ [];
      all_texts = read_next reading e k;
      in_order = ap (λ l. s.taken ++ l) q ∙ k.in_order;
      none_lost = λ h. absurd (cc);
      one_lost = omega (arith);
    }

  -- Only the client changes, and not in its queue.
  same_queue :
      (s : System lib) (d : Client lib)
      → d.queue ≡ s.client.queue
      → (d.is_reading ≡ true → s.client.is_reading ≡ true)
      → IsInOrder lib s
      → IsInOrder lib (record s { client = d })
  same_queue s d q reading k = record {
    handled = k.handled;
    lost = k.lost;
    all_texts = k.all_texts;
    in_order = ap (λ l. s.taken ++ l) q ∙ k.in_order;
    none_lost = λ h. k.none_lost (reading h);
    one_lost = k.one_lost;
  }

  submit-queue :
      (m : Outgoing) (c d : Client lib)
      → submit lib false m c ≡ returned d
      → (d.queue ≡ c.queue) × (d.is_reading ≡ c.is_reading)
  unfolding submit
  submit-queue m c d e = submitted-queue (with_user c.user_id m) c d e

  takes_front :
      (s : System lib) (j : lib.Json) (js : List lib.Json)
      → s.client.queue ≡ j ∷ js
      → ((take_response lib s.client).1.is_reading ≡ s.client.is_reading)
        × ((s.taken ++ (take_response lib s.client).0 ∷ []) ++ (take_response lib s.client).1.queue
            ≡ s.taken ++ s.client.queue)
  unfolding take_response
  takes_front s j js e = rw e (refl, append_assoc s.taken (j ∷ []) js)

  Moves-IsInOrder : (s t : System lib) → Moves lib s t → IsInOrder lib s → IsInOrder lib t
  Moves-IsInOrder s _ (submits m _ d e) k =
      let same = submit-queue m s.client d e in same_queue s d same.0 (λ h. sym same.1 ∙ h) k
  Moves-IsInOrder s _ (pings fails _) k =
      let same = ping-queue fails s.client in same_queue s _ same.0 (λ h. sym same.1 ∙ h) k
  Moves-IsInOrder s _ (arrives t _) k = record {
    handled = k.handled;
    lost = k.lost;
    all_texts =
        sym (append_assoc (k.handled ++ k.lost) s.unread (t ∷ []))
        ∙ ap (λ l. l ++ t ∷ []) k.all_texts;
    in_order = k.in_order;
    none_lost = k.none_lost;
    one_lost = k.one_lost;
  }
  Moves-IsInOrder s _ (reads t ts _ reading e) k =
      after_read s t ts _ reading e (handle_read-Handles t s.client) k
  Moves-IsInOrder s _ (takes j js _ e) k =
      let front = takes_front s j js e in
      record {
        handled = k.handled;
        lost = k.lost;
        all_texts = k.all_texts;
        in_order = front.1 ∙ k.in_order;
        none_lost = λ h. k.none_lost (sym front.0 ∙ h);
        one_lost = k.one_lost;
      }
  Moves-IsInOrder s _ (breaks _) k =
      let same = fails-queue s.client in same_queue s _ same.0 same.1 k

  fresh-IsInOrder : (s : System lib) → IsFresh lib s → IsInOrder lib s
  fresh-IsInOrder s (t, n, q) = record {
    handled = [];
    lost = [];
    all_texts = sym t;
    in_order = ap (λ l. l ++ s.client.queue) n ∙ q;
    none_lost = λ h. refl;
    one_lost = omega (arith);
  }

  -- Over every interleaving of requests, pings, reads and errors, from a client that has read nothing,
  -- the responses that requests were given and then those in the queue are the texts that were read and
  -- are json, each once and in the order in which they came; no text is skipped but those that are no
  -- json and the one on which the io thread ended.
  pub Runs-IsInOrder :
      (start s : System lib) → IsFresh lib start → Runs lib start s → IsInOrder lib s
  Runs-IsInOrder start _ fresh starts = fresh-IsInOrder start fresh
  Runs-IsInOrder start t fresh (moves {s} run m) =
      Moves-IsInOrder s t m (Runs-IsInOrder start s fresh run)
