-- ===== src/TestClient/Stopping.antt =====
-- `stop` of GameSocketTestClient/GameTestClient.cpp: it waits for the io thread before it closes the
-- socket, and only the closing of the socket would end the read of that thread.
use back_end_doc.Common.{
  arith, ◌≡◌, refl, sym, ap, subst, ◌∙◌, ◌⊎◌, inl, inr, ◌≢◌, if◌then◌else◌, true, false, Option,
  none, some, List, [], ◌∷◌, ◌++◌,
}
use mathlib.Core.List.{Mem, mem-append_left, mem-append_right, mem-cons_self, mem-cons_of_mem}
use back_end_doc.TestClient.{
  Library, Client, Event, text, broken, handle_read, read_fails, handle_event, handle_events,
  joined, stop, connect,
}
use back_end_doc.TestClient.Order.{Runs-IsInOrder}
use back_end_doc.TestClient.System.{
  System, Moves, submits, pings, arrives, reads, takes, breaks, Runs, starts, moves, IsFresh,
  IsInOrder,
}
use back_end_doc.TestClient.Alive.{
  Ended, Alive, submit-Alive, ping-Alive, take-Alive, fails-Alive, after_read,
}

module _ (lib : Library) where
  text_read :
      (k : List (Option lib.Json)) (t : Option lib.Json) (ts unread texts : List (Option lib.Json))
      → k ++ unread ≡ texts
      → unread ≡ t ∷ ts
      → Mem t texts
  text_read k t ts unread texts e u =
      subst (Mem t) e (mem-append_right k (subst (Mem t) (sym u) mem-cons_self))

  abbrev Stays : System lib → Type 0
  Stays s = Alive lib true s.client ⊎ Ended lib s.texts

  -- What ended the io thread has come, whatever happens then.
  later : (s t : System lib) → Moves lib s t → Ended lib s.texts → Ended lib t.texts
  later s _ (submits m _ d e) x = x
  later s _ (pings fails _) x = x
  later s _ (arrives t _) (j, m, ill) = (j, mem-append_left (t ∷ []) m, ill)
  later s _ (reads t ts _ reading e) x = x
  later s _ (takes j js _ e) x = x
  later s _ (breaks _) x = x

  Alive-Moves :
      (s t : System lib) → Moves lib s t → IsInOrder lib s → Alive lib true s.client → Stays t
  Alive-Moves s _ (submits m _ d e) k a = inl (submit-Alive lib true m s.client d e a)
  Alive-Moves s _ (pings fails _) k a = inl (ping-Alive lib true fails s.client a)
  Alive-Moves s _ (arrives t _) k a = inl a
  Alive-Moves s _ (reads t ts _ reading e) k a =
      after_read lib true t s.client s.texts
        (text_read (k.handled ++ k.lost) t ts s.unread s.texts k.all_texts e) a
  Alive-Moves s _ (takes j js _ e) k a = inl (take-Alive lib true s.client a)
  Alive-Moves s _ (breaks _) k a = inl (fails-Alive lib s.client a)

  Runs-Stays :
      (start s : System lib)
      → IsFresh lib start
      → Alive lib true start.client
      → Runs lib start s
      → Stays s
  Runs-Stays start _ fresh a starts = inl a
  Runs-Stays start t fresh a (moves {s} run m) = elim (Runs-Stays start s fresh a run) [
    | inl alive ↦ Alive-Moves s t m (Runs-IsInOrder lib start s fresh run) alive
    | inr ended ↦ inr (later s t m ended)
  ]

  -- While `stop` waits, texts leave the io thread running but for an ill-typed one.
  abbrev pub only_texts : List (Option lib.Json) → List (Event lib)
  only_texts [] = []
  only_texts (t ∷ ts) = text t ∷ only_texts ts

  event_read :
      (e : Event lib) (c : Client lib)
      → Alive lib false c
      → (if c.is_reading then handle_event lib e c else c) ≡ handle_event lib e c
  event_read e c a = simp a.reading refl

  texts-Alive :
      (ts : List (Option lib.Json)) (c : Client lib)
      → Alive lib false c
      → Alive lib false (handle_events lib (only_texts ts) c) ⊎ Ended lib ts
  unfolding handle_events handle_event
  texts-Alive [] c a = inl a
  texts-Alive (t ∷ ts) c a =
      subst (λ d. Alive lib false (handle_events lib (only_texts ts) d) ⊎ Ended lib (t ∷ ts))
        (sym (event_read (text t) c a))
        (elim (after_read lib false t c (t ∷ ts) mem-cons_self a) [
          | inr ended ↦ inr ended
          | inl next ↦ elim (texts-Alive ts (handle_read lib t c) next) [
            | inl alive ↦ inl alive
            | inr (j, m, ill) ↦ inr (j, mem-cons_of_mem t m, ill)
          ]
        ])

  ended_thread :
      (es : List (Event lib)) (c : Client lib) → c.is_reading ≡ false → handle_events lib es c ≡ c
  unfolding handle_events
  ended_thread [] c e = refl
  ended_thread (x ∷ es) c e = simp e (ended_thread es c e)

  events-append :
      (ts : List (Option lib.Json)) (es : List (Event lib)) (c : Client lib)
      → handle_events lib (only_texts ts ++ es) c
        ≡ handle_events lib es (handle_events lib (only_texts ts) c)
  unfolding handle_events
  events-append [] es c = refl
  events-append (t ∷ ts) es c = events-append ts es _

  joined-waits : (c : Client lib) → c.io_runs ≡ true → joined lib c ≡ none
  unfolding joined
  joined-waits c e = ground (arith)

  -- The read fails while `stop` waits.
  broken-joins :
      (es : List (Event lib)) (c : Client lib)
      → Alive lib false c
      → joined lib (handle_events lib (broken ∷ es) c)
        ≡ some (record c { is_open = false; io_runs = false; is_reading = false })
  unfolding joined handle_events handle_event read_fails
  broken-joins es c a =
      let over : Client lib = record c { io_runs = false; is_reading = false } in
      let fails : (if c.is_reading then read_fails lib c else c) ≡ over =
        simp (a.reading, a.running) refl in
      ap (joined lib) (ap (handle_events lib es) fails ∙ ended_thread es over refl)

  -- How `stop` of a client whose io thread runs ends: not by texts, but by an error of the read.
  abbrev pub WaitsFor : List (Option lib.Json) → Client lib → Type 0
  WaitsFor ts c =
      (stop lib (only_texts ts) c ≡ none)
      × ((es : List (Event lib)) → stop lib (only_texts ts ++ broken ∷ es) c ≢ none)

  stop-WaitsFor :
      (ts : List (Option lib.Json)) (c : Client lib)
      → Alive lib true c
      → WaitsFor ts c ⊎ Ended lib ts
  unfolding stop
  stop-WaitsFor ts c a =
      let stopped : Client lib = record c { is_running = false } in
      elim (texts-Alive ts stopped (record { io = a.io; reading = a.reading; running = refl })) [
        | inl alive ↦ inl (
          joined-waits (handle_events lib (only_texts ts) stopped) alive.io,
          λ es e.
              let joins =
                ap (joined lib) (events-append ts (broken ∷ es) stopped)
                ∙ broken-joins es (handle_events lib (only_texts ts) stopped) alive in
              absurd (cc),
        )
        | inr ended ↦ inr ended
      ]

  -- After whatever the threads of a connected client did, `stop` waits for ever on a connection that
  -- stays open, whatever comes over it, and ends once the read fails. The exception is an io thread that
  -- ended on a response whose action or user has another type.
  pub Runs-stop :
      (start s : System lib) (c : Client lib) (ts : List (Option lib.Json))
      → IsFresh lib start
      → start.client ≡ connect lib c
      → Runs lib start s
      → WaitsFor ts s.client ⊎ Ended lib (s.texts ++ ts)
  unfolding connect
  Runs-stop start s c ts fresh e run =
      elim (Runs-Stays start s fresh
        (record {
          io = ap (λ d. d.io_runs) e;
          reading = ap (λ d. d.is_reading) e;
          running = ap (λ d. d.is_running) e;
        })
        run) [
          | inr (j, m, ill) ↦ inr (j, mem-append_left ts m, ill)
          | inl alive ↦ elim (stop-WaitsFor ts s.client alive) [
            | inl waits ↦ inl waits
            | inr (j, m, ill) ↦ inr (j, mem-append_right s.texts m, ill)
          ]
        ]
