-- ===== src/TestClient/System.antt =====
-- The client of GameSocketTestClient/GameTestClient.cpp with its connection: its threads' steps, in
-- every interleaving.
use back_end_doc.Common.{
  ◌≤◌, length, ◌≡◌, Bool, true, false, Option, none, some, List, [], ◌∷◌, ◌++◌, returned,
}
use back_end_doc.TestClient.{
  Library, Outgoing, Client, submit, take_response, handle_read, read_fails, ping,
}

-- The texts that are json.
abbrev pub whole : {A : Type 0} → List (Option A) → List A
whole [] = []
whole (none ∷ ts) = whole ts
whole (some j ∷ ts) = j ∷ whole ts

module _ (lib : Library) where
  -- The client, the texts that came over the connection, those of them that are not read yet, and the
  -- responses that requests were given.
  pub record System : Type 0 where
    pub client : Client lib
    pub texts : List (Option lib.Json)
    pub unread : List (Option lib.Json)
    pub taken : List lib.Json

  -- A request whose wait is over without a response changes nothing.
  pub data Moves : System → System → Type 0 where
    submits :
        (m : Outgoing) (s : System) (d : Client lib)
        → submit lib false m s.client ≡ returned d
        → Moves s (record s { client = d })
    pings : (fails : Bool) (s : System) → Moves s (record s { client = ping lib fails s.client })
    arrives :
        (t : Option lib.Json) (s : System)
        → Moves s (record s { texts = s.texts ++ t ∷ []; unread = s.unread ++ t ∷ [] })
    reads :
        (t : Option lib.Json) (ts : List (Option lib.Json)) (s : System)
        → s.client.is_reading ≡ true
        → s.unread ≡ t ∷ ts
        → Moves s (record s { client = handle_read lib t s.client; unread = ts })
    takes :
        (j : lib.Json) (js : List lib.Json) (s : System)
        → s.client.queue ≡ j ∷ js
        → Moves s (record s {
          client = (take_response lib s.client).1;
          taken = s.taken ++ (take_response lib s.client).0 ∷ [];
        })
    breaks : (s : System) → Moves s (record s { client = read_fails lib s.client })

  pub data Runs (start : System) : System → Type 0 where
    starts : Runs start start
    moves : {s t : System} → Runs start s → Moves s t → Runs start t

  -- `handled` is what the io thread put into the queue or dropped; `lost` is what it read last, if that
  -- ended it.
  pub record IsInOrder (s : System) : Type 0 where
    pub handled : List (Option lib.Json)
    pub lost : List (Option lib.Json)
    pub all_texts : handled ++ lost ++ s.unread ≡ s.texts
    pub in_order : s.taken ++ s.client.queue ≡ whole handled
    pub none_lost : s.client.is_reading ≡ true → lost ≡ []
    pub one_lost : length lost ≤ 1

  -- Nothing was read or taken yet.
  abbrev pub IsFresh : System → Type 0
  IsFresh s = (s.texts ≡ s.unread) × (s.taken ≡ []) × (s.client.queue ≡ [])
