-- ===== src/Session/Greeting.antt =====
-- What `read_handshake` of MatchingServer/src/core/session.cpp writes.
use back_end_doc.Common.{
  ℕ, ◌≡◌, refl, subst, ◌∙◌, Bool, true, false, ◌&&◌, Option, none, some, List, ◌∷◌, ◌⊎◌, inl, inr,
  if◌then◌else◌, returned, threw, Bytes, bytes_eq,
}
use back_end_doc.Request.{Request, Field, absent, ill_typed, given, contains}
use back_end_doc.Response.{error, ip_in_use}
use back_end_doc.Server.{Server, Session, allow_connection}
use back_end_doc.Session.{
  Site, Step, Message, write, reply, connected, mirror_connected, handle_error, change_session,
}
use back_end_doc.Session.Answering.{
  Answers, once, Answered, answered, fails, on_action-Done, handle_error-sent,
}
use back_end_doc.Session.Handshake.{
  Handshake, mirror_handshake, checked_ip, first_request, initialized, on_version, client_handshake,
  closes, read_handshake,
}
use back_end_doc.Session.Requests.{process_request}

-- Nothing, or what a request is answered with.
pub data Greets (sid : ℕ) (before : List (ℕ × Message)) : Site → Type 0 where
  silent : {y : Site} → y.sent ≡ before → Greets sid before y
  answers : {y : Site} (m : Option Request) → Answers sid m before y → Greets sid before y

-- The messages of before, and that the address is in use.
abbrev pub and_refusal : ℕ → List (ℕ × Message) → List (ℕ × Message)
and_refusal sid before = (sid, reply (error ip_in_use)) ∷ before

module _ (uuid next sid : ℕ) (s : Session) where
  closes-Greets :
      (m : Option Request) (before : List (ℕ × Message)) (y : Step)
      → Answered sid m before y
      → Greets sid before (closes sid s y)
  unfolding closes
  closes-Greets m before (returned tt, y) (answered h) = answers m h
  closes-Greets m before (threw, y) (fails e) = silent (handle_error-sent sid s y ∙ e)

  first_request-Answered :
      (t : Session) (r : Request) (x : Site)
      → Answered sid (some r) x.sent (first_request next sid t r x)
  unfolding first_request process_request
  first_request-Answered t r x = go (contains r.action)
    where
      go :
          (b : Bool)
          → Answered sid
              (some r)
              x.sent
              (if b then process_request next sid t r x else (returned tt, write sid connected x))
      go true = on_action-Done next sid t r x r.action refl
      go false = answered (once _ refl)

  on_version-Greets :
      (r : Request) (x : Site) (v : Field Bytes)
      → Greets sid x.sent (closes sid s (on_version uuid next sid s r x v))
  unfolding on_version closes initialized change_session
  on_version-Greets r x absent = silent (handle_error-sent sid s x)
  on_version-Greets r x ill_typed = silent (handle_error-sent sid s x)
  on_version-Greets r x (given v) = go (bytes_eq x.server.version v)
    where
      go :
          (b : Bool)
          → Greets sid x.sent (
              closes sid s (
                if b
                then first_request next sid
                    (record s { token = some uuid })
                    r
                    (initialized uuid sid s x)
                else (returned tt, handle_error sid s x)))
      go true =
          closes-Greets (some r) x.sent _
            (first_request-Answered (record s { token = some uuid }) r (initialized uuid sid s x))
      go false = silent (handle_error-sent sid s x)

  abbrev Hailed : Site → Site → Type 0
  Hailed x y = Greets sid x.sent y ⊎ Greets sid (and_refusal sid x.sent) y

  client_handshake-Hailed :
      (h : Handshake) (x : Site) → Hailed x (closes sid s (client_handshake uuid next sid s h x))
  unfolding client_handshake checked_ip
  client_handshake-Hailed h x = go (allow_connection s.remote_ip x.server)
    where
      go :
          (a : Bool × Server)
          → Hailed x
              (closes sid s (on_version uuid next sid s h.request (checked_ip sid s a x) h.version))
      go (true, v) = inl (on_version-Greets h.request (record x { server = v }) h.version)
      go (false, v) =
          let w : Site = write sid (reply (error ip_in_use)) (record x { server = v }) in
          inr (
            subst
              (λ l. Greets sid l (
                closes sid s
                  (on_version uuid next sid s h.request (handle_error sid s w) h.version)))
              (handle_error-sent sid s w)
              (on_version-Greets h.request (handle_error sid s w) h.version))

  mirror_handshake-Hailed :
      (p : Field ℕ) (x : Site) → Hailed x (closes sid s (mirror_handshake sid p x))
  unfolding mirror_handshake closes change_session
  mirror_handshake-Hailed absent x = inl (silent (handle_error-sent sid s _))
  mirror_handshake-Hailed ill_typed x = inl (silent (handle_error-sent sid s _))
  mirror_handshake-Hailed (given port) x = inl (answers none (once mirror_connected refl))

  -- A handshake writes nothing, or what a request is answered with; and before it, if the address is in
  -- use, that it is.
  pub read_handshake-Hailed :
      (m : Option Handshake) (x : Site) → Hailed x (read_handshake uuid next sid s m x)
  unfolding read_handshake
  read_handshake-Hailed none x = inl (silent (handle_error-sent sid s x))
  read_handshake-Hailed (some h) x = go (h.is_mirror_type && contains h.port)
    where
      go :
          (b : Bool)
          → Hailed x (
              closes sid s
                (if b then mirror_handshake sid h.port x else client_handshake uuid next sid s h x))
      go true = mirror_handshake-Hailed h.port x
      go false = client_handshake-Hailed h x
