-- ===== src/Gateway.antt =====
-- APIGatewayServer/src/core: `RequestRouter`, and what `ApiGateway` does with a line that a client
-- sends. The json library is a parameter: its values, what it finds under the key "action", and the
-- value {"status": "success"}. The registry of services, whose methods have no body in the repository,
-- is one too.
pub mod Routing
use back_end_doc.Common.{
  Bool, true, false, Option, none, some, List, [], ◌∷◌, if◌then◌else◌, Outcome, returned, threw,
  Bytes, bytes_eq,
}
use back_end_doc.Request.{Field, absent, ill_typed, given}

pub data RouterError : Type 0 where
  no_action_specified unknown_action internal_error : RouterError

pub record Library : Type 1 where
  pub Json : Type 0
  pub action : Json → Field Bytes
  pub success : Json
  -- `getOptimalService` of request["service"]
  pub find_service : Json → Outcome (Unit {0})

module _ (lib : Library) where
  pub data Answer : Type 0 where
    error : RouterError → Answer
    handled : lib.Json → Answer

  abbrev pub RouteHandler : Type 0
  RouteHandler = lib.Json → Outcome lib.Json

  unfoldable pub find_route : Bytes → List (Bytes × RouteHandler) → Option RouteHandler
  find_route a [] = none
  find_route a ((b, h) ∷ rest) = if bytes_eq b a then some h else find_route a rest

  unfoldable pub erase_route : Bytes → List (Bytes × RouteHandler) → List (Bytes × RouteHandler)
  erase_route a [] = []
  erase_route a ((b, h) ∷ rest) =
      let others = erase_route a rest in if bytes_eq b a then others else (b, h) ∷ others

  -- routes_[action] = handler
  unfoldable pub register_route :
      Bytes → RouteHandler → List (Bytes × RouteHandler) → List (Bytes × RouteHandler)
  register_route a h routes = (a, h) ∷ erase_route a routes

  -- What a handler throws is caught.
  abbrev pub called : Outcome lib.Json → Answer
  called threw = error internal_error
  called (returned r) = handled r

  unfoldable pub route_to : Option RouteHandler → lib.Json → Answer
  route_to none request = error unknown_action
  route_to (some h) request = called (h request)

  route_action : List (Bytes × RouteHandler) → lib.Json → Field Bytes → Outcome Answer
  route_action routes request absent = returned (error no_action_specified)
  route_action routes request ill_typed = threw
  route_action routes request (given a) = returned (route_to (find_route a routes) request)

  unfoldable pub route : List (Bytes × RouteHandler) → lib.Json → Outcome Answer
  unfolding route_action
  route routes request = route_action routes request (lib.action request)

  abbrev pub succeed : RouteHandler
  succeed request = returned lib.success

  abbrev pub login_action : Bytes
  login_action = b'l' ∷ b'o' ∷ b'g' ∷ b'i' ∷ b'n' ∷ []

  abbrev pub create_room_action : Bytes
  create_room_action =
      b'c' ∷ b'r' ∷ b'e' ∷ b'a' ∷ b't' ∷ b'e' ∷ b'_' ∷ b'r' ∷ b'o' ∷ b'o' ∷ b'm' ∷ []

  -- The routes that the constructor of `ApiGateway` registers.
  unfoldable pub gateway_routes : List (Bytes × RouteHandler)
  gateway_routes =
      register_route create_room_action succeed (register_route login_action succeed [])

  after_service : Outcome (Unit {0}) → Answer → Option Answer
  after_service threw answer = none
  after_service (returned tt) answer = some answer

  after_route : Outcome Answer → lib.Json → Option Answer
  unfolding after_service
  after_route threw request = none
  after_route (returned answer) request = after_service (lib.find_service request) answer

  -- `handle_client_connection`: what is written back, if anything; `none` is a line that is no json.
  -- Every exception is logged only.
  unfoldable pub handle_client_connection : Option lib.Json → Option Answer
  unfolding after_route
  handle_client_connection none = none
  handle_client_connection (some request) = after_route (route gateway_routes request) request
