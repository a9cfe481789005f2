-- ===== src/Gateway/Routing.antt =====
-- The table of routes of APIGatewayServer/src/core/request_router.cpp against a map, and what the
-- gateway answers.
use back_end_doc.Common.{
  ◌≡◌, refl, ◌∙◌, ap, Bool, true, false, ◌||◌, some, List, [], ◌∷◌, if◌then◌else◌, returned, Bytes,
  bytes_eq, bytes_eq-eq, Bool-cases, inl, inr,
}
use back_end_doc.Request.{given}
use back_end_doc.Gateway.{
  Library, RouteHandler, Answer, error, unknown_action, handled, called, find_route, erase_route,
  register_route, route_to, route_action, route, login_action, create_room_action, succeed,
  gateway_routes, after_service, after_route, handle_client_connection,
}

module _ (lib : Library) where
  find_route-erase_route :
      (a b : Bytes) (routes : List (Bytes × RouteHandler lib))
      → bytes_eq a b ≡ false
      → find_route lib b (erase_route lib a routes) ≡ find_route lib b routes
  unfolding find_route erase_route
  find_route-erase_route a b [] e = refl
  find_route-erase_route a b ((c, h) ∷ routes) e = elim (Bool-cases (bytes_eq c a)) [
    | inl hit ↦
        rw
          (
            hit,
            find_route-erase_route a b routes e,
            ap (λ x. bytes_eq x b) (bytes_eq-eq c a hit) ∙ e,
          )
          refl
    | inr miss ↦ rw (miss, find_route-erase_route a b routes e) refl
  ]

  -- After `registerRoute`, `route` calls the new handler for its action, whatever was registered for
  -- it before, and answers all other actions as before.
  pub route-register_route :
      (a b : Bytes) (h : RouteHandler lib) (routes : List (Bytes × RouteHandler lib))
      (request : lib.Json)
      → lib.action request ≡ given b
      → route lib (register_route lib a h routes) request
        ≡ (if bytes_eq a b then returned (called lib (h request)) else route lib routes request)
  unfolding route route_action register_route find_route route_to
  route-register_route a b h routes request e = elim (Bool-cases (bytes_eq a b)) [
    | inl hit ↦ rw (e, hit) refl
    | inr miss ↦ rw (e, miss, find_route-erase_route a b routes miss) refl
  ]

  no_route :
      (request : lib.Json) (a : Bytes)
      → lib.action request ≡ given a
      → route lib [] request ≡ returned (error unknown_action)
  unfolding route route_action route_to find_route
  no_route request a e = rw e refl

  -- Where the registry finds the service, the gateway answers "login" and "create_room" with success,
  -- whatever else is in the request, and every other action as unknown.
  pub handle_client_connection-answers :
      (request : lib.Json) (a : Bytes)
      → lib.action request ≡ given a
      → lib.find_service request ≡ returned tt
      → handle_client_connection lib (some request)
        ≡ some (
            if bytes_eq (login_action lib) a || bytes_eq (create_room_action lib) a
            then handled lib.success
            else error unknown_action)
  unfolding handle_client_connection after_route after_service gateway_routes
  handle_client_connection-answers request a e f =
      elim (Bool-cases (bytes_eq (create_room_action lib) a)) [
        | inl create ↦
            rw (opens, create, f)
              (either (bytes_eq (login_action lib) a) (handled lib.success) (error unknown_action))
        | inr other ↦ elim (Bool-cases (bytes_eq (login_action lib) a)) [
          | inl login ↦ rw (opens, other, logs_in, login, f) refl
          | inr neither ↦ rw (opens, other, logs_in, neither, no_route request a e, f) refl
        ]
      ]
    where
      opens : route lib (gateway_routes lib) request ≡ (
          if bytes_eq (create_room_action lib) a
          then returned (handled lib.success)
          else route lib (register_route lib (login_action lib) (succeed lib) []) request)
      opens =
          route-register_route (create_room_action lib) a (succeed lib)
            (register_route lib (login_action lib) (succeed lib) []) request e

      logs_in : route lib (register_route lib (login_action lib) (succeed lib) []) request ≡ (
          if bytes_eq (login_action lib) a
          then returned (handled lib.success)
          else route lib [] request)
      logs_in = route-register_route (login_action lib) a (succeed lib) [] request e

      either : (b : Bool) (x y : Answer lib) → some x ≡ some (if b || true then x else y)
      either true x y = refl
      either false x y = refl
