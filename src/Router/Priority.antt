-- ===== src/Router/Priority.antt =====
-- Which of several routes wins, and what the query does: hikyuu/httpd/Router.cpp.
use hku_rest.Prelude.{◌≡◌, refl, true, none, some, [], ◌∷◌, ◌++◌, arith, if◌then◌else◌}
use hku_rest.Prelude.Text.{Text, Avoids, text_eq, text_eq_refl, before, before-append}
use hku_rest.Router.{
  Routes, is_exact, is_wildcard, find_exact, find_wildcard, find_handler, register_handler, or_else,
  WsRoutes, find_ws, register_ws,
}

before_self : (s : Text) → Avoids b'?' s → before b'?' s ≡ s
unfolding before
before_self [] h = refl
before_self (a ∷ s) h = ground (arith, before_self s h.1)

module _ {ℓ} {H : Type ℓ} (method path : Text) where
  find_exact-register :
      (m p : Text) (h : H) (routes : Routes H)
      → find_exact method path (register_handler m p h routes)
        ≡ or_else
            (find_exact method path routes)
            (if is_exact (record { method = m; path = p }) method path then some h else none)
  unfolding find_exact register_handler
  find_exact-register m p h [] = refl
  find_exact-register m p h ((key, g) ∷ routes) = ground (arith, find_exact-register m p h routes)

  find_wildcard-register :
      (m p : Text) (h : H) (routes : Routes H)
      → find_wildcard method path (register_handler m p h routes)
        ≡ or_else
            (find_wildcard method path routes)
            (if is_wildcard (record { method = m; path = p }) method path then some h else none)
  unfolding find_wildcard register_handler
  find_wildcard-register m p h [] = refl
  find_wildcard-register m p h ((key, g) ∷ routes) =
      ground (arith, find_wildcard-register m p h routes)

-- A new route, if no older one has its method and path, serves every request for them whatever the
-- query: no wildcard route that was registered before hides it.
pub find-register_exact {ℓ} :
    {H : Type ℓ} (method path query : Text) (h : H) (routes : Routes H)
    → Avoids b'?' path
    → find_exact method path routes ≡ none
    → find_handler method (path ++ b'?' ∷ query) (register_handler method path h routes) ≡ some h
unfolding find_handler is_exact
find-register_exact method path query h routes clean new =
    rw
      (
        before-append b'?' path query,
        before_self path clean,
        find_exact-register method path method path h routes,
        new,
      )
      (ground (arith, text_eq_refl method, text_eq_refl path))

-- A request that has a handler keeps it when a route is registered later, unless the new route has
-- exactly the request's method and path and the old handler was a wildcard's.
pub find-register_keeps {ℓ} :
    {H : Type ℓ} (method path m p : Text) (g h : H) (routes : Routes H)
    → find_handler method path routes ≡ some g
    → (is_exact (record { method = m; path = p }) method (before b'?' path) ≡ true
        → find_exact method (before b'?' path) routes ≡ some g)
    → find_handler method path (register_handler m p h routes) ≡ some g
unfolding find_handler
find-register_keeps method path m p g h routes e k = ground (
  arith,
  k,
  find_exact-register method (before b'?' path) m p h routes,
  find_wildcard-register method (before b'?' path) m p h routes,
)

-- The query does not take part in the choice of the handler.
pub find_handler-query {ℓ} :
    {H : Type ℓ} (method path query : Text) (routes : Routes H)
    → find_handler method (path ++ b'?' ∷ query) routes ≡ find_handler method path routes
unfolding find_handler
find_handler-query method path query routes = rw (before-append b'?' path query)

-- `WebSocketRouter` is a map from whole paths in which the first registration of a path wins.
pub find_ws-register {ℓ} :
    {H : Type ℓ} (path p : Text) (f : H) (routes : WsRoutes H)
    → find_ws path (register_ws p f routes)
      ≡ or_else (find_ws path routes) (if text_eq p path then some f else none)
unfolding find_ws register_ws
find_ws-register path p f [] = refl
find_ws-register path p f ((q, g) ∷ routes) = ground (arith, find_ws-register path p f routes)
