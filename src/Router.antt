-- ===== src/Router.antt =====
-- hikyuu/httpd/Router.h and Router.cpp: the tables from requests to handlers.
-- A handler is opaque: the tables store it and give it back.
pub mod Lookup
pub mod Priority
pub mod Examples
use hku_rest.Prelude.{ℕ, Bool, ◌&&◌, Option, none, some, List, [], ◌∷◌, ◌++◌, if◌then◌else◌}
use hku_rest.Prelude.Text.{Text, text_eq, starts_with, before, ends_with, drop_last}

pub record RouteKey : Type 0 where
  pub method : Text
  pub path : Text

-- `RouteKey::operator==`, with the path of the request cut at the query.
pub is_exact : RouteKey → Text → Text → Bool
is_exact key method path_only = text_eq key.method method && text_eq key.path path_only

pub is_wildcard : RouteKey → Text → Text → Bool
is_wildcard key method path_only =
    text_eq key.method method
    && (ends_with b'*' key.path && starts_with path_only (drop_last key.path))

abbrev pub Routes {ℓ} : Type ℓ → Type ℓ
Routes H = List (RouteKey × H)

-- `WebSocketRouter`: the path alone, compared as a whole.
abbrev pub WsRoutes {ℓ} : Type ℓ → Type ℓ
WsRoutes H = List (Text × H)

module _ {ℓ} {H : Type ℓ} where
  pub register_handler : Text → Text → H → Routes H → Routes H
  register_handler method path handler routes =
      routes ++ (record { method = method; path = path }, handler) ∷ []

  -- The first loop of `findHandler`.
  pub find_exact : Text → Text → Routes H → Option H
  unfolding is_exact
  find_exact method path_only [] = none
  find_exact method path_only ((key, handler) ∷ routes) =
      if is_exact key method path_only then some handler else find_exact method path_only routes

  -- The second loop.
  pub find_wildcard : Text → Text → Routes H → Option H
  unfolding is_wildcard
  find_wildcard method path_only [] = none
  find_wildcard method path_only ((key, handler) ∷ routes) =
      if is_wildcard key method path_only
      then some handler
      else find_wildcard method path_only routes

  abbrev pub or_else : Option H → Option H → Option H
  or_else (some h) o = some h
  or_else none o = o

  unfoldable pub find_handler : Text → Text → Routes H → Option H
  unfolding find_exact find_wildcard
  find_handler method path routes =
      let path_only = before b'?' path in
      or_else (find_exact method path_only routes) (find_wildcard method path_only routes)

  pub register_ws : Text → H → WsRoutes H → WsRoutes H
  register_ws path factory routes = routes ++ (path, factory) ∷ []

  unfoldable pub find_ws : Text → WsRoutes H → Option H
  find_ws path [] = none
  find_ws path ((route_path, factory) ∷ routes) =
      if text_eq route_path path then some factory else find_ws path routes
