-- ===== src/Router/Lookup.antt =====
-- `Router::findHandler` of hikyuu/httpd/Router.cpp against what a route serves.
use hku_rest.Prelude.{
  ◌≡◌, ◌↔◌, inl, inr, true, ◌||◌, none, some, [], ◌∷◌, ◌++◌, arith, Bool-cases, subst, Option-cases,
  ◌∙◌,
}
use hku_rest.Prelude.Text.{
  Text, text_eq_iff, starts_with→append, starts_with-append, before, ends_with, drop_last,
}
use hku_rest.Router.{
  RouteKey, Routes, is_exact, is_wildcard, find_exact, find_wildcard, find_handler,
}

-- What a route serves: its own path, or every path that extends the part before a final star.
pub data Serves (key : RouteKey) (method path : Text) : Type 0 where
  exact : key.method ≡ method → key.path ≡ path → Serves key method path
  wildcard :
      (rest : Text)
      → key.method ≡ method
      → ends_with b'*' key.path ≡ true
      → path ≡ drop_last key.path ++ rest
      → Serves key method path

-- A route of the table, with its handler, that serves the request.
pub data Served {ℓ} (H : Type ℓ) (method path : Text) (h : H) : Routes H → Type ℓ where
  here :
      {key : RouteKey} {routes : Routes H}
      → Serves key method path
      → Served H method path h ((key, h) ∷ routes)
  later :
      {r : RouteKey × H} {routes : Routes H}
      → Served H method path h routes
      → Served H method path h (r ∷ routes)

is_exact→Serves :
    (key : RouteKey) (method path : Text) → is_exact key method path ≡ true → Serves key method path
unfolding is_exact
is_exact→Serves key method path h =
    exact (ground (arith, text_eq_iff key.method method))
      (ground (arith, text_eq_iff key.path path))

is_wildcard→Serves :
    (key : RouteKey) (method path : Text)
    → is_wildcard key method path ≡ true
    → Serves key method path
unfolding is_wildcard
is_wildcard→Serves key method path h =
    let (rest, e) = starts_with→append path (drop_last key.path) (ground arith) in
    wildcard rest (ground (arith, text_eq_iff key.method method)) (ground arith) e

Serves→tests :
    (key : RouteKey) (method path : Text)
    → Serves key method path
    → (is_exact key method path || is_wildcard key method path) ≡ true
unfolding is_exact is_wildcard
Serves→tests key method path (exact e f) =
    ground (arith, text_eq_iff key.method method, text_eq_iff key.path path)
Serves→tests key method path (wildcard rest e s f) =
    ground (arith, text_eq_iff key.method method, f, starts_with-append (drop_last key.path) rest)

module _ {ℓ} {H : Type ℓ} (method path : Text) where
  find_exact_sound :
      (routes : Routes H) (h : H)
      → find_exact method path routes ≡ some h
      → Served H method path h routes
  unfolding find_exact
  find_exact_sound [] h e = absurd (cc)
  find_exact_sound ((key, g) ∷ routes) h e = elim (Bool-cases (is_exact key method path)) [
    | inl t ↦
        let same : g ≡ h = ground (arith, t) in
        subst (λ x. Served H method path x ((key, g) ∷ routes)) same
          (here (is_exact→Serves key method path t))
    | inr f ↦ later (find_exact_sound routes h (ground (arith, f)))
  ]

  find_wildcard_sound :
      (routes : Routes H) (h : H)
      → find_wildcard method path routes ≡ some h
      → Served H method path h routes
  unfolding find_wildcard
  find_wildcard_sound [] h e = absurd (cc)
  find_wildcard_sound ((key, g) ∷ routes) h e = elim (Bool-cases (is_wildcard key method path)) [
    | inl t ↦
        let same : g ≡ h = ground (arith, t) in
        subst (λ x. Served H method path x ((key, g) ∷ routes)) same
          (here (is_wildcard→Serves key method path t))
    | inr f ↦ later (find_wildcard_sound routes h (ground (arith, f)))
  ]

  find_complete :
      (h : H) (routes : Routes H)
      → Served H method path h routes
      → find_exact method path routes ≡ none
      → find_wildcard method path routes ≡ none
      → ⊥
  unfolding find_exact find_wildcard
  find_complete h _ (here {key = key} s) e f = ground (arith, Serves→tests key method path s)
  find_complete h _ (later {r = (key, g)} {routes = routes} s) e f =
      find_complete h routes s (ground arith) (ground arith)

-- A handler that `findHandler` returns stands in the table under a route that serves the request's
-- method and its path without the query.
pub find_handler-Served {ℓ} :
    {H : Type ℓ} (method path : Text) (routes : Routes H) (h : H)
    → find_handler method path routes ≡ some h
    → Served H method (before b'?' path) h routes
unfolding find_handler
find_handler-Served method path routes h e =
    elim (Option-cases (find_exact method (before b'?' path) routes)) [
      | inl n ↦ find_wildcard_sound method (before b'?' path) routes h (ground (arith, n))
      | inr (g, f) ↦ find_exact_sound method (before b'?' path) routes h (f ∙ ground (arith, f))
    ]

-- `findHandler` returns null exactly when no route of the table serves the request.
pub find_handler-none {ℓ} :
    {H : Type ℓ} (method path : Text) (routes : Routes H)
    → (find_handler method path routes ≡ none)
      ↔ ((h : H) → ¬ Served H method (before b'?' path) h routes)
find_handler-none {H = H} method path routes = (
  λ e h s. unserved e h s,
  λ n. elim (Option-cases (find_handler method path routes)) [
    | inl e ↦ e
    | inr (h, e) ↦ absurd (n h (find_handler-Served method path routes h e))
  ],
)
  where
    unserved :
        find_handler method path routes ≡ none
        → (h : H) → ¬ Served H method (before b'?' path) h routes
    unserved e h s =
        unfold find_handler in
        find_complete method (before b'?' path) h routes s (ground arith) (ground arith)
