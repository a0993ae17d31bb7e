-- ===== src/Router/Examples.antt =====
-- Tests of the model of hikyuu/httpd/Router.cpp, and its theorems at concrete inputs.
use hku_rest.Prelude.{ℕ, ◌≡◌, refl, none, some, [], ◌∷◌, ◌++◌, arith, if◌then◌else◌}
use hku_rest.Prelude.Text.{codes, text_eq, before, starts_with, ends_with, drop_last}
use hku_rest.Router.{
  Routes, find_exact, find_handler, register_handler, or_else, find_ws, register_ws,
}
use hku_rest.Router.Lookup.{Served, find_handler-Served, find_handler-none}
use hku_rest.Router.Priority.{
  find-register_exact, find-register_keeps, find_handler-query, find_ws-register,
}

abbrev api : Routes ℕ
api =
    (record { method = codes "GET"; path = codes "/api/*" }, 1)
    ∷ (record { method = codes "GET"; path = codes "/hello" }, 2)
    ∷ []

find_hello : find_handler (codes "GET") (codes "/hello?x=1") api ≡ some 2
unfolding find_handler text_eq before starts_with ends_with drop_last
find_hello = refl

find_users : find_handler (codes "GET") (codes "/api/users") api ≡ some 1
unfolding find_handler text_eq before starts_with ends_with drop_last
find_users = refl

find_nothing : find_handler (codes "POST") (codes "/hello") api ≡ none
unfolding find_handler text_eq before starts_with ends_with drop_last
find_nothing = refl

find_handler-Served_example : Served ℕ (codes "GET") (before b'?' (codes "/api/users")) 1 api
find_handler-Served_example =
    find_handler-Served (codes "GET") (codes "/api/users") api 1 find_users

find_handler-none_case : ¬ Served ℕ (codes "POST") (before b'?' (codes "/hello")) 2 api
find_handler-none_case = (find_handler-none (codes "POST") (codes "/hello") api).0 find_nothing 2

find-register_exact_case :
    find_handler
      (codes "GET")
      (codes "/api/v1" ++ b'?' ∷ codes "k=v")
      (register_handler (codes "GET") (codes "/api/v1") 3 api)
    ≡ some 3
unfolding find_exact text_eq
find-register_exact_case =
    find-register_exact (codes "GET") (codes "/api/v1") (codes "k=v") 3 api (omega arith) refl

keeps_api :
    find_handler
      (codes "GET")
      (codes "/hello?x=1")
      (register_handler (codes "GET") (codes "/h*") 3 api)
    ≡ some 2
unfolding find_exact text_eq before
keeps_api =
    find-register_keeps (codes "GET") (codes "/hello?x=1") (codes "GET") (codes "/h*") 2 3 api
      find_hello (λ _. refl)

hello_with_query :
    find_handler (codes "GET") (codes "/hello" ++ b'?' ∷ codes "a=1") api
    ≡ find_handler (codes "GET") (codes "/hello") api
hello_with_query = find_handler-query (codes "GET") (codes "/hello") (codes "a=1") api

registered_ws :
    find_ws {H = ℕ} (codes "/ws") (register_ws (codes "/ws") 7 [])
    ≡ or_else
        (find_ws {H = ℕ} (codes "/ws") [])
        (if text_eq (codes "/ws") (codes "/ws") then some 7 else none)
registered_ws = find_ws-register (codes "/ws") (codes "/ws") 7 []
