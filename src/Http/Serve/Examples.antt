-- ===== src/Http/Serve/Examples.antt =====
-- A connection of hikyuu/httpd/HttpServer.cpp with two routes: a handler that fills in its response
-- and one that streams and sends by itself.
use hku_rest.Prelude.{
  ◌≡◌, refl, sym, subst, ap, ◌∙◌, true, false, Option, none, some, [], ◌∷◌, arith,
}
use hku_rest.Prelude.Text.{Text, codes, text_eq, before}
use hku_rest.Prelude.Dict.{find, put}
use hku_rest.Router.{find_handler}
use hku_rest.Http.{Request, CorsConfig}
use hku_rest.Http.Headers.{IsSecured, header}
use hku_rest.Http.Serve.{
  Handler, Server, Connection, Arrival, chunk, new_connection, process_handle, is_websocket, turn,
  read_loop,
}
use hku_rest.Http.Serve.KeepAlive.{IsWithin, read_loop-IsWithin}
use hku_rest.Http.Serve.Silence.{responses, read_loop-responses}
use hku_rest.Http.Serve.Answers.{
  IsPlain, KeepsHeaders, Answers, process_handle-IsSecured, turn-Answers,
}

abbrev hello : Handler
hello req res = record {
  response = record res { body = codes "hi" };
  chunks = [];
  sent = false;
  threw = false;
}

abbrev stream : Handler
stream req res = record {
  response = res;
  chunks = codes "a" ∷ codes "b" ∷ [];
  sent = true;
  threw = false;
}

abbrev no_cors : CorsConfig
no_cors = record {
  enabled = false;
  allow_origin = codes "*";
  allow_methods = [];
  allow_headers = [];
  expose_headers = [];
  max_age = [];
  allow_credentials = false;
}

abbrev server : Server
server = record {
  router =
      (record { method = codes "GET"; path = codes "/hello" }, hello)
      ∷ (record { method = codes "GET"; path = codes "/stream" }, stream)
      ∷ [];
  cors = no_cors;
  is_https = true;
  fast_path = false;
  websocket_enabled = true;
  rate_limit_enabled = false;
}

abbrev get : Text → Request
get target = record {
  method = codes "GET";
  target = target;
  headers = [];
  body = [];
  keep_alive = true;
}

abbrev arrive : Text → Arrival
arrive target = record { age = 0; request = some (get target); allowed = true; writable = true }

-- A connection on which a stream was sent.
abbrev streamed : Connection
streamed = record {
  request_count = 1;
  response_sent = true;
  output = chunk (codes "a") ∷ chunk (codes "b") ∷ [];
  closed = false;
}

streams : turn text_eq server (arrive (codes "/stream")) new_connection ≡ streamed
unfolding turn find_handler find text_eq before put
streams = refl

read_loop-IsWithin_example : IsWithin (
    read_loop text_eq server
      (arrive (codes "/hello") ∷ arrive (codes "/stream") ∷ [])
      new_connection)
read_loop-IsWithin_example =
    read_loop-IsWithin text_eq server (arrive (codes "/hello") ∷ arrive (codes "/stream") ∷ [])
      (refl, (refl, tt))

read_loop-responses_example :
    responses (read_loop text_eq server (arrive (codes "/hello") ∷ []) streamed) ≡ 0
read_loop-responses_example =
    read_loop-responses text_eq server (arrive (codes "/hello") ∷ []) streamed refl

hello_found : find_handler (codes "GET") (codes "/hello") server.router ≡ some hello
unfolding find_handler text_eq before
hello_found = refl

only_hello :
    (P : Handler → Type 0)
    → P hello
    → (h : Handler) → find_handler (codes "GET") (codes "/hello") server.router ≡ some h
    → P h
only_hello P p h e = subst P (some_injective (sym hello_found ∙ e)) p
  where
    or_hello : Option Handler → Handler
    or_hello none = hello
    or_hello (some g) = g

    some_injective : some hello ≡ some h → hello ≡ h
    some_injective q = ap or_hello q

hello-KeepsHeaders : KeepsHeaders hello
unfolding header
hello-KeepsHeaders is_https req res k = k

process_handle-IsSecured_case :
    IsSecured true (process_handle server (get (codes "/hello"))).response
process_handle-IsSecured_case =
    process_handle-IsSecured server (get (codes "/hello"))
      (only_hello KeepsHeaders hello-KeepsHeaders)

turn-Answers_example :
    Answers new_connection (turn text_eq server (arrive (codes "/hello")) new_connection)
turn-Answers_example =
    turn-Answers text_eq server (arrive (codes "/hello")) (get (codes "/hello")) new_connection refl
      refl (omega arith) refl refl (unfold is_websocket find in refl)
      (only_hello IsPlain (λ req res. (refl, refl)))
