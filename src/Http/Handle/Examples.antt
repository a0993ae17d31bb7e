-- ===== src/Http/Handle/Examples.antt =====
-- A handler of hikyuu/httpd/HttpHandle.cpp with one filter, which refuses a request without a token.
use hku_rest.Prelude.{
  ◌≡◌, ◌⊎◌, refl, sym, ap, ◌∙◌, true, false, Option, none, some, List, [], ◌∷◌, All,
}
use hku_rest.Prelude.Text.{Text, codes, text_eq, before}
use hku_rest.Prelude.Dict.{Dict, find}
use hku_rest.Connections.Ints.{ℤ, pos}
use hku_rest.Router.{find_handler}
use hku_rest.Http.{Request}
use hku_rest.Http.Headers.{IsSecured, header}
use hku_rest.Http.Serve.{Handler, Server, process_handle, blank}
use hku_rest.Http.Handle.{
  Work, Ended, passed, failed, Stage, Check, HttpHandle, handle, address_header, get_client_ip,
}
use hku_rest.Http.Handle.Stages.{Runs, IsAnswer, stages_of, handle-Runs}
use hku_rest.Http.Handle.Secured.{KeepsSecured, process_handle-Secured}
use hku_rest.Http.Handle.Client.{Among, IsKnown, get_client_ip-Among}

abbrev show : ℤ → Text
show code = codes "401"

abbrev message : ℤ → Text
message code = codes "no token"

abbrev has_token : Option Text → Work → Ended × Work
has_token none w = (failed (pos 401), w)
has_token (some t) w = (passed, w)

abbrev filter : Stage
filter req w = has_token (find (codes "Token") req.headers) w

abbrev fine : Check
fine req w = (none, w)

abbrev says_hi : Stage
says_hi req w = (passed, record w { response = record w.response { body = codes "hi" } })

abbrev hello : HttpHandle
hello = record { filters = filter ∷ []; before_run = fine; run = says_hi; after_run = fine }

abbrev get_hello : Request
get_hello = record {
  method = codes "GET";
  target = codes "/hello";
  headers = [];
  body = [];
  keep_alive = true;
}

abbrev server : Server
server = record {
  router =
      (record { method = codes "GET"; path = codes "/hello" }, handle show message (pos 1) hello)
      ∷ [];
  cors = record {
    enabled = false;
    allow_origin = codes "*";
    allow_methods = [];
    allow_headers = [];
    expose_headers = [];
    max_age = [];
    allow_credentials = false;
  };
  is_https = true;
  fast_path = false;
  websocket_enabled = true;
  rate_limit_enabled = false;
}

handle-Runs_example :
    (e : Ended) × (w : Work) × Runs get_hello
      (stages_of hello)
      (record { response = blank; chunks = []; sent = false })
      e
      w
    × IsAnswer show message (pos 1) e w (handle show message (pos 1) hello get_hello blank)
    × ((handle show message (pos 1) hello get_hello blank).chunks ≡ w.chunks)
    × ((handle show message (pos 1) hello get_hello blank).sent ≡ w.sent)
    × ((handle show message (pos 1) hello get_hello blank).threw ≡ false)
handle-Runs_example = handle-Runs show message (pos 1) hello get_hello blank

-- Without a token the answer is the error of the filter.
refused_by_filter :
    (handle show message (pos 1) hello get_hello blank).response.body
    ≡ codes "{\"ret\":401,\"errmsg\":\"no token\"}"
unfolding handle find text_eq
refused_by_filter = refl

abbrev lower : Text → Text
lower s = s

abbrev split : Text → List Text
split s = s ∷ []

abbrev proxied : Dict Text
proxied = (codes "X-Real-IP", codes "10.0.0.7") ∷ []

get_client_ip-Among_case :
    (get_client_ip lower split true (codes "10.0.0.1") proxied ≡ codes "10.0.0.1")
    ⊎ ((true ≡ true)
        × Among
            (get_client_ip lower split true (codes "10.0.0.1") proxied)
            (split (address_header lower split proxied))
        × IsKnown (get_client_ip lower split true (codes "10.0.0.1") proxied))
get_client_ip-Among_case = get_client_ip-Among lower split true (codes "10.0.0.1") proxied

hello_found :
    find_handler (codes "GET") (codes "/hello") server.router
    ≡ some (handle show message (pos 1) hello)
unfolding find_handler text_eq before
hello_found = refl

only_hello :
    (f : Handler)
    → find_handler (codes "GET") (codes "/hello") server.router ≡ some f
    → f ≡ handle show message (pos 1) hello
only_hello f e = sym (ap or_hello (sym hello_found ∙ e))
  where
    or_hello : Option Handler → Handler
    or_hello none = handle show message (pos 1) hello
    or_hello (some g) = g

filter-KeepsSecured : KeepsSecured filter
filter-KeepsSecured is_https req w k = kept (find (codes "Token") req.headers)
  where
    kept : (o : Option Text) → IsSecured is_https (has_token o w).1.response
    kept none = k
    kept (some t) = k

says_hi-KeepsSecured : KeepsSecured says_hi
unfolding header
says_hi-KeepsSecured is_https req w k = k

hello-KeepsSecured : All KeepsSecured (stages_of hello)
hello-KeepsSecured =
    (filter-KeepsSecured, (λ b req w k. k, (says_hi-KeepsSecured, (λ b req w k. k, tt))))

process_handle-Secured_example : IsSecured true (process_handle server get_hello).response
process_handle-Secured_example =
    process_handle-Secured show message (pos 1) server get_hello
      (λ f e. (hello, only_hello f e, hello-KeepsSecured))
