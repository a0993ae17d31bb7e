-- ===== src/Http/Handle.antt =====
-- hikyuu/httpd/HttpHandle.cpp: `operator()`, which runs a handler's filters and its three stages and
-- turns errors and exceptions into responses, and what a handler reads of the request.
pub mod Stages
pub mod Secured
pub mod Client
pub mod Examples
use hku_rest.Prelude.{
  ℕ, Bool, true, false, not, ◌&&◌, ◌||◌, Option, none, some, List, [], ◌∷◌, ◌++◌, if◌then◌else◌,
  is_empty,
}
use hku_rest.Prelude.Text.{Text, codes, text_eq, before}
use hku_rest.Prelude.Dict.{Dict, find}
use hku_rest.Connections.Ints.{ℤ}
use hku_rest.Http.{Request, Response, set_header}
use hku_rest.Http.Serve.{Handler, Handled}

-- What a handler works on: the response, the chunks that it wrote, and whether it has sent the
-- response itself.
pub record Work : Type 0 where
  pub response : Response
  pub chunks : List Text
  pub sent : Bool

-- How a filter or `run` ends: it passes, fails with a code, or throws a `BizException` or something
-- else.
pub data Ended : Type 0 where
  passed exception : Ended
  failed biz_exception : ℤ → Ended

abbrev pub Stage : Type 0
Stage = Request → Work → Ended × Work

-- `before_run` and `after_run` are `noexcept`: they pass, here none, or fail with a code.
abbrev pub Check : Type 0
Check = Request → Work → Option ℤ × Work

pub record HttpHandle : Type 0 where
  pub filters : List Stage
  pub before_run : Check
  pub run : Stage
  pub after_run : Check

-- What follows runs only if this passed.
abbrev pub next : Ended × Work → (Work → Ended × Work) → Ended × Work
next (passed, w) f = f w
next (exception, w) f = (exception, w)
next (failed code, w) f = (failed code, w)
next (biz_exception code, w) f = (biz_exception code, w)

abbrev pub checked : Option ℤ × Work → Ended × Work
checked (none, w) = (passed, w)
checked (some code, w) = (failed code, w)

pub apply_filters : List Stage → Request → Work → Ended × Work
apply_filters [] req w = (passed, w)
apply_filters (filter ∷ rest) req w = next (filter req w) (λ w'. apply_filters rest req w')

-- The numerals of `fmt`, and the messages of the error codes.
module _ (show : ℤ → Text) (biz_err_msg : ℤ → Text) (base_failed : ℤ) where
  abbrev pub error_body : ℤ → Text → Text
  error_body code errmsg =
      codes "{\"ret\":" ++ (show code ++ (codes ",\"errmsg\":\"" ++ (errmsg ++ codes "\"}")))

  abbrev pub json_answer : ℕ → Text → Work → Work
  json_answer status body w = record w {
    response =
        set_header (codes "Content-Type") (codes "application/json; charset=UTF-8")
          (record w.response { status = status; body = body });
  }

  abbrev pub process_error : ℤ → Work → Work
  process_error code w = json_answer 200 (error_body code (biz_err_msg code)) w

  abbrev pub process_biz_exception : ℤ → Work → Work
  process_biz_exception code w = json_answer 200 (error_body code (codes "biz exception")) w

  abbrev pub process_exception : Work → Work
  process_exception w = json_answer 500 (error_body base_failed (codes "internal error")) w

  abbrev pub conclude : Ended × Work → Work
  conclude (passed, w) = w
  conclude (failed code, w) = process_error code w
  conclude (biz_exception code, w) = process_biz_exception code w
  conclude (exception, w) = process_exception w

  abbrev pub run_stages : HttpHandle → Request → Work → Ended × Work
  run_stages h req w = next (apply_filters h.filters req w) (λ w1.
      next (checked (h.before_run req w1))
        (λ w2. next (h.run req w2) (λ w3. checked (h.after_run req w3))))

  abbrev pub handled : Work → Handled
  handled w = record { response = w.response; chunks = w.chunks; sent = w.sent; threw = false }

  -- `operator()`, as the router calls it.
  pub handle : HttpHandle → Handler
  unfolding apply_filters
  handle h req res =
      handled (conclude (run_stages h req (record { response = res; chunks = []; sent = false })))

-- The fields as they came in, with their spelling, and the library's `to_lower` and `split`.
module _ (to_lower : Text → Text) (split : Text → List Text) where
  abbrev pub or_empty : Option Text → Text
  or_empty none = []
  or_empty (some value) = value

  pub get_req_header : Text → Dict Text → Text
  get_req_header name fields = or_empty (find name fields)

  pub get_language : Dict Text → Text
  unfolding get_req_header before
  get_language fields = to_lower (before 44 (get_req_header (codes "Accept-Language") fields))

  abbrev pub is_unknown : Text → Bool
  is_unknown value = is_empty value || text_eq value (codes "unknown")

  abbrev pub lower_header : Text → Dict Text → Text
  lower_header name fields = to_lower (get_req_header name fields)

  -- The first of the four fields that says something, else what the last one says.
  abbrev pub address_header : Dict Text → Text
  address_header fields =
      if not (is_unknown (lower_header (codes "X-Real-IP") fields))
      then lower_header (codes "X-Real-IP") fields
      else if not (is_unknown (lower_header (codes "X-Forwarded-For") fields))
      then lower_header (codes "X-Forwarded-For") fields
      else if not (is_unknown (lower_header (codes "Proxy-Client-IP") fields))
      then lower_header (codes "Proxy-Client-IP") fields
      else lower_header (codes "WL-Proxy-Client-IP") fields

  abbrev pub first_known : List Text → Text → Text
  first_known [] client_ip = client_ip
  first_known (x ∷ rest) client_ip =
      if not (is_empty x) && not (text_eq x (codes "unknown"))
      then x
      else first_known rest client_ip

  pub get_client_ip : Bool → Text → Dict Text → Text
  unfolding get_req_header text_eq
  get_client_ip try_from_header client_ip fields =
      if try_from_header && not (is_empty (address_header fields))
      then first_known (split (address_header fields)) client_ip
      else client_ip
