-- ===== src/Http.antt =====
-- hikyuu/httpd/HttpServer.cpp, class `Connection`: requests in, responses out. Beast parses and
-- prints: a request and a response are its values, without the framing that `prepare_payload` adds.
pub mod Headers
pub mod Serve
pub mod Handle
use hku_rest.Prelude.{
  ℕ, ◌+◌, Bool, true, false, not, ◌&&◌, Option, none, some, List, [], ◌∷◌, ◌++◌, if◌then◌else◌,
  is_empty,
}
use hku_rest.Prelude.Text.{Text, codes}
use hku_rest.Prelude.Dict.{Dict, find, put}

-- Field names stand in one spelling, since Beast compares them without case.
pub record Request : Type 0 where
  pub method : Text
  pub target : Text
  pub headers : Dict Text
  pub body : Text
  -- what `keep_alive()` answers
  pub keep_alive : Bool

pub record Response : Type 0 where
  pub status : ℕ
  pub headers : Dict Text
  pub body : Text

pub record CorsConfig : Type 0 where
  pub enabled : Bool
  pub allow_origin : Text
  pub allow_methods : Text
  pub allow_headers : Text
  pub expose_headers : Text
  pub max_age : Text
  pub allow_credentials : Bool

abbrev pub set_header : Text → Text → Response → Response
set_header name value res = record res { headers = put name value res.headers }

abbrev pub set_header_if : Bool → Text → Text → Response → Response
set_header_if b name value res = if b then set_header name value res else res

abbrev pub cors_headers : CorsConfig → Response → Response
cors_headers c res =
    set_header_if c.allow_credentials (codes "Access-Control-Allow-Credentials") (codes "true") (
      set_header_if (not (is_empty c.max_age)) (codes "Access-Control-Max-Age") c.max_age (
        set_header_if (not (is_empty c.expose_headers)) (codes "Access-Control-Expose-Headers")
          c.expose_headers
          (set_header_if (not (is_empty c.allow_headers)) (codes "Access-Control-Allow-Headers")
            c.allow_headers
            (set_header_if (not (is_empty c.allow_methods)) (codes "Access-Control-Allow-Methods")
              c.allow_methods
              (set_header (codes "Access-Control-Allow-Origin") c.allow_origin res)))))

pub set_cors_headers : CorsConfig → Response → Response
set_cors_headers c res = if c.enabled then cors_headers c res else res

abbrev pub content_policy : Text
content_policy =
    codes
      "default-src 'self'; script-src 'self'; style-src 'self' 'unsafe-inline'; img-src 'self' data:;"

abbrev pub security_headers : Response → Response
security_headers res =
    set_header (codes "Cache-Control") (codes "no-store, no-cache, must-revalidate, max-age=0") (
      set_header (codes "Content-Security-Policy") content_policy (
        set_header (codes "Referrer-Policy") (codes "no-referrer-when-downgrade") (
          set_header (codes "X-XSS-Protection") (codes "1; mode=block") (
            set_header (codes "X-Frame-Options") (codes "DENY")
              (set_header (codes "X-Content-Type-Options") (codes "nosniff") res)))))

pub set_response_headers : CorsConfig → Bool → Response → Response
unfolding set_cors_headers
set_response_headers c is_https res = set_cors_headers c (
    set_header_if is_https (codes "Strict-Transport-Security")
      (codes "max-age=31536000; includeSubDomains") (security_headers res))
