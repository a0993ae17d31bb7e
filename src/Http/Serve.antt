-- ===== src/Http/Serve.antt =====
-- The loop of hikyuu/httpd/HttpServer.cpp over the requests of one connection: `processHandle`,
-- `writeResponse` and `Connection::readLoop` from the permit on. Timers are not modelled: a read
-- that one of them ends is a read that fails.
pub mod KeepAlive
pub mod Silence
pub mod Answers
pub mod Examples
use hku_rest.Prelude.{
  ℕ, ◌+◌, ◌*◌, ◌^◌, Bool, true, false, not, ◌&&◌, ◌||◌, Option, none, some, List, [], ◌∷◌, ◌++◌,
  ltb, leb, ◌==◌, if◌then◌else◌, is_empty, length,
}
use hku_rest.Prelude.Text.{Text, codes, text_eq}
use hku_rest.Prelude.Dict.{Dict, find, put}
use hku_rest.Router.{Routes, find_handler}
use hku_rest.Http.{Request, Response, CorsConfig, set_header, set_response_headers}

-- What a handler leaves behind: the response, as far as it filled it in, the chunks that it wrote
-- itself, whether it has sent the response itself, and whether it threw.
pub record Handled : Type 0 where
  pub response : Response
  pub chunks : List Text
  pub sent : Bool
  pub threw : Bool

abbrev pub Handler : Type 0
Handler = Request → Response → Handled

pub record Server : Type 0 where
  pub router : Routes Handler
  pub cors : CorsConfig
  pub is_https : Bool
  pub fast_path : Bool
  pub websocket_enabled : Bool
  pub rate_limit_enabled : Bool

-- What goes out on the connection.
pub data Output : Type 0 where
  whole : Response → Output
  chunk : Text → Output

-- `response_sent` belongs to the `BeastContext`, which all requests of the connection share.
pub record Connection : Type 0 where
  pub request_count : ℕ
  pub response_sent : Bool
  pub output : List Output
  pub closed : Bool

-- One turn's events: the age of the connection in nanoseconds, the request (none if the read fails),
-- the answer of `checkRateLimit`, and whether a write succeeds.
pub record Arrival : Type 0 where
  pub age : ℕ
  pub request : Option Request
  pub allowed : Bool
  pub writable : Bool

abbrev pub new_connection : Connection
new_connection = record { request_count = 0; response_sent = false; output = []; closed = false }

abbrev pub blank : Response
blank = record { status = 200; headers = []; body = [] }

abbrev pub max_connection_age : ℕ
max_connection_age = 5 * 60 * 10 ^ 9

abbrev pub max_keepalive_requests : ℕ
max_keepalive_requests = 100000

abbrev pub json_response : ℕ → Text → Response → Response
json_response status body res =
    set_header (codes "Content-Type") (codes "application/json")
      (record res { status = status; body = body })

abbrev pub chunks_of : List Text → List Output
chunks_of [] = []
chunks_of (c ∷ cs) = chunk c ∷ chunks_of cs

-- What `processHandle` leaves: the response, the chunks and the flag.
pub record Processed : Type 0 where
  pub response : Response
  pub chunks : List Text
  pub sent : Bool

abbrev pub answered_with : Response → Processed
answered_with res = record { response = res; chunks = []; sent = false }

abbrev pub internal_error : Text
internal_error = codes "{\"ret\":500,\"errmsg\":\"Internal Server Error\"}"

abbrev pub not_found : Text
not_found = codes "{\"ret\":404, \"errcode\":404, \"errmsg\":\"Not Found\"}"

module _ (s : Server) where
  abbrev pub with_headers : Response → Response
  with_headers res = set_response_headers s.cors s.is_https res

  -- The handler's own call, in its `try` block.
  abbrev pub finish_handler : Handled → Processed
  finish_handler h =
      if h.threw
      then (record {
        response = with_headers (json_response 500 internal_error h.response);
        chunks = h.chunks;
        sent = h.sent;
      })
      else record { response = h.response; chunks = h.chunks; sent = h.sent }

  abbrev pub call_handler : Option Handler → Request → Processed
  call_handler none req = answered_with (with_headers (json_response 404 not_found blank))
  call_handler (some handler) req = finish_handler (handler req (with_headers blank))

  pub process_handle : Request → Processed
  process_handle req =
      if text_eq req.method (codes "OPTIONS") && s.cors.enabled
      then answered_with (with_headers (record blank { status = 204 }))
      else call_handler (find_handler req.method req.target s.router) req

-- A response goes out unless it was sent; a failed write ends the connection.
pub write_response : Bool → Response → Connection → Connection
write_response writable res c =
    if c.response_sent
    then c
    else if writable
    then record c { output = c.output ++ whole res ∷ [] }
    else record c { closed = true }

abbrev pub close : Connection → Connection
close c = record c { closed = true }

-- After the response: the count, its limit, and the client's wish.
abbrev pub keep_or_close : Request → Connection → Connection
keep_or_close req c =
    let counted = record c { request_count = c.request_count + 1 } in
    if c.closed
    then c
    else if leb max_keepalive_requests (c.request_count + 1) || not req.keep_alive
    then close counted
    else counted

abbrev pub after_handle : Request → Bool → Processed → Connection → Connection
after_handle req writable p c = keep_or_close req (
    write_response writable p.response (record c {
      response_sent = c.response_sent || p.sent;
      output = c.output ++ chunks_of p.chunks;
    }))

abbrev pub too_many_requests : Response
too_many_requests =
    set_header (codes "Retry-After") (codes "1")
      (json_response 429 (codes "{\"error\": \"Rate limit exceeded\", \"code\": 429}") blank)

abbrev pub only_http1 : Response
only_http1 =
    set_header (codes "Content-Type") (codes "text/plain")
      (record blank { status = 400; body = codes "This server only supports HTTP/1.1" })

abbrev pub has_field : Text → Request → Bool
has_field name req = elim (find name req.headers) [ none ↦ false | some v ↦ true ]

-- `req[name]`, which is empty if the field is missing.
abbrev pub field : Text → Request → Text
field name req = elim (find name req.headers) [ none ↦ [] | some v ↦ v ]

-- `iequals` is Beast's comparison without case.
module _ (iequals : Text → Text → Bool) (s : Server) where
  abbrev pub is_fast : Request → Bool
  is_fast req =
      s.fast_path
      && (text_eq req.method (codes "GET") && (ltb (length req.target) 256 && is_empty req.body))

  pub is_websocket : Request → Bool
  is_websocket req =
      (not (is_fast req) || has_field (codes "Upgrade") req)
      && (s.websocket_enabled
          && (text_eq req.method (codes "GET")
              && (has_field (codes "Upgrade") req
                  && (iequals (field (codes "Upgrade") req) (codes "websocket")
                      && (has_field (codes "Connection") req
                          && (iequals (field (codes "Connection") req) (codes "Upgrade")
                              && (not (is_empty (field (codes "Sec-WebSocket-Key") req))
                                  && text_eq (field (codes "Sec-WebSocket-Version") req)
                                      (codes "13"))))))))

  -- From a request that was read to the end of the turn. A WebSocket takes the socket over.
  pub serve : Bool → Bool → Request → Connection → Connection
  unfolding write_response is_websocket process_handle
  serve allowed writable req c =
      if not (is_fast req) && text_eq req.method (codes "PRI")
      then close (write_response writable only_http1 c)
      else if is_websocket req
      then close c
      else if s.rate_limit_enabled && not allowed
      then write_response writable too_many_requests c
      else after_handle req writable (process_handle s req) c

  abbrev pub serve_read : Option Request → Bool → Bool → Connection → Connection
  serve_read none allowed writable c = close c
  serve_read (some req) allowed writable c = serve allowed writable req c

  pub turn : Arrival → Connection → Connection
  unfolding serve
  turn a c =
      if c.closed
      then c
      else if ltb max_connection_age a.age
      then close c
      else serve_read a.request a.allowed a.writable c

  pub read_loop : List Arrival → Connection → Connection
  unfolding turn
  read_loop [] c = c
  read_loop (a ∷ rest) c = read_loop rest (turn a c)
