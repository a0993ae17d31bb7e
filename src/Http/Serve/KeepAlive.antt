-- ===== src/Http/Serve/KeepAlive.antt =====
-- The limit on the responses of one connection of hikyuu/httpd/HttpServer.cpp.
use hku_rest.Prelude.{
  ℕ, ◌+◌, ◌≤◌, ◌<◌, ◌≡◌, ◌⊎◌, refl, Bool, true, false, not, ◌&&◌, ◌||◌, Bool-cases, Option-cases,
  inl, inr, List, [], ◌∷◌, ◌++◌, ltb, leb, arith, ◌∙◌, if_either, All, count_if-append,
}
use hku_rest.Prelude.Text.{Text, codes, text_eq}
use hku_rest.Http.{Request, Response}
use hku_rest.Http.Serve.Silence.{responses, is_whole, no_whole}
use hku_rest.Http.Serve.{
  whole, Server, Connection, Arrival, new_connection, max_keepalive_requests, max_connection_age,
  Processed, chunks_of, process_handle, write_response, keep_or_close, after_handle, only_http1,
  is_fast, is_websocket, serve, turn, read_loop,
}

-- At most as many responses as the limit; an open connection has counted a request for each, and is
-- below the limit.
abbrev IsBelow : Connection → Type 0
IsBelow c =
    (responses c ≤ max_keepalive_requests)
    × (c.closed ≡ false → responses c ≤ c.request_count)
    × (c.closed ≡ false → c.request_count < max_keepalive_requests)

-- At most as many responses as the limit, and closed or with fewer.
abbrev pub IsWithin : Connection → Type 0
IsWithin c =
    (responses c ≤ max_keepalive_requests)
    × ((c.closed ≡ true) ⊎ (responses c < max_keepalive_requests))

below_or_closed : (c : Connection) → IsBelow c → IsWithin c
below_or_closed c (n, k, l) =
    (n, elim (Bool-cases c.closed) [ inl t ↦ inl t | inr f ↦ inr (omega (arith, k f, l f)) ])

-- What a write adds.
write_response-adds :
    (w : Bool) (res : Response) (c : Connection)
    → (responses (write_response w res c) ≤ responses c + 1)
      × ((write_response w res c).request_count ≡ c.request_count)
unfolding write_response
write_response-adds w res c = elim (Bool-cases c.response_sent) [
  | inl t ↦ rw t (omega arith, refl)
  | inr f ↦ elim (Bool-cases w) [
    | inl u ↦ rw (f, u) (omega (arith, count_if-append is_whole c.output (whole res ∷ [])), refl)
    | inr u ↦ rw (f, u) (omega arith, refl)
  ]
]

keep_or_close-IsBelow :
    (req : Request) (c : Connection)
    → responses c ≤ c.request_count + 1
    → c.request_count < max_keepalive_requests
    → IsBelow (keep_or_close req c)
keep_or_close-IsBelow req c n h =
    if_either IsBelow c.closed c _ (λ t. (omega arith, (λ e. absurd (cc)), (λ e. h)))
      (λ f.
        if_either IsBelow (leb max_keepalive_requests (c.request_count + 1) || not req.keep_alive) _
          _ (λ t. (omega arith, (λ e. absurd (cc)), (λ e. absurd (cc))))
          (λ u. (omega arith, (λ e. n), (λ e. below_limit (c.request_count + 1) req.keep_alive u))))
  where
    below_limit :
        (n : ℕ) (k : Bool)
        → (leb max_keepalive_requests n || not k) ≡ false
        → n < max_keepalive_requests
    below_limit n k e = ground arith

after_handle-IsBelow :
    (req : Request) (w : Bool) (p : Processed) (c : Connection)
    → responses c ≤ c.request_count
    → c.request_count < max_keepalive_requests
    → IsBelow (after_handle req w p c)
after_handle-IsBelow req w p c n h =
    let c' : Connection = record c {
      response_sent = c.response_sent || p.sent;
      output = c.output ++ chunks_of p.chunks;
    } in
    let same : responses c' ≡ responses c =
      count_if-append is_whole c.output (chunks_of p.chunks) ∙ omega (arith, no_whole p.chunks) in
    let (more, count) = write_response-adds w p.response c' in
    keep_or_close-IsBelow req (write_response w p.response c') (omega (arith, more, count, same))
      (omega (arith, count))

module _ (iequals : Text → Text → Bool) (s : Server) where
  serve-IsBelow :
      (allowed w : Bool) (req : Request) (c : Connection)
      → (s.rate_limit_enabled && not allowed) ≡ false
      → responses c ≤ c.request_count
      → c.request_count < max_keepalive_requests
      → IsBelow (serve iequals s allowed w req c)
  unfolding serve
  serve-IsBelow allowed w req c u n h =
      let (more, count) = write_response-adds w only_http1 c in
      elim (Bool-cases (not (is_fast iequals s req) && text_eq req.method (codes "PRI"))) [
        | inl t ↦ rw t (omega (arith, more), (λ e. absurd (cc)), (λ e. absurd (cc)))
        | inr f ↦ elim (Bool-cases (is_websocket iequals s req)) [
          | inl t ↦ rw (f, t) (omega arith, (λ e. absurd (cc)), (λ e. absurd (cc)))
          | inr g ↦ rw (f, g, u) (after_handle-IsBelow req w (process_handle s req) c n h)
        ]
      ]

  -- The rate limiter lets the request through.
  abbrev pub IsLetIn : Arrival → Type 0
  IsLetIn a = (s.rate_limit_enabled && not a.allowed) ≡ false

  turn-IsBelow :
      (a : Arrival) (c : Connection) → IsLetIn a → IsBelow c → IsBelow (turn iequals s a c)
  unfolding turn
  turn-IsBelow a c u (n, k, l) = elim (Bool-cases c.closed) [
    | inl t ↦ rw t (n, (λ e. absurd (cc)), (λ e. absurd (cc)))
    | inr f ↦ elim (Bool-cases (ltb max_connection_age a.age)) [
      | inl t ↦ rw (f, t) (n, (λ e. absurd (cc)), (λ e. absurd (cc)))
      | inr g ↦ elim (Option-cases a.request) [
        | inl e ↦ rw (f, g, e) (n, (λ e. absurd (cc)), (λ e. absurd (cc)))
        | inr (req, e) ↦
            rw (f, g, e)
              (serve-IsBelow a.allowed a.writable req (record c { closed = false }) u (k f) (l f))
      ]
    ]
  ]

  read_loop-kept :
      (arrivals : List Arrival) (c : Connection)
      → All IsLetIn arrivals
      → IsBelow c
      → IsBelow (read_loop iequals s arrivals c)
  unfolding read_loop
  read_loop-kept [] c u h = h
  read_loop-kept (a ∷ rest) c u h =
      read_loop-kept rest (turn iequals s a c) u.1 (turn-IsBelow a c u.0 h)

  -- However many requests arrive on one connection, if the rate limiter lets each of them through,
  -- `writeResponse` writes at most 100000 responses on it, and once that many were written the
  -- connection is closed: that is the value of `MAX_KEEPALIVE_REQUESTS`. A refusal by the rate limiter
  -- is not counted.
  pub read_loop-IsWithin :
      (arrivals : List Arrival)
      → All IsLetIn arrivals
      → IsWithin (read_loop iequals s arrivals new_connection)
  read_loop-IsWithin arrivals u = below_or_closed (read_loop iequals s arrivals new_connection) (
      read_loop-kept arrivals new_connection u
        (omega arith, (λ e. omega arith), (λ e. omega arith)))
