-- ===== src/Http/Serve/Silence.antt =====
-- What a response that a handler sent itself does to the later requests of its connection, in
-- hikyuu/httpd/HttpServer.cpp.
use hku_rest.Prelude.{
  ℕ, ◌+◌, ◌≡◌, refl, sym, subst, ap, ◌∙◌, Bool, true, false, not, ◌&&◌, ◌||◌, Bool-cases,
  Option-cases, inl, inr, List, [], ◌∷◌, ◌++◌, ltb, leb, if◌then◌else◌, count_if, count_if-append,
  arith,
}
use hku_rest.Prelude.Text.{Text, codes, text_eq}
use hku_rest.Http.{Request, Response}
use hku_rest.Http.Serve.{
  Server, Connection, Arrival, Output, whole, chunk, max_keepalive_requests, max_connection_age,
  Processed, chunks_of, process_handle, write_response, keep_or_close, after_handle,
  too_many_requests, only_http1, is_fast, is_websocket, serve, turn, read_loop,
}

abbrev pub is_whole : Output → Bool
is_whole (whole r) = true
is_whole (chunk t) = false

-- How many responses `writeResponse` has written on the connection.
abbrev pub responses : Connection → ℕ
responses c = count_if is_whole c.output

-- Sent, and no more responses than a number.
abbrev IsSilent : ℕ → Connection → Type 0
IsSilent n c = (c.response_sent ≡ true) × (responses c ≡ n)

pub no_whole : (cs : List Text) → count_if is_whole (chunks_of cs) ≡ 0
no_whole [] = refl
no_whole (c ∷ cs) = omega (arith, no_whole cs)

write_response-sent :
    (w : Bool) (res : Response) (c : Connection)
    → c.response_sent ≡ true
    → write_response w res c ≡ c
unfolding write_response
write_response-sent w res c h =
    ap
      (λ b.
        if b
        then c
        else if w
        then record c { output = c.output ++ whole res ∷ [] }
        else record c { closed = true })
      h

keep_or_close-IsSilent :
    (n : ℕ) (req : Request) (c : Connection) → IsSilent n c → IsSilent n (keep_or_close req c)
keep_or_close-IsSilent n req c h = elim (Bool-cases c.closed) [
  | inl t ↦ rw t h
  | inr f ↦
      elim (Bool-cases (leb max_keepalive_requests (c.request_count + 1) || not req.keep_alive)) [
        | inl t ↦ rw (f, t) h
        | inr u ↦ rw (f, u) h
      ]
]

after_handle-IsSilent :
    (n : ℕ) (req : Request) (w : Bool) (p : Processed) (c : Connection)
    → IsSilent n c
    → IsSilent n (after_handle req w p c)
after_handle-IsSilent n req w p c h =
    let c' : Connection = record c {
      response_sent = c.response_sent || p.sent;
      output = c.output ++ chunks_of p.chunks;
    } in
    let sent : c'.response_sent ≡ true = ground (arith, h.0) in
    let same : responses c' ≡ n =
      count_if-append is_whole c.output (chunks_of p.chunks)
      ∙ omega (arith, h.1, no_whole p.chunks) in
    keep_or_close-IsSilent n req (write_response w p.response c')
      (subst (IsSilent n) (sym (write_response-sent w p.response c' sent)) (sent, same))

write_response-IsSilent :
    (n : ℕ) (w : Bool) (res : Response) (c : Connection)
    → IsSilent n c
    → IsSilent n (write_response w res c)
write_response-IsSilent n w res c h = subst (IsSilent n) (sym (write_response-sent w res c h.0)) h

module _ (iequals : Text → Text → Bool) (s : Server) where
  serve-IsSilent :
      (n : ℕ) (allowed w : Bool) (req : Request) (c : Connection)
      → IsSilent n c
      → IsSilent n (serve iequals s allowed w req c)
  unfolding serve
  serve-IsSilent n allowed w req c h =
      elim (Bool-cases (not (is_fast iequals s req) && text_eq req.method (codes "PRI"))) [
        | inl t ↦ rw t (write_response-IsSilent n w only_http1 c h)
        | inr f ↦ elim (Bool-cases (is_websocket iequals s req)) [
          | inl t ↦ rw (f, t) h
          | inr g ↦ elim (Bool-cases (s.rate_limit_enabled && not allowed)) [
            | inl t ↦ rw (f, g, t) (write_response-IsSilent n w too_many_requests c h)
            | inr u ↦ rw (f, g, u) (after_handle-IsSilent n req w (process_handle s req) c h)
          ]
        ]
      ]

  turn-IsSilent :
      (n : ℕ) (a : Arrival) (c : Connection) → IsSilent n c → IsSilent n (turn iequals s a c)
  unfolding turn
  turn-IsSilent n a c h = elim (Bool-cases c.closed) [
    | inl t ↦ rw t h
    | inr f ↦ elim (Bool-cases (ltb max_connection_age a.age)) [
      | inl t ↦ rw (f, t) h
      | inr g ↦ elim (Option-cases a.request) [
        | inl e ↦ rw (f, g, e) h
        | inr (req, e) ↦
            rw (f, g, e) (serve-IsSilent n a.allowed a.writable req (record c { closed = false }) h)
      ]
    ]
  ]

  read_loop-IsSilent :
      (n : ℕ) (arrivals : List Arrival) (c : Connection)
      → IsSilent n c
      → IsSilent n (read_loop iequals s arrivals c)
  unfolding read_loop
  read_loop-IsSilent n [] c h = h
  read_loop-IsSilent n (a ∷ rest) c h =
      read_loop-IsSilent n rest (turn iequals s a c) (turn-IsSilent n a c h)

  -- Once a handler has sent its response itself, `writeResponse` never writes on that connection
  -- again, whatever requests arrive: the flag is not reset between them.
  pub read_loop-responses :
      (arrivals : List Arrival) (c : Connection)
      → c.response_sent ≡ true
      → responses (read_loop iequals s arrivals c) ≡ responses c
  read_loop-responses arrivals c h = (read_loop-IsSilent (responses c) arrivals c (h, refl)).1
