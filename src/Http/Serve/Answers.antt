-- ===== src/Http/Serve/Answers.antt =====
-- Each request of a connection of hikyuu/httpd/HttpServer.cpp gets its one response, and the
-- responses carry the security headers.
use hku_rest.Prelude.{
  ℕ, ◌+◌, ◌≤◌, ◌≡◌, refl, ap, ◌∙◌, Bool, true, false, not, ◌&&◌, ◌||◌, Bool-cases, Option-cases,
  inl, inr, some, List, [], ◌∷◌, ◌++◌, ltb, leb, arith,
}
use hku_rest.Prelude.Text.{Text, codes, text_eq}
use hku_rest.Router.{find_handler}
use hku_rest.Http.{Request, Response, set_response_headers}
use hku_rest.Http.Headers.{IsSecured, set_response_headers-IsSecured}
use hku_rest.Http.Serve.{
  Handler, Handled, Server, Connection, Arrival, whole, max_keepalive_requests, max_connection_age,
  Processed, chunks_of, process_handle, finish_handler, blank, write_response, keep_or_close,
  after_handle, too_many_requests, only_http1, is_fast, is_websocket, serve, turn,
}

-- A handler that leaves the sending to the server.
abbrev pub IsPlain : Handler → Type 0
IsPlain h =
    (req : Request) (res : Response) → ((h req res).sent ≡ false) × ((h req res).chunks ≡ [])

-- A handler that keeps the headers that were set before it ran.
abbrev pub KeepsHeaders : Handler → Type 0
KeepsHeaders h =
    (is_https : Bool) (req : Request) (res : Response)
    → IsSecured is_https res
    → IsSecured is_https (h req res).response

finish-IsPlain :
    (s : Server) (h : Handled)
    → (h.sent ≡ false) × (h.chunks ≡ [])
    → ((finish_handler s h).sent ≡ false) × ((finish_handler s h).chunks ≡ [])
finish-IsPlain s h k = elim (Bool-cases h.threw) [ inl t ↦ rw t k | inr f ↦ rw f k ]

process-IsPlain :
    (s : Server) (req : Request)
    → ((h : Handler) → find_handler req.method req.target s.router ≡ some h → IsPlain h)
    → ((process_handle s req).sent ≡ false) × ((process_handle s req).chunks ≡ [])
unfolding process_handle
process-IsPlain s req p =
    elim (Bool-cases (text_eq req.method (codes "OPTIONS") && s.cors.enabled)) [
      | inl t ↦ rw t (refl, refl)
      | inr f ↦ elim (Option-cases (find_handler req.method req.target s.router)) [
        | inl e ↦ rw (f, e) (refl, refl)
        | inr (h, e) ↦
            rw (f, e)
              (finish-IsPlain s (h req (set_response_headers s.cors s.is_https blank))
                (p h e req (set_response_headers s.cors s.is_https blank)))
      ]
    ]

-- Whatever `processHandle` prepares carries the security headers: the answer to a preflight, to an
-- unknown path, the handler's response, if that keeps them, and the one that replaces it when the
-- handler throws.
pub process_handle-IsSecured :
    (s : Server) (req : Request)
    → ((h : Handler) → find_handler req.method req.target s.router ≡ some h → KeepsHeaders h)
    → IsSecured s.is_https (process_handle s req).response
unfolding process_handle
process_handle-IsSecured s req p =
    elim (Bool-cases (text_eq req.method (codes "OPTIONS") && s.cors.enabled)) [
      | inl t ↦ rw t (set_response_headers-IsSecured s.cors s.is_https _)
      | inr f ↦ elim (Option-cases (find_handler req.method req.target s.router)) [
        | inl e ↦ rw (f, e) (set_response_headers-IsSecured s.cors s.is_https _)
        | inr (h, e) ↦
            rw (f, e)
              (finish-IsSecured (h req (set_response_headers s.cors s.is_https blank)) (
                p h e s.is_https req (set_response_headers s.cors s.is_https blank)
                  (set_response_headers-IsSecured s.cors s.is_https blank)))
      ]
    ]
  where
    finish-IsSecured :
        (h : Handled)
        → IsSecured s.is_https h.response
        → IsSecured s.is_https (finish_handler s h).response
    finish-IsSecured h k = elim (Bool-cases h.threw) [
      | inl t ↦ rw t (set_response_headers-IsSecured s.cors s.is_https _)
      | inr f ↦ rw f k
    ]

append_nil {ℓ} : {A : Type ℓ} (xs : List A) → xs ++ [] ≡ xs
append_nil [] = refl
append_nil (x ∷ xs) = ap (λ r. x ∷ r) (append_nil xs)

-- One more response on the connection, which may go on sending.
abbrev pub Answers : Connection → Connection → Type 0
Answers c c' =
    (res : Response) × ((c'.output ≡ c.output ++ whole res ∷ []) × (c'.response_sent ≡ false))

write-Answers :
    (res : Response) (c c' : Connection)
    → c'.output ≡ c.output
    → c'.response_sent ≡ false
    → Answers c (write_response true res c')
unfolding write_response
write-Answers res c c' e h = rw h (res, (ap (λ o. o ++ whole res ∷ []) e, refl))

keep_or_close-Answers :
    (req : Request) (c c' : Connection) → Answers c c' → Answers c (keep_or_close req c')
keep_or_close-Answers req c c' a = elim (Bool-cases c'.closed) [
  | inl t ↦ rw t a
  | inr f ↦
      elim (Bool-cases (leb max_keepalive_requests (c'.request_count + 1) || not req.keep_alive)) [
        | inl t ↦ rw (f, t) a
        | inr u ↦ rw (f, u) a
      ]
]

after_handle-Answers :
    (req : Request) (p : Processed) (c : Connection)
    → (p.sent ≡ false) × (p.chunks ≡ [])
    → c.response_sent ≡ false
    → Answers c (after_handle req true p c)
after_handle-Answers req p c h k =
    let c' : Connection = record c {
      response_sent = c.response_sent || p.sent;
      output = c.output ++ chunks_of p.chunks;
    } in
    keep_or_close-Answers req c (write_response true p.response c') (
      write-Answers p.response c c' (ap (λ x. c.output ++ chunks_of x) h.1 ∙ append_nil c.output)
        (ground (arith, h.0)))

le→ltb_false : (a b : ℕ) → b ≤ a → ltb a b ≡ false
le→ltb_false a b h = ground arith

module _ (iequals : Text → Text → Bool) (s : Server) where
  serve-Answers :
      (allowed : Bool) (req : Request) (c : Connection)
      → is_websocket iequals s req ≡ false
      → ((process_handle s req).sent ≡ false) × ((process_handle s req).chunks ≡ [])
      → c.response_sent ≡ false
      → Answers c (serve iequals s allowed true req c)
  unfolding serve
  serve-Answers allowed req c g p k =
      elim (Bool-cases (not (is_fast iequals s req) && text_eq req.method (codes "PRI"))) [
        | inl t ↦ rw t (write-Answers only_http1 c c refl k)
        | inr f ↦ elim (Bool-cases (s.rate_limit_enabled && not allowed)) [
          | inl t ↦ rw (f, g, t) (write-Answers too_many_requests c c refl k)
          | inr u ↦ rw (f, g, u) (after_handle-Answers req (process_handle s req) c p k)
        ]
      ]

  -- On an open connection that is not too old and on which no response was sent by hand, a request
  -- that is no WebSocket upgrade and whose handler leaves the sending to the server gets exactly one
  -- response, if the write succeeds, and the connection stays one on which no response was sent by
  -- hand.
  pub turn-Answers :
      (a : Arrival) (req : Request) (c : Connection)
      → c.closed ≡ false
      → c.response_sent ≡ false
      → a.age ≤ max_connection_age
      → a.request ≡ some req
      → a.writable ≡ true
      → is_websocket iequals s req ≡ false
      → ((h : Handler) → find_handler req.method req.target s.router ≡ some h → IsPlain h)
      → Answers c (turn iequals s a c)
  unfolding turn
  turn-Answers a req c o k young e w g p =
      rw (le→ltb_false max_connection_age a.age young, e, w, o)
        (serve-Answers a.allowed req (record c { closed = false }) g (process-IsPlain s req p) k)
