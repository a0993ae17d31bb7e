-- ===== src/Mcp/Gate.antt =====
-- No method of the MCP service runs without a session: hikyuu/mcp/McpHandle.cpp.
use hku_rest.Prelude.{
  ℕ, ◌≡◌, refl, Bool, true, false, ◌&&◌, Bool-cases, Option-cases, inl, inr, none, some, is_empty,
}
use hku_rest.Prelude.Text.{Text, codes, text_eq}
use hku_rest.Sessions.{get_session}
use hku_rest.Mcp.{
  JsonOps, McpCode, parse_error, invalid_request, version_mismatch, unauthorized, Mcp, Ask,
  has_part, refused, admit, Dispatch, send_error, run, member, internal_error,
}

module _ {J : Type 0} where
  admit_refuses :
      (method : Text) (ask : Ask) (m : Mcp J)
      → text_eq method (codes "initialize") ≡ false
      → get_session ask.session_id ask.now m.sessions ≡ none
      → (code : McpCode) × (admit method ask m ≡ refused code m)
  unfolding admit
  admit_refuses method ask m n e = elim (Bool-cases (is_empty ask.session_id)) [
    | inl t ↦ (version_mismatch, rw (n, t) refl)
    | inr f ↦ (unauthorized, rw (n, f, e) refl)
  ]

module _ {J : Type 0} (ops : JsonOps J) (head : Text) (hex : ℕ → Text) (dump_result : J → J → Text)
    (dump_error : McpCode → J → Text) where
  -- The whole effect is one error reply, whatever the methods would do.
  abbrev pub IsRefused : Ask → Mcp J → Type 0
  IsRefused ask m =
      (code : McpCode) × (id : J) × (((dispatch : Dispatch J)
          → run ops head hex dump_result dump_error dispatch ask m
            ≡ send_error ops head hex dump_result dump_error code id
                (has_part ask.accept (codes "text/event-stream")) m)
        × ((send_error ops head hex dump_result dump_error code id
              (has_part ask.accept (codes "text/event-stream")) m).sessions
            ≡ m.sessions))

  send_error-sessions :
      (code : McpCode) (id : J) (use_sse : Bool) (m : Mcp J)
      → (send_error ops head hex dump_result dump_error code id use_sse m).sessions ≡ m.sessions
  unfolding send_error
  send_error-sessions code id true m = elim (Bool-cases (is_empty m.body)) [
    | inl t ↦ rw t refl
    | inr f ↦ rw f refl
  ]
  send_error-sessions code id false m = refl

  refusal :
      (ask : Ask) (m : Mcp J) (code : McpCode) (id : J)
      → ((dispatch : Dispatch J)
          → run ops head hex dump_result dump_error dispatch ask m
            ≡ send_error ops head hex dump_result dump_error code id
                (has_part ask.accept (codes "text/event-stream"))
                m)
      → IsRefused ask m
  refusal ask m code id e = (
    code,
    id,
    (e, send_error-sessions code id (has_part ask.accept (codes "text/event-stream")) m),
  )

  -- Every request gets one error reply, with no method of the service run and the sessions as they were,
  -- unless its body is JSON with the version 2.0 and a text as its method, and that method is
  -- `initialize` or the session that the request names is alive.
  pub run-IsRefused :
      (ask : Ask) (m : Mcp J)
      → ((request : J) (method : Text)
          → is_empty ask.req_data ≡ false
          → ops.parse ask.req_data ≡ some request
          → (ops.contains (codes "jsonrpc") request
              && ops.is_text (codes "2.0") (ops.get (codes "jsonrpc") request))
            ≡ true
          → ops.text_value (codes "method") request ≡ some method
          → (text_eq method (codes "initialize") ≡ false)
            × (get_session ask.session_id ask.now m.sessions ≡ none))
      → IsRefused ask m
  unfolding run
  run-IsRefused ask m wrong = elim (Bool-cases (is_empty ask.req_data)) [
    | inl t ↦ refusal ask m parse_error ops.null (λ d. rw t refl)
    | inr f ↦ elim (Option-cases (ops.parse ask.req_data)) [
      | inl e ↦ refusal ask m parse_error ops.null (λ d. rw (f, e) refl)
      | inr (request, e) ↦
          elim (Bool-cases (
            ops.contains (codes "jsonrpc") request
            && ops.is_text (codes "2.0") (ops.get (codes "jsonrpc") request))) [
              | inr g ↦
                  refusal ask m invalid_request (member ops (codes "id") request)
                    (λ d. rw (f, e, g) refl)
              | inl g ↦ elim (Option-cases (ops.text_value (codes "method") request)) [
                | inl n ↦ refusal ask m internal_error ops.null (λ d. rw (f, e, g, n) refl)
                | inr (method, k) ↦
                    let (other, dead) = wrong request method f e g k in
                    let (code, r) = admit_refuses method ask m other dead in
                    refusal ask m code (member ops (codes "id") request)
                      (λ d. rw (f, e, g, k, r) refl)
              ]
            ]
    ]
  ]
