-- ===== src/Mcp/Reply.antt =====
-- How hikyuu/mcp/McpHandle.cpp delivers the result of a method.
use hku_rest.Prelude.{ℕ, ◌≡◌, refl, ap, true, false, ◌&&◌, Bool-cases, inl, inr, some, is_empty}
use hku_rest.Prelude.Text.{Text, codes, text_eq}
use hku_rest.Chunks.Guards.{write_chunk-disabled}
use hku_rest.Mcp.{
  JsonOps, McpCode, Mcp, Ask, has_part, admitted, admit, Dispatch, send_success, run, member, event,
}

module _ {J : Type 0} (ops : JsonOps J) (head : Text) (hex : ℕ → Text) (dump_result : J → J → Text)
    (dump_error : McpCode → J → Text) where
  -- Without the chunked transfer an event goes nowhere.
  send_success-lost :
      (result id : J) (m : Mcp J)
      → m.transfer.chunked_transfer ≡ false
      → send_success ops head hex dump_result dump_error result id true m ≡ m
  unfolding send_success
  send_success-lost result id m h = elim (Bool-cases (ops.is_null result)) [
    | inl t ↦ rw t refl
    | inr f ↦ rw f (
        ap (λ t. record m { transfer = t })
          (write_chunk-disabled head hex
            (event ops head hex dump_result dump_error (dump_result result id)) m.transfer h))
  ]

  -- A client that accepts event streams and calls a method other than `tools/call` gets no result:
  -- where the method succeeds and has not enabled the chunked transfer, everything stays as the
  -- method left it, the body of the response and the wire included.
  pub run_is_silent :
      (dispatch : Dispatch J) (ask : Ask) (m m1 m2 : Mcp J) (request result : J)
      (method session_id : Text) (code : McpCode)
      → has_part ask.accept (codes "text/event-stream") ≡ true
      → is_empty ask.req_data ≡ false
      → ops.parse ask.req_data ≡ some request
      → (ops.contains (codes "jsonrpc") request
          && ops.is_text (codes "2.0") (ops.get (codes "jsonrpc") request))
        ≡ true
      → ops.text_value (codes "method") request ≡ some method
      → text_eq method (codes "tools/call") ≡ false
      → text_eq method (codes "initialized") ≡ false
      → admit method ask m ≡ admitted session_id m1
      → dispatch method
          (member ops (codes "params") request)
          session_id
          (record m1 { session_header = some session_id })
        ≡ ((some result, code), m2)
      → m2.transfer.chunked_transfer ≡ false
      → run ops head hex dump_result dump_error dispatch ask m ≡ m2
  unfolding run
  run_is_silent dispatch ask m m1 m2 request result method session_id code sse full parsed version
        named other answered in_session done off =
      rw (sse, full, parsed, version, named, in_session, other, answered, done)
        (send_success-lost result (member ops (codes "id") request) m2 off)
