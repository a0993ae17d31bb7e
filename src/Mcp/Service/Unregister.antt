-- ===== src/Mcp/Service/Unregister.antt =====
-- The end of a session, across hikyuu/mcp/McpService.cpp and McpHandle.cpp.
use hku_rest.Prelude.{ℕ, ◌≡◌, refl, false, Bool-cases, inl, inr, some}
use hku_rest.Prelude.Text.{Text, codes, text_eq}
use hku_rest.Sessions.{unregister_session}
use hku_rest.Sessions.Stored.{get_session-unregistered}
use hku_rest.Mcp.{JsonOps, McpCode, Mcp, Ask}
use hku_rest.Mcp.Gate.{IsRefused, run-IsRefused}
use hku_rest.Mcp.Json.{JsonView}
use hku_rest.Mcp.Catalog.{Service}
use hku_rest.Mcp.Service.{JsonMaker, dispatch_method, unregister_session_method}

module _ {J : Type 0} (v : JsonView J) (make : JsonMaker J v) where
  dispatch-unregister :
      (s : Service J) (now : ℕ) (params : J) (id : Text) (m : Mcp J)
      → (dispatch_method v make now s (codes "session/unregister") params id m).1.sessions
        ≡ (unregister_session id m.sessions).1
  unfolding dispatch_method unregister_session_method
  dispatch-unregister s now params id m = elim (Bool-cases ((unregister_session id m.sessions).0)) [
    | inl t ↦ rw t refl
    | inr f ↦ rw f refl
  ]

  -- After `session/unregister`, whatever it answered, a request with the same session id whose method
  -- is not `initialize` gets one error reply and runs no method.
  pub dispatch_method-IsRefused :
      (ops : JsonOps J) (head : Text) (hex : ℕ → Text) (dump_result : J → J → Text)
      (dump_error : McpCode → J → Text) (s : Service J) (now : ℕ) (params : J) (m : Mcp J)
      (ask : Ask)
      → ((request : J) (method : Text)
          → ops.parse ask.req_data ≡ some request
          → ops.text_value (codes "method") request ≡ some method
          → text_eq method (codes "initialize") ≡ false)
      → IsRefused ops head hex dump_result dump_error ask
          (dispatch_method v make now s (codes "session/unregister") params ask.session_id m).1
  dispatch_method-IsRefused ops head hex dump_result dump_error s now params m ask other =
      run-IsRefused ops head hex dump_result dump_error ask _ (λ request method n p g k. (
        other request method p k,
        rw (dispatch-unregister s now params ask.session_id m)
            (get_session-unregistered ask.session_id ask.now m.sessions),
      ))
