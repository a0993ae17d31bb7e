-- ===== src/Mcp.antt =====
-- hikyuu/mcp/McpHandle.cpp: a JSON-RPC request over HTTP, its session, its dispatch and its reply.
pub mod Json
pub mod Schema
pub mod Catalog
pub mod Service
pub mod Value
pub mod History
pub mod Gate
pub mod Reply
pub mod Examples
use hku_rest.Prelude.{
  ℕ, Bool, true, false, not, ◌&&◌, ◌||◌, Option, none, some, List, [], ◌∷◌, ◌++◌, if◌then◌else◌,
  is_empty,
}
use hku_rest.Prelude.Text.{Text, codes, text_eq, starts_with}
use hku_rest.Sessions.{SessionData, SessionManager, register_session, get_session, touch_session}
use hku_rest.Chunks.{Transfer, enable_chunked_transfer, write_chunk, finish_chunked_transfer}

-- The JSON library, as far as the handler uses it: `value(key, "")` throws, here none, if what stands
-- under the key is no text.
pub record JsonOps (J : Type 0) : Type 0 where
  pub parse : Text → Option J
  pub contains : Text → J → Bool
  pub get : Text → J → J
  pub is_text : Text → J → Bool
  pub text_value : Text → J → Option Text
  pub null : J
  pub is_null : J → Bool

-- The codes that `run` sends itself, and those of the methods.
pub data McpCode : Type 0 where
  parse_error invalid_request invalid_params internal_error version_mismatch unauthorized : McpCode
  method_not_found tool_not_found tool_execution_error resource_not_found prompt_not_found : McpCode
  method_code : ℕ → McpCode

-- What the handler works on: the sessions, the chunked transfer, the body of the response and its
-- field `Mcp-Session-Id`.
pub record Mcp (J : Type 0) : Type 0 where
  pub sessions : SessionManager J
  pub transfer : Transfer
  pub body : Text
  pub session_header : Option Text

-- A request: the fields `Accept` and `Mcp-Session-Id`, the body, the client's address, the id that
-- `generateSessionId` would give, and the time.
pub record Ask : Type 0 where
  pub accept : Text
  pub session_id : Text
  pub req_data : Text
  pub client_ip : Text
  pub generated_id : Text
  pub now : ℕ

-- `find(part) != npos`
pub has_part : Text → Text → Bool
unfolding starts_with
has_part [] part = is_empty part
has_part (c ∷ s) part = starts_with (c ∷ s) part || has_part s part

pub data Admission (J : Type 0) : Type 0 where
  refused : McpCode → Mcp J → Admission J
  admitted : Text → Mcp J → Admission J

module _ {J : Type 0} where
  abbrev pub touched : Ask → Mcp J → Mcp J
  touched ask m = record m { sessions = (touch_session ask.session_id ask.now m.sessions).1 }

  -- The session of a request that names one, and the code for one that is not valid.
  abbrev pub admit_known : McpCode → Ask → Option (SessionData J) → Mcp J → Admission J
  admit_known code ask none m = refused code m
  admit_known code ask (some s) m = admitted ask.session_id (touched ask m)

  abbrev pub admit_new : Ask → Bool × SessionManager J → Mcp J → Admission J
  admit_new ask r m =
      if r.0
      then admitted ask.generated_id
          (record m { sessions = r.1; session_header = some ask.generated_id })
      else refused internal_error (record m { sessions = r.1 })

  pub admit : Text → Ask → Mcp J → Admission J
  admit method ask m =
      if text_eq method (codes "initialize")
      then (if is_empty ask.session_id
          then admit_new ask (register_session ask.generated_id ask.client_ip ask.now m.sessions) m
          else admit_known invalid_params ask (get_session ask.session_id ask.now m.sessions) m)
      else if is_empty ask.session_id
      then refused version_mismatch m
      else admit_known unauthorized ask (get_session ask.session_id ask.now m.sessions) m

-- The results of `dispatchMethod`, which answers with a code where a method throws.
abbrev pub Dispatch : Type 0 → Type 0
Dispatch J = Text → J → Text → Mcp J → (Option J × McpCode) × Mcp J

-- A member of the request, null if it is missing.
abbrev pub member : {J : Type 0} → JsonOps J → Text → J → J
member ops key request = if ops.contains key request then ops.get key request else ops.null

-- The header and the numerals of the chunks (see Chunks), and the two replies as texts.
module _ {J : Type 0} (ops : JsonOps J) (head : Text) (hex : ℕ → Text) (dump_result : J → J → Text)
    (dump_error : McpCode → J → Text) where
  abbrev pub event : Text → Text
  event reply = codes "event: message" ++ (10 ∷ (codes "data: " ++ (reply ++ (10 ∷ 10 ∷ []))))

  abbrev pub write_event : Text → Mcp J → Mcp J
  write_event reply m = record m {
    transfer = (write_chunk head hex true true (event reply) m.transfer).1;
  }

  pub send_success : J → J → Bool → Mcp J → Mcp J
  send_success result id use_sse m =
      if ops.is_null result
      then m
      else if use_sse
      then write_event (dump_result result id) m
      else record m { body = dump_result result id }

  abbrev pub enabled : Mcp J → Mcp J
  enabled m = record m { transfer = enable_chunked_transfer m.transfer }

  pub send_error : McpCode → J → Bool → Mcp J → Mcp J
  send_error code id use_sse m =
      if use_sse
      then write_event (dump_error code id) (if is_empty m.body then enabled m else m)
      else record m { body = dump_error code id }

  abbrev pub send_reply : (Option J × McpCode) × Mcp J → J → Bool → Mcp J
  send_reply ((some result, code), m) id use_sse = send_success result id use_sse m
  send_reply ((none, code), m) id use_sse = send_error code id use_sse m

  module _ (dispatch : Dispatch J) where
    -- `initialized` is a notification.
    abbrev pub reply_to : Text → J → Text → J → Bool → Mcp J → Mcp J
    reply_to method params session_id id use_sse m =
        if text_eq method (codes "initialized")
        then m
        else send_reply (dispatch method params session_id m) id use_sse

    abbrev pub finished : Mcp J → Mcp J
    finished m = record m { transfer = (finish_chunked_transfer head hex true m.transfer).1 }

    -- The tool's name decides whether the response is streamed.
    abbrev pub reply_streamed : Option Text → Text → J → Text → J → Mcp J → Mcp J
    reply_streamed none method params session_id id m = send_error internal_error ops.null true m
    reply_streamed (some tool) method params session_id id m =
        if text_eq tool (codes "long_running_task")
        then finished (reply_to method params session_id id true (enabled m))
        else reply_to method params session_id id true m

    abbrev pub reply_admitted : Text → J → Text → J → Bool → Mcp J → Mcp J
    reply_admitted method params session_id id use_sse m =
        if use_sse && text_eq method (codes "tools/call")
        then reply_streamed (ops.text_value (codes "name") params) method params session_id id m
        else reply_to method params session_id id use_sse m

    abbrev pub reply : Text → J → J → Bool → Admission J → Mcp J
    reply method params id use_sse (refused code m) = send_error code id use_sse m
    reply method params id use_sse (admitted session_id m) =
        reply_admitted method params session_id id use_sse
          (record m { session_header = some session_id })

    abbrev pub run_method : Option Text → J → Ask → Bool → Mcp J → Mcp J
    run_method none request ask use_sse m = send_error internal_error ops.null use_sse m
    run_method (some method) request ask use_sse m =
        reply method (member ops (codes "params") request) (member ops (codes "id") request) use_sse
          (admit method ask m)

    abbrev pub run_request : Option J → Ask → Bool → Mcp J → Mcp J
    run_request none ask use_sse m = send_error parse_error ops.null use_sse m
    run_request (some request) ask use_sse m =
        if ops.contains (codes "jsonrpc") request
          && ops.is_text (codes "2.0") (ops.get (codes "jsonrpc") request)
        then run_method (ops.text_value (codes "method") request) request ask use_sse m
        else send_error invalid_request (member ops (codes "id") request) use_sse m

    pub run : Ask → Mcp J → Mcp J
    unfolding admit
    run ask m =
        let use_sse = has_part ask.accept (codes "text/event-stream") in
        if is_empty ask.req_data
        then send_error parse_error ops.null use_sse m
        else run_request (ops.parse ask.req_data) ask use_sse m
