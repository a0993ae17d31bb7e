-- ===== src/Mcp/Service.antt =====
-- hikyuu/mcp/McpService.cpp: `dispatchMethod` and the methods that every service has.
pub mod Metadata
pub mod Unregister
pub mod Tools
pub mod Examples
use hku_rest.Prelude.{
  ℕ, ◌/◌, ◌^◌, Bool, true, false, Option, none, some, List, [], ◌∷◌, ◌++◌, ◌≡◌, if◌then◌else◌,
  is_empty,
}
use hku_rest.Prelude.Text.{Text, codes, text_eq}
use hku_rest.Prelude.Dict.{Dict, find}
use hku_rest.Sessions.{
  SessionData, SessionManager, get_session, touch_session, unregister_session, set_session_metadata,
}
use hku_rest.Sessions.Live.{IsDistinct}
use hku_rest.Mcp.{
  Mcp, McpCode, invalid_params, invalid_request, internal_error, method_not_found, tool_not_found,
  tool_execution_error, resource_not_found, prompt_not_found, method_code, Dispatch,
}
use hku_rest.Mcp.Json.{JsonView, Shape, object, array, string, members, member, as_string}
use hku_rest.Mcp.Catalog.{Answer, result, failed, threw, Method, Service}

-- The values that the service makes. An object that was made gives its members back, and an
-- array its items.
pub record JsonMaker (J : Type 0) (v : JsonView J) : Type 0 where
  pub object_value : Dict J → J
  pub text_value : Text → J
  pub number_value : ℕ → J
  pub boolean_value : Bool → J
  pub array_value : List J → J
  pub null : J
  pub member_made : (k : Text) (d : Dict J) → IsDistinct d → member v k (object_value d) ≡ find k d
  pub array_made : (items : List J) → v.view (array_value items) ≡ array items

module _ {J : Type 0} (v : JsonView J) (make : JsonMaker J v) where
  abbrev pub or_else : Option J → J → J
  or_else none fallback = fallback
  or_else (some x) fallback = x

  -- `params.value(key, fallback)`, which throws, here none, if `params` is no object.
  abbrev pub value_in : Shape J → Text → J → Option J
  value_in (object d) key fallback = some (or_else (find key d) fallback)
  value_in _ key fallback = none

  abbrev pub text_or_empty : Option J → Option Text
  text_or_empty none = some []
  text_or_empty (some x) = as_string (v.view x)

  -- `params.value(key, "")`, which throws also if the member is no text.
  abbrev pub text_in : Shape J → Text → Option Text
  text_in (object d) key = text_or_empty (find key d)
  text_in _ key = none

  abbrev pub with_sessions : SessionManager J → Mcp J → Mcp J
  with_sessions sessions m = record m { sessions = sessions }

  abbrev pub server_capabilities : J
  server_capabilities = make.object_value (
      (codes "tools", make.object_value ((codes "listChanged", make.boolean_value false) ∷ []))
      ∷ (
        codes "resources",
        make.object_value (
            (codes "subscribe", make.boolean_value false)
            ∷ (codes "listChanged", make.boolean_value false)
            ∷ []),
      )
      ∷ (codes "prompts", make.object_value ((codes "listChanged", make.boolean_value false) ∷ []))
      ∷ (codes "session", make.object_value ((codes "supported", make.boolean_value true) ∷ []))
      ∷ [])

  abbrev pub initialize_result : J
  initialize_result = make.object_value (
      (codes "protocolVersion", make.text_value (codes "2024-11-05"))
      ∷ (codes "capabilities", server_capabilities)
      ∷ (
        codes "serverInfo",
        make.object_value (
            (codes "name", make.text_value (codes "hku_rest MCP Server"))
            ∷ (codes "version", make.text_value (codes "1.0.0"))
            ∷ []),
      )
      ∷ [])

  module _ (now : ℕ) where
    abbrev pub client_stored : Option J → Text → Mcp J → Mcp J
    client_stored none session_id m = m
    client_stored (some info) session_id m =
        with_sessions (set_session_metadata session_id (codes "client_info") info now m.sessions).1
          m

    pub default_initialize_method : Method J
    unfolding find
    default_initialize_method params session_id m = (
      result initialize_result,
      client_stored (member v (codes "clientInfo") params) session_id m,
    )

    pub ping_method : Text → Mcp J → J × Mcp J
    unfolding touch_session
    ping_method session_id m = (
      make.object_value [],
      if is_empty session_id
          then m
          else with_sessions (touch_session session_id now m.sessions).1 m,
    )

    abbrev pub seconds : ℕ → ℕ
    seconds t = t / 10 ^ 9

    abbrev pub session_info : SessionData J → J
    session_info s = make.object_value (
        (codes "session_id", make.text_value s.session_id)
        ∷ (codes "client_info", make.text_value s.client_info)
        ∷ (codes "created_at", make.number_value (seconds s.created_at))
        ∷ (codes "last_active", make.number_value (seconds s.last_active))
        ∷ (codes "metadata", make.object_value s.metadata)
        ∷ [])

    abbrev pub info_of : Option (SessionData J) → Answer J
    info_of none = failed invalid_request
    info_of (some s) = result (session_info s)

    pub session_info_method : Text → Mcp J → Answer J
    unfolding get_session
    session_info_method session_id m = info_of (get_session session_id now m.sessions)

    abbrev pub success : Text → J
    success message = make.object_value (
        (codes "status", make.text_value (codes "success"))
        ∷ (codes "message", make.text_value message)
        ∷ [])

    abbrev pub metadata_set : Text → Bool × SessionManager J → Mcp J → Answer J × Mcp J
    metadata_set key r m =
        if r.0
        then (
          result (success (codes "Metadata '" ++ (key ++ codes "' updated"))),
          with_sessions r.1 m,
        )
        else (failed invalid_request, with_sessions r.1 m)

    abbrev pub set_metadata : Option J → Text → Text → Mcp J → Answer J × Mcp J
    set_metadata none key session_id m = (threw, m)
    set_metadata (some value) key session_id m =
        metadata_set key (set_session_metadata session_id key value now m.sessions) m

    abbrev pub metadata_under : Option Text → J → Text → Mcp J → Answer J × Mcp J
    metadata_under none params session_id m = (threw, m)
    metadata_under (some key) params session_id m =
        if is_empty key
        then (failed invalid_params, m)
        else set_metadata (value_in (v.view params) (codes "value") make.null) key session_id m

    pub session_metadata_method : J → Text → Mcp J → Answer J × Mcp J
    unfolding find
    session_metadata_method params session_id m =
        metadata_under (text_in (v.view params) (codes "key")) params session_id m

    abbrev pub unregistered : Bool × SessionManager J → Mcp J → Answer J × Mcp J
    unregistered r m =
        if r.0
        then (result (success (codes "Session unregistered successfully")), with_sessions r.1 m)
        else (failed invalid_request, with_sessions r.1 m)

    pub unregister_session_method : Text → Mcp J → Answer J × Mcp J
    unregister_session_method session_id m =
        unregistered (unregister_session session_id m.sessions) m

    -- Of a tool that does not succeed, no code gets through.
    abbrev pub tool_answer : Answer J × Mcp J → Answer J × Mcp J
    tool_answer (result x, m) = (result x, m)
    tool_answer (failed code, m) = (failed tool_execution_error, m)
    tool_answer (threw, m) = (failed tool_execution_error, m)

    abbrev pub call_tool : Option (Method J) → J → Text → Mcp J → Answer J × Mcp J
    call_tool none arguments session_id m = (failed tool_not_found, m)
    call_tool (some method) arguments session_id m = tool_answer (method arguments session_id m)

    abbrev pub call_named : Option Text → Option J → Service J → Text → Mcp J → Answer J × Mcp J
    call_named (some tool_name) (some arguments) s session_id m =
        call_tool (find tool_name s.tools) arguments session_id m
    call_named _ _ s session_id m = (failed tool_execution_error, m)

    pub tools_call_method : Service J → J → Text → Mcp J → Answer J × Mcp J
    unfolding find
    tools_call_method s params session_id m =
        call_named (text_in (v.view params) (codes "name"))
          (value_in (v.view params) (codes "arguments") (make.object_value [])) s session_id m

    abbrev pub listing : Text → List J → Answer J
    listing key entries = result (make.object_value ((key, make.array_value entries) ∷ []))

    abbrev pub read_with : McpCode → Option (Method J) → J → Text → Mcp J → Answer J × Mcp J
    read_with code none params session_id m = (failed code, m)
    read_with code (some method) params session_id m = method params session_id m

    pub run_method : Service J → Text → J → Text → Mcp J → Answer J × Mcp J
    unfolding ping_method session_info_method session_metadata_method unregister_session_method
        tools_call_method text_eq
    run_method s method params session_id m =
        if text_eq method (codes "initialize")
        then s.initialize_method params session_id m
        else if text_eq method (codes "ping")
        then (result (ping_method session_id m).0, (ping_method session_id m).1)
        else if text_eq method (codes "tools/list")
        then (listing (codes "tools") s.tool_descriptions, m)
        else if text_eq method (codes "tools/call")
        then tools_call_method s params session_id m
        else if text_eq method (codes "resources/list")
        then (listing (codes "resources") s.resource_descriptions, m)
        else if text_eq method (codes "resources/read")
        then read_with resource_not_found s.resource_read_method params session_id m
        else if text_eq method (codes "prompts/list")
        then (listing (codes "prompts") s.prompt_descriptions, m)
        else if text_eq method (codes "prompts/get")
        then read_with prompt_not_found s.prompt_read_method params session_id m
        else if text_eq method (codes "session/info")
        then (session_info_method session_id m, m)
        else if text_eq method (codes "session/set_metadata")
        then session_metadata_method params session_id m
        else if text_eq method (codes "session/unregister")
        then unregister_session_method session_id m
        else (failed method_not_found, m)

    -- The result, or the code that stands for it: an exception is an internal error.
    abbrev pub caught : Answer J × Mcp J → (Option J × McpCode) × Mcp J
    caught (result x, m) = ((some x, method_code 0), m)
    caught (failed code, m) = ((none, code), m)
    caught (threw, m) = ((none, internal_error), m)

    pub dispatch_method : Service J → Dispatch J
    unfolding run_method
    dispatch_method s method params session_id m = caught (run_method s method params session_id m)
