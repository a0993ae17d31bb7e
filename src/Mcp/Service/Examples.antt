-- ===== src/Mcp/Service/Examples.antt =====
-- A service of hikyuu/mcp/McpService.cpp with one tool, and a session that uses it.
use hku_rest.Prelude.{
  ℕ, ◌≡◌, ◌↔◌, refl, sym, ap, ◌∙◌, Bool, true, false, Option, none, some, [], ◌∷◌, arith,
}
use hku_rest.Prelude.Text.{Text, codes, text_eq}
use hku_rest.Prelude.Dict.{find}
use hku_rest.Sessions.{new_session, get_session}
use hku_rest.Mcp.{JsonOps, McpCode, Mcp, Ask}
use hku_rest.Mcp.Gate.{IsRefused}
use hku_rest.Mcp.Json.{member, string_member, is_object, is_array}
use hku_rest.Mcp.Value.{
  Value, nothing, text, list_of, nil, record_of, fields, value_view, value_maker,
}
use hku_rest.Mcp.Catalog.{
  result, Method, Service, add_tool_descriptions, add_prompts, add_resources,
}
use hku_rest.Mcp.Catalog.Listed.{
  one_tool, tool_list, a_tool, register_all, IsListed, register_all-IsListed,
  add_tool_descriptions_throws,
}
use hku_rest.Mcp.Schema.Examples.{weather}
use hku_rest.Mcp.Service.{default_initialize_method, dispatch_method, tools_call_method}
use hku_rest.Mcp.Service.Metadata.{dispatch_method-metadata}
use hku_rest.Mcp.Service.Unregister.{dispatch_method-IsRefused}
use hku_rest.Mcp.Service.Tools.{Succeeds, tools_call_method-Succeeds}

abbrev params : Value
params = record_of (
    fields (
      (codes "key", text (codes "lang"))
      ∷ (codes "value", text (codes "en"))
      ∷ (codes "name", text (codes "echo"))
      ∷ []))

abbrev echo : Method Value
echo arguments session_id m = (result arguments, m)

abbrev service : Service Value
service = record {
  initialize_method = default_initialize_method value_view value_maker 0;
  tool_descriptions = [];
  tools = (codes "echo", echo) ∷ [];
  prompt_descriptions = [];
  prompt_read_method = none;
  resource_descriptions = [];
  resource_read_method = none;
}

abbrev state : Mcp Value
state = record {
  sessions = record {
    timeout_seconds = 60;
    max_sessions = 2;
    sessions = (codes "s1", new_session (codes "s1") [] 0) ∷ [];
  };
  transfer = record {
    chunked_transfer = false;
    headers_sent = false;
    response_sent = false;
    wire = [];
  };
  body = [];
  session_header = none;
}

-- Every body is a ping.
abbrev ping : Value
ping =
    record_of
      (fields ((codes "jsonrpc", text (codes "2.0")) ∷ (codes "method", text (codes "ping")) ∷ []))

abbrev or_nothing : Option Value → Value
or_nothing none = nothing
or_nothing (some x) = x

abbrev is_some : Option Value → Bool
is_some none = false
is_some (some x) = true

abbrev says : Text → Value → Bool
says t (text s) = text_eq t s
says t _ = false

abbrev ops : JsonOps Value
ops = record {
  parse = λ s. some ping;
  contains = λ key j. is_some (member value_view key j);
  get = λ key j. or_nothing (member value_view key j);
  is_text = says;
  text_value = λ key j. string_member value_view key j;
  null = nothing;
  is_null = λ j. false;
}

abbrev dump : Value → Value → Text
dump x id = codes "result"

abbrev dump_code : McpCode → Value → Text
dump_code code id = codes "error"

abbrev hex : ℕ → Text
hex n = codes "f"

abbrev ask : Ask
ask = record {
  accept = codes "application/json";
  session_id = codes "s1";
  req_data = codes "ping";
  client_ip = codes "10.0.0.1";
  generated_id = codes "s2";
  now = 1;
}

register_all-IsListed_example :
    IsListed value_view
      (λ b. b)
      (register_all value_view
        (λ b. b)
        (one_tool weather
          ∷ one_tool params
          ∷ tool_list (weather ∷ params ∷ [])
          ∷ a_tool (codes "echo") echo
          ∷ [])
        service)
register_all-IsListed_example =
    register_all-IsListed value_view (λ b. b)
      (one_tool weather
        ∷ one_tool params
        ∷ tool_list (weather ∷ params ∷ [])
        ∷ a_tool (codes "echo") echo
        ∷ [])
      service (tt, tt)

add_tool_descriptions_throws_case :
    (is_array (value_view.view (list_of nil)) ≡ true
      → (add_tool_descriptions value_view (λ b. b) (list_of nil) service ≡ (none, service))
        × (add_prompts value_view (λ b. b) (list_of nil) service ≡ (none, service)))
    × (is_object (value_view.view (list_of nil)) ≡ true
        → add_resources value_view (λ b. b) (list_of nil) service ≡ (false, service))
add_tool_descriptions_throws_case =
    add_tool_descriptions_throws value_view (λ b. b) refl (list_of nil) service

dispatch_method-metadata_example :
    ((answer : Value) × ((dispatch_method value_view value_maker 1 service
          (codes "session/set_metadata")
          params
          (codes "s1")
          state).0.0
        ≡ some answer)
      × (member value_view (codes "status") answer ≡ some (text (codes "success"))))
    × ((shown metadata : Value) × ((dispatch_method value_view value_maker 2 service
            (codes "session/info")
            nothing
            (codes "s1")
            (dispatch_method value_view value_maker 1 service
              (codes "session/set_metadata")
              params
              (codes "s1")
              state).1).0.0
          ≡ some shown)
        × (member value_view (codes "metadata") shown ≡ some metadata)
        × (member value_view (codes "lang") metadata ≡ some (text (codes "en"))))
dispatch_method-metadata_example =
    dispatch_method-metadata value_view value_maker service 1 2 params nothing (text (codes "lang"))
      (text (codes "en")) _ (codes "s1") (codes "lang") (new_session (codes "s1") [] 0) state refl
      (unfold find text_eq in refl) refl refl (unfold find text_eq in refl)
      (unfold get_session find text_eq in refl) tt (omega arith)

ping_is_other :
    (request : Value) (method : Text)
    → ops.parse ask.req_data ≡ some request
    → ops.text_value (codes "method") request ≡ some method
    → text_eq method (codes "initialize") ≡ false
unfolding find text_eq
ping_is_other request method p k =
    let same : ping ≡ request = ap or_nothing p in
    let named : some (codes "ping") ≡ some method =
      ap (λ r. string_member value_view (codes "method") r) same ∙ k in
    ap (λ o. text_eq (or_empty o) (codes "initialize")) (sym named)
  where
    or_empty : Option Text → Text
    or_empty none = []
    or_empty (some s) = s

dispatch_method-IsRefused_example :
    IsRefused ops [] hex dump dump_code ask
      (dispatch_method value_view value_maker 1 service
        (codes "session/unregister")
        params
        (codes "s1")
        state).1
dispatch_method-IsRefused_example =
    dispatch_method-IsRefused value_view value_maker ops [] hex dump dump_code service 1 params
      state ask ping_is_other

tools_call_method-Succeeds_example :
    (tools_call_method value_view value_maker 1 service params (codes "s1") state
      ≡ (result (record_of (fields [])), state))
    ↔ Succeeds value_view value_maker 1 service params
        (codes "s1")
        state
        (record_of (fields []))
        state
tools_call_method-Succeeds_example =
    tools_call_method-Succeeds value_view value_maker 1 service params (codes "s1") state state
      (record_of (fields []))

echoes :
    tools_call_method value_view value_maker 1 service params (codes "s1") state
    ≡ (result (record_of (fields [])), state)
unfolding tools_call_method find text_eq
echoes = refl
