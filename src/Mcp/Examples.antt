-- ===== src/Mcp/Examples.antt =====
-- A ping through hikyuu/mcp/McpHandle.cpp. A JSON value is an object of texts; a text is an object
-- with the empty key.
use hku_rest.Prelude.{
  ℕ, ◌≡◌, refl, sym, ap, ◌∙◌, ◌&&◌, Bool, true, false, Option, none, some, [], ◌∷◌, if◌then◌else◌,
  is_empty,
}
use hku_rest.Prelude.Text.{Text, codes, text_eq, starts_with}
use hku_rest.Prelude.Dict.{Dict, find, put}
use hku_rest.Sessions.{new_session, get_session, touch_session}
use hku_rest.Mcp.{JsonOps, McpCode, method_code, Mcp, Ask, has_part, admitted, admit, Dispatch, run}
use hku_rest.Mcp.Gate.{IsRefused, run-IsRefused}
use hku_rest.Mcp.Reply.{run_is_silent}

abbrev Json : Type 0
Json = Dict Text

abbrev or_empty : Option Text → Text
or_empty none = []
or_empty (some v) = v

abbrev is_some : Option Text → Bool
is_some none = false
is_some (some v) = true

abbrev ping : Json
ping = (codes "jsonrpc", codes "2.0") ∷ (codes "method", codes "ping") ∷ []

abbrev json : JsonOps Json
json = record {
  parse = λ s. if text_eq s (codes "ping") then some ping else none;
  contains = λ key j. is_some (find key j);
  get = λ key j. ([], or_empty (find key j)) ∷ [];
  is_text = λ t j. text_eq t (or_empty (find [] j));
  text_value = λ key j. some (or_empty (find key j));
  null = [];
  is_null = λ j. is_empty j;
}

abbrev state : Mcp Json
state = record {
  sessions = record {
    timeout_seconds = 60;
    max_sessions = 2;
    sessions = (codes "s1", new_session (codes "s1") [] 0) ∷ [];
  };
  transfer = record {
    chunked_transfer = false;
    headers_sent = false;
    response_sent = false;
    wire = [];
  };
  body = [];
  session_header = none;
}

-- A ping in a session, from a client that accepts event streams.
abbrev ask : Text → Ask
ask session_id = record {
  accept = codes "application/json, text/event-stream";
  session_id = session_id;
  req_data = codes "ping";
  client_ip = codes "10.0.0.1";
  generated_id = codes "s2";
  now = 1;
}

-- Every method succeeds.
abbrev dispatch : Dispatch Json
dispatch method params session_id m = ((some ping, method_code 0), m)

abbrev dump : Json → Json → Text
dump result id = codes "result"

abbrev dump_code : McpCode → Json → Text
dump_code code id = codes "error"

abbrev hex : ℕ → Text
hex n = codes "f"

abbrev entered : Mcp Json
entered = record state {
  sessions = record state.sessions {
    sessions = (codes "s1", record (new_session (codes "s1") [] 0) { last_active = 1 }) ∷ [];
  };
}

accepts_events : has_part (ask []).accept (codes "text/event-stream") ≡ true
unfolding has_part starts_with
accepts_events = refl

enters : admit (codes "ping") (ask (codes "s1")) state ≡ admitted (codes "s1") entered
unfolding admit get_session touch_session find put text_eq
enters = refl

ping_is_other :
    (request : Json) (method : Text)
    → is_empty (ask []).req_data ≡ false
    → json.parse (ask []).req_data ≡ some request
    → (json.contains (codes "jsonrpc") request
        && json.is_text (codes "2.0") (json.get (codes "jsonrpc") request))
      ≡ true
    → json.text_value (codes "method") request ≡ some method
    → (text_eq method (codes "initialize") ≡ false)
      × (get_session (codes "s9") (ask []).now state.sessions ≡ none)
unfolding find text_eq get_session
ping_is_other request method n p g k =
    let same : ping ≡ request = ap or_ping p in
    let named : codes "ping" ≡ method =
      ap (λ r. or_empty (find (codes "method") r)) same ∙ ap or_empty k in
    (ap (λ t. text_eq t (codes "initialize")) (sym named), refl)
  where
    or_ping : Option Json → Json
    or_ping none = ping
    or_ping (some j) = j

run-IsRefused_example : IsRefused json [] hex dump dump_code (ask (codes "s9")) state
run-IsRefused_example =
    run-IsRefused json [] hex dump dump_code (ask (codes "s9")) state ping_is_other

run_is_silent_case :
    run json [] hex dump dump_code dispatch (ask (codes "s1")) state
    ≡ record entered { session_header = some (codes "s1") }
run_is_silent_case =
    run_is_silent json [] hex dump dump_code dispatch (ask (codes "s1")) state entered
      (record entered { session_header = some (codes "s1") }) ping ping (codes "ping") (codes "s1")
      (method_code 0) accepts_events refl (unfold text_eq in refl) (unfold find text_eq in refl)
      (unfold find text_eq in refl) (unfold text_eq in refl) (unfold text_eq in refl) enters refl
      refl
