-- ===== src/Mcp/History/Examples.antt =====
-- The list that hikyuu/mcp/McpHandle.cpp keeps under "history" in a session, on a type of JSON values of
-- our own.
use hku_rest.Prelude.{ℕ, ◌≡◌, refl, List, [], ◌∷◌}
use hku_rest.Prelude.Text.{Text, codes, text_eq}
use hku_rest.Prelude.Dict.{find}
use hku_rest.Sessions.{SessionData, SessionManager, get_session_metadata}
use hku_rest.Sessions.Stored.{IsKnown}
use hku_rest.Mcp.Value.{Value, text, value_view, value_maker}
use hku_rest.Mcp.History.{history_under}
use hku_rest.Mcp.History.Last.{last_of, record_all, entries, record_all-last_of}

abbrev id : Text
id = codes "s1"

abbrev key : Text
key = codes "history"

abbrev session : SessionData Value
session = record {
  session_id = codes "s1";
  client_info = [];
  created_at = 0;
  last_active = 0;
  metadata = [];
}

abbrev known : SessionManager Value
known = record {
  timeout_seconds = 1800;
  max_sessions = 1000;
  sessions = (codes "s1", session) ∷ [];
}

abbrev calls : List (Value × ℕ)
calls = (text (codes "a"), 1) ∷ (text (codes "b"), 2) ∷ (text (codes "c"), 3) ∷ []

known-IsKnown : IsKnown id known
unfolding find text_eq
known-IsKnown = (session, refl)

nothing_yet : history_under value_view value_maker id key known ≡ []
unfolding get_session_metadata find text_eq
nothing_yet = refl

record_all-last_of_example :
    history_under value_view value_maker id key
      (record_all value_view value_maker key 2 id calls known)
    ≡ last_of 2 (entries value_view value_maker calls)
record_all-last_of_example =
    record_all-last_of value_view value_maker key 2 id calls known refl known-IsKnown nothing_yet
