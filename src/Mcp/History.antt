-- ===== src/Mcp/History.antt =====
-- hikyuu/mcp/McpHandle.cpp: `recordToolUsage` and `pushProgress`, which keep lists in a session.
pub mod Last
pub mod Examples
use hku_rest.Prelude.{
  ℕ, ◌/◌, ◌^◌, Bool, true, false, not, Option, none, some, List, [], ◌∷◌, ◌++◌, ltb, if◌then◌else◌,
  length, drop, is_empty,
}
use hku_rest.Prelude.Text.{Text, codes}
use hku_rest.Prelude.Dict.{Dict, find, put}
use hku_rest.Sessions.{SessionManager, get_session_metadata, set_session_metadata}
use hku_rest.Chunks.{write_chunk}
use hku_rest.Mcp.{Mcp}
use hku_rest.Mcp.Json.{JsonView, Shape, null_value, array}
use hku_rest.Mcp.Service.{JsonMaker}

abbrev pub max_history : ℕ
max_history = 100

abbrev pub max_progress_history : ℕ
max_progress_history = 50

-- At most `limit` entries stay: a new one puts the first one out.
abbrev pub push_limited {ℓ} : {A : Type ℓ} → ℕ → A → List A → List A
push_limited limit entry history =
    let longer = history ++ entry ∷ [] in
    if ltb limit (length longer) then drop 1 longer else longer

module _ {J : Type 0} (v : JsonView J) (make : JsonMaker J v) where
  abbrev pub items_of : Shape J → List J
  items_of (array items) = items
  items_of _ = []

  abbrev pub is_null : Shape J → Bool
  is_null null_value = true
  is_null _ = false

  -- The list under a key, which is empty if there is none.
  abbrev pub history_under : Text → Text → SessionManager J → List J
  history_under id key m = items_of (v.view (get_session_metadata make.null id key m))

  -- A read and a write, each under its own lock.
  pub record_entry : Text → ℕ → J → Text → ℕ → SessionManager J → SessionManager J
  record_entry key limit entry id now m =
      (set_session_metadata id key
        (make.array_value (push_limited limit entry (history_under id key m))) now m).1

  abbrev pub usage : Text → J → ℕ → J
  usage tool_name details now = make.object_value (
      (codes "timestamp", make.number_value (now / 10 ^ 9))
      ∷ (codes "tool", make.text_value tool_name)
      ∷ (codes "details", details)
      ∷ [])

  pub record_tool_usage : Text → Text → J → ℕ → Mcp J → Mcp J
  unfolding record_entry
  record_tool_usage id tool_name details now m = if is_empty id then m else record m {
    sessions =
        record_entry (codes "history") max_history (usage tool_name details now) id now m.sessions;
  }

  abbrev pub with_data : J → Dict J → Dict J
  with_data data_value d =
      if is_null (v.view data_value) then d else d ++ (codes "data", data_value) ∷ []

  abbrev pub progress_params : Text → ℕ → Text → J → J
  progress_params task_id progress message data_value = make.object_value (
      with_data data_value (
        (codes "progressToken", make.text_value task_id)
        ∷ (codes "progress", make.number_value progress)
        ∷ (codes "total", make.number_value 100)
        ∷ (codes "message", make.text_value message)
        ∷ []))

  abbrev pub progress_notification : Text → ℕ → Text → J → J
  progress_notification task_id progress message data_value = make.object_value (
      (codes "jsonrpc", make.text_value (codes "2.0"))
      ∷ (codes "method", make.text_value (codes "notifications/progress"))
      ∷ (codes "params", progress_params task_id progress message data_value)
      ∷ [])

  abbrev pub progress_data : Text → ℕ → Text → ℕ → J → J
  progress_data task_id progress message stamp data_value = make.object_value (
      with_data data_value (
        (codes "task_id", make.text_value task_id)
        ∷ (codes "progress", make.number_value progress)
        ∷ (codes "message", make.text_value message)
        ∷ (codes "timestamp", make.number_value stamp)
        ∷ []))

  -- The header and the numerals of the chunks (see Chunks), the text of a value, and the stamp of the
  -- library's `Datetime` for a time.
  module _ (head : Text) (hex : ℕ → Text) (dump : J → Text) (timestamp : ℕ → ℕ) where
    abbrev pub push_chunk : J → Mcp J → Mcp J
    push_chunk notification m =
        if m.transfer.chunked_transfer
        then record m {
          transfer =
              (write_chunk head hex true true
                (codes "data: " ++ (dump notification ++ 10 ∷ 10 ∷ [])) m.transfer).1;
        }
        else m

    abbrev pub store_progress : J → Text → ℕ → SessionManager J → SessionManager J
    store_progress entry id now m =
        (set_session_metadata id (codes "progress_update") entry now
          (record_entry (codes "progress_history") max_progress_history entry id now m)).1

    pub push_progress : Text → Text → ℕ → Text → J → ℕ → Mcp J → Mcp J
    unfolding record_entry
    push_progress id task_id progress message data_value now m =
        let m' = push_chunk (progress_notification task_id progress message data_value) m in
        record m' {
          sessions =
              store_progress (progress_data task_id progress message (timestamp now) data_value) id
                now m'.sessions;
        }
