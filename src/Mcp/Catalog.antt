-- ===== src/Mcp/Catalog.antt =====
-- hikyuu/mcp/McpService.cpp and McpService.h: what a service offers, and how it is registered.
pub mod Listed
use hku_rest.Prelude.{
  ℕ, zero, suc, ◌+◌, Bool, true, false, not, Option, none, some, List, [], ◌∷◌, ◌++◌, if◌then◌else◌,
  is_empty,
}
use hku_rest.Prelude.Text.{Text, codes, text_eq}
use hku_rest.Prelude.Dict.{Dict, find, put}
use hku_rest.Mcp.{Mcp, McpCode}
use hku_rest.Mcp.Json.{
  JsonView, Shape, null_value, object, array, string, members, member, string_member,
  string_or_missing, is_object, is_array, is_boolean,
}
use hku_rest.Mcp.Schema.{
  SchemaError, argument_not_object, argument_without_name, argument_description, argument_required,
  field_not_array, field_not_string, Outcome, valid, out_of_fuel, refused, and_then, check, each,
  non_empty, string_field, validate_tool,
}

-- A method returns a result or a code, or it throws.
pub data Answer (J : Type 0) : Type 0 where
  result : J → Answer J
  failed : McpCode → Answer J
  threw : Answer J

-- A method works on the parameters and the session's id.
abbrev pub Method : Type 0 → Type 0
Method J = J → Text → Mcp J → Answer J × Mcp J

pub record Service (J : Type 0) : Type 0 where
  pub initialize_method : Method J
  pub tool_descriptions : List J
  pub tools : Dict (Method J)
  pub prompt_descriptions : List J
  pub prompt_read_method : Option (Method J)
  pub resource_descriptions : List J
  pub resource_read_method : Option (Method J)

module _ {J : Type 0} (v : JsonView J) where
  abbrev pub optional_text : Text → J → Outcome
  optional_text key x = check (string_or_missing v (member v key x)) (field_not_string key)

  abbrev pub boolean_or_missing : Option J → Bool
  boolean_or_missing none = true
  boolean_or_missing (some x) = is_boolean (v.view x)

  pub validate_prompt_argument : ℕ → J → Outcome
  unfolding find
  validate_prompt_argument i arg =
      and_then (check (is_object (v.view arg)) (argument_not_object i)) (
        and_then (check (non_empty (string_member v (codes "name") arg)) (argument_without_name i))
          (and_then
            (check (string_or_missing v (member v (codes "description") arg))
              (argument_description i))
            (check (boolean_or_missing (member v (codes "required") arg)) (argument_required i))))

  -- The loop over the arguments, from an index on.
  abbrev pub prompt_arguments : ℕ → List J → Outcome
  prompt_arguments i [] = valid
  prompt_arguments i (arg ∷ rest) =
      and_then (validate_prompt_argument i arg) (prompt_arguments (suc i) rest)

  abbrev pub validate_prompt_arguments : Shape J → Outcome
  validate_prompt_arguments (array items) = prompt_arguments 0 items
  validate_prompt_arguments _ = valid

  abbrev pub array_or_missing : Option J → Bool
  array_or_missing none = true
  array_or_missing (some x) = is_array (v.view x)

  abbrev pub validate_prompt_description_fields : J → Outcome
  validate_prompt_description_fields description =
      and_then (string_field v (codes "name") description) (
        and_then (string_field v (codes "description") description) (
          check (array_or_missing (member v (codes "arguments") description))
            (field_not_array (codes "arguments"))))

  abbrev pub validate_arguments_of : Option J → Outcome
  validate_arguments_of none = valid
  validate_arguments_of (some arguments) = validate_prompt_arguments (v.view arguments)

  pub validate_prompt : J → Outcome
  unfolding validate_prompt_argument
  validate_prompt description =
      and_then (validate_prompt_description_fields description)
        (validate_arguments_of (member v (codes "arguments") description))

  pub validate_resource : J → Outcome
  unfolding find
  validate_resource resource = and_then (string_field v (codes "uri") resource) (
      and_then (string_field v (codes "name") resource) (
        and_then (optional_text (codes "description") resource)
          (optional_text (codes "mimeType") resource)))

  -- The new entry is kept if its checks pass; otherwise the call throws, and nothing changes.
  abbrev pub stored : Outcome → Service J → Service J → Outcome × Service J
  stored valid new s = (valid, new)
  stored out_of_fuel new s = (out_of_fuel, s)
  stored (refused e) new s = (refused e, s)

  pub add_tool_description : J → Service J → Outcome × Service J
  unfolding validate_tool
  add_tool_description description s =
      stored (validate_tool v (v.size description) description)
        (record s { tool_descriptions = s.tool_descriptions ++ description ∷ [] }) s

  pub add_prompt : J → Service J → Outcome × Service J
  unfolding validate_prompt
  add_prompt description s =
      stored (validate_prompt description)
        (record s { prompt_descriptions = s.prompt_descriptions ++ description ∷ [] }) s

  pub add_resource : J → Service J → Outcome × Service J
  unfolding validate_resource
  add_resource resource s =
      stored (validate_resource resource)
        (record s { resource_descriptions = s.resource_descriptions ++ resource ∷ [] }) s

  -- The first call that throws ends the loop; the entries before it stay.
  abbrev pub unless_thrown : Outcome × Service J → Outcome × Service J → Outcome × Service J
  unless_thrown (valid, s) next = next
  unless_thrown (out_of_fuel, s) next = (out_of_fuel, s)
  unless_thrown (refused e, s) next = (refused e, s)

  abbrev pub add_all :
      (J → Service J → Outcome × Service J) → List J → Service J → Outcome × Service J
  add_all add [] s = (valid, s)
  add_all add (x ∷ rest) s = unless_thrown (add x s) (add_all add rest (add x s).1)

  -- What a loop over a JSON value visits: an array's items or an object's values, nothing for null,
  -- and any other value itself.
  abbrev pub values : Dict J → List J
  values [] = []
  values ((k, x) ∷ d) = x ∷ values d

  abbrev pub elements : J → Shape J → List J
  elements x (array items) = items
  elements x (object d) = values d
  elements x null_value = []
  elements x _ = x ∷ []

  -- `CLS_CHECK(b, ...)` lets a call pass, or throws, here none.
  module _ (cls_check : Bool → Bool) where
    abbrev pub add_checked :
        Bool → (J → Service J → Outcome × Service J) → J → Service J → Option Outcome × Service J
    add_checked b add x s =
        if cls_check b
        then (
          some (add_all add (elements x (v.view x)) s).0,
          (add_all add (elements x (v.view x)) s).1,
        )
        else (none, s)

    -- The overloads for one JSON value.
    pub add_tool_descriptions : J → Service J → Option Outcome × Service J
    unfolding add_tool_description
    add_tool_descriptions x s = add_checked (not (is_array (v.view x))) add_tool_description x s

    pub add_prompts : J → Service J → Option Outcome × Service J
    unfolding add_prompt
    add_prompts x s = add_checked (not (is_array (v.view x))) add_prompt x s

    pub add_resources : J → Service J → Bool × Service J
    add_resources x s =
        if cls_check (not (is_object (v.view x)))
        then (true, record s { resource_descriptions = s.resource_descriptions ++ x ∷ [] })
        else (false, s)

abbrev pub with_tool : {J : Type 0} → Option (Method J) → Text → Method J → Service J → Service J
with_tool none name method s = record s { tools = put name method s.tools }
with_tool (some old) name method s = s

-- `emplace`: the first method that is registered under a name stays.
abbrev pub add_tool : {J : Type 0} → Text → Method J → Service J → Service J
add_tool name method s = with_tool (find name s.tools) name method s
