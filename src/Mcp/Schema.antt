-- ===== src/Mcp/Schema.antt =====
-- hikyuu/mcp/McpService.cpp: the checks of a tool's, a prompt's and a resource's description.
pub mod Checks
pub mod Predicates
pub mod Complex
pub mod Fuel
pub mod Tool
pub mod Examples
use hku_rest.Prelude.{
  ℕ, zero, suc, ◌+◌, Bool, true, false, not, ◌||◌, Option, none, some, List, [], ◌∷◌, ◌++◌,
  is_empty, if◌then◌else◌,
}
use hku_rest.Prelude.Text.{Text, codes, text_eq}
use hku_rest.Prelude.Dict.{Dict, find}
use hku_rest.Mcp.Json.{
  JsonView, Shape, object, array, string, members, member, string_member, string_or_missing,
  is_object, is_array, is_string, is_boolean,
}

-- The texts of the `std::logic_error`s, by what they name.
pub data SchemaError : Type 0 where
  field_required field_not_object field_not_array field_not_string : Text → SchemaError
  type_not_object properties_missing : SchemaError
  property_not_object property_without_type description_not_string : Text → SchemaError
  invalid_type : Text → Text → SchemaError
  items_missing items_not_object items_without_type nested_not_properties : Text → SchemaError
  nested_not_object nested_without_type : Text → Text → SchemaError
  required_not_array required_not_string additional_invalid : SchemaError
  required_undefined : Text → SchemaError
  argument_not_object argument_without_name argument_description argument_required : ℕ → SchemaError

-- A check returns, throws, or has used up its fuel.
pub data Outcome : Type 0 where
  valid out_of_fuel : Outcome
  refused : SchemaError → Outcome

-- One check after the other.
abbrev pub and_then : Outcome → Outcome → Outcome
and_then valid next = next
and_then out_of_fuel next = out_of_fuel
and_then (refused e) next = refused e

abbrev pub check : Bool → SchemaError → Outcome
check b e = if b then valid else refused e

abbrev pub each {ℓ} : {A : Type ℓ} → (A → Outcome) → List A → Outcome
each f [] = valid
each f (x ∷ xs) = and_then (f x) (each f xs)

abbrev pub non_empty : Option Text → Bool
non_empty none = false
non_empty (some s) = not (is_empty s)

abbrev pub valid_type : Text → Bool
valid_type t =
    text_eq t (codes "string")
    || (text_eq t (codes "number")
        || (text_eq t (codes "integer")
            || (text_eq t (codes "boolean")
                || (text_eq t (codes "array")
                    || (text_eq t (codes "object") || text_eq t (codes "null"))))))

module _ {J : Type 0} (v : JsonView J) where
  -- `rec` validates a value by its type: nothing, unless it is an object or an array.
  module _ (rec : Text → Text → J → Outcome) where
    abbrev pub items_of_type : Text → J → Option Text → Outcome
    items_of_type prop_name items none = refused (items_without_type prop_name)
    items_of_type prop_name items (some item_type) = rec item_type (prop_name ++ codes "[]") items

    abbrev pub array_items : Text → Option J → Outcome
    array_items prop_name none = refused (items_missing prop_name)
    array_items prop_name (some items) =
        if is_object (v.view items)
        then items_of_type prop_name items (string_member v (codes "type") items)
        else refused (items_not_object prop_name)

    pub validate_array_property : Text → J → Outcome
    unfolding find
    validate_array_property prop_name prop_schema =
        array_items prop_name (member v (codes "items") prop_schema)

    abbrev pub nested_of_type : Text → Text → J → Option Text → Outcome
    nested_of_type prop_name nested_name x none =
        refused (nested_without_type prop_name nested_name)
    nested_of_type prop_name nested_name x (some nested_type) =
        rec nested_type (prop_name ++ (codes "." ++ nested_name)) x

    abbrev pub nested_property : Text → Text × J → Outcome
    nested_property prop_name (nested_name, x) =
        if is_object (v.view x)
        then nested_of_type prop_name nested_name x (string_member v (codes "type") x)
        else refused (nested_not_object prop_name nested_name)

    abbrev pub nested_properties : Text → Option J → Outcome
    nested_properties prop_name none = valid
    nested_properties prop_name (some x) =
        if is_object (v.view x)
        then each (nested_property prop_name) (members (v.view x))
        else refused (nested_not_properties prop_name)

    pub validate_nested_object_property : Text → J → Outcome
    unfolding find
    validate_nested_object_property prop_name prop_schema =
        nested_properties prop_name (member v (codes "properties") prop_schema)

  -- The two functions call each other by the type of what they find.
  pub validate_complex : ℕ → Text → Text → J → Outcome
  unfolding validate_array_property validate_nested_object_property
  validate_complex zero type prop_name x = out_of_fuel
  validate_complex (suc fuel) type prop_name x =
      if text_eq type (codes "object")
      then validate_nested_object_property (validate_complex fuel) prop_name x
      else if text_eq type (codes "array")
      then validate_array_property (validate_complex fuel) prop_name x
      else valid

  abbrev pub typed_property : ℕ → Text → J → Option Text → Outcome
  typed_property fuel prop_name x none = refused (property_without_type prop_name)
  typed_property fuel prop_name x (some type) =
      and_then (check (valid_type type) (invalid_type prop_name type)) (
        and_then (validate_complex fuel type prop_name x) (
          check (string_or_missing v (member v (codes "description") x))
            (description_not_string prop_name)))

  abbrev pub property : ℕ → Text × J → Outcome
  property fuel (prop_name, x) =
      if is_object (v.view x)
      then typed_property fuel prop_name x (string_member v (codes "type") x)
      else refused (property_not_object prop_name)

  abbrev pub defined_in : Dict J → Text → Outcome
  defined_in d field = elim (find field d) [
    | none ↦ refused (required_undefined field)
    | some x ↦ valid
  ]

  abbrev pub required_item : Dict J → Shape J → Outcome
  required_item d (string field) = defined_in d field
  required_item d _ = refused required_not_string

  abbrev pub required_items : Dict J → Shape J → Outcome
  required_items d (array items) = each (λ x. required_item d (v.view x)) items
  required_items d _ = refused required_not_array

  abbrev pub required_fields : Dict J → Option J → Outcome
  required_fields d none = valid
  required_fields d (some x) = required_items d (v.view x)

  abbrev pub additional_properties : Option J → Outcome
  additional_properties none = valid
  additional_properties (some x) =
      check (is_boolean (v.view x) || is_object (v.view x)) additional_invalid

  -- An empty `properties` ends the checks.
  abbrev pub input_properties : ℕ → J → Dict J → Outcome
  input_properties fuel schema [] = valid
  input_properties fuel schema (e ∷ d) = and_then (each (property fuel) (e ∷ d)) (
      and_then (required_fields (e ∷ d) (member v (codes "required") schema))
        (additional_properties (member v (codes "additionalProperties") schema)))

  abbrev pub input_object : ℕ → J → Shape J → Outcome
  input_object fuel schema (object d) = input_properties fuel schema d
  input_object fuel schema _ = refused properties_missing

  abbrev pub input_members : ℕ → J → Option J → Outcome
  input_members fuel schema none = refused properties_missing
  input_members fuel schema (some x) = input_object fuel schema (v.view x)

  abbrev pub is_type : Text → Option Text → Bool
  is_type t none = false
  is_type t (some s) = text_eq s t

  pub validate_input_schema : ℕ → J → Outcome
  unfolding validate_complex find
  validate_input_schema fuel schema =
      and_then
        (check (is_type (codes "object") (string_member v (codes "type") schema)) type_not_object)
        (input_members fuel schema (member v (codes "properties") schema))

  abbrev pub string_field : Text → J → Outcome
  string_field key x = check (non_empty (string_member v key x)) (field_required key)

  abbrev pub schema_field : Option J → Outcome
  schema_field none = refused (field_required (codes "inputSchema"))
  schema_field (some schema) =
      check (is_object (v.view schema)) (field_not_object (codes "inputSchema"))

  pub validate_required_fields : J → Outcome
  unfolding find
  validate_required_fields tool = and_then (string_field (codes "name") tool) (
      and_then (string_field (codes "description") tool)
        (schema_field (member v (codes "inputSchema") tool)))

  abbrev pub validate_schema_of : ℕ → Option J → Outcome
  validate_schema_of fuel none = valid
  validate_schema_of fuel (some schema) = validate_input_schema fuel schema

  -- The two checks of `addToolDescription`: the second finds the member that the first demands.
  unfoldable pub validate_tool : ℕ → J → Outcome
  unfolding validate_required_fields validate_input_schema
  validate_tool fuel tool =
      and_then (validate_required_fields tool)
        (validate_schema_of fuel (member v (codes "inputSchema") tool))
