-- ===== src/Mcp/Schema/Examples.antt =====
-- A tool's description through the checks of hikyuu/mcp/McpService.cpp.
use hku_rest.Prelude.{◌≡◌, ◌↔◌, refl, [], ◌∷◌, arith}
use hku_rest.Prelude.Text.{Text, codes, text_eq}
use hku_rest.Mcp.Value.{Value, text, record_of, list_of, fields, values, size, value_view}
use hku_rest.Mcp.Schema.{valid, refused, required_undefined, validate_complex, validate_tool}
use hku_rest.Mcp.Schema.Predicates.{Fits, IsTool}
use hku_rest.Mcp.Schema.Complex.{validate_complex-Fits}
use hku_rest.Mcp.Schema.Fuel.{validate_complex-Returns, validate_tool-Returns}
use hku_rest.Mcp.Schema.Checks.{Returns}
use hku_rest.Mcp.Schema.Tool.{validate_tool-IsTool}

abbrev typed : Text → Value
typed t = record_of (fields ((codes "type", text t) ∷ []))

-- An array of objects with one property.
abbrev tags : Value
tags = record_of (
    fields (
      (codes "type", text (codes "array"))
      ∷ (
        codes "items",
        record_of (
            fields (
              (codes "type", text (codes "object"))
              ∷ (
                codes "properties",
                record_of (fields ((codes "weight", typed (codes "number")) ∷ [])),
              )
              ∷ [])),
      )
      ∷ []))

abbrev tool : Value → Text → Value
tool city required = record_of (
    fields (
      (codes "name", text (codes "get_weather"))
      ∷ (codes "description", text (codes "The weather"))
      ∷ (
        codes "inputSchema",
        record_of (
            fields (
              (codes "type", text (codes "object"))
              ∷ (
                codes "properties",
                record_of (fields ((codes "city", city) ∷ (codes "tags", tags) ∷ [])),
              )
              ∷ (codes "required", list_of (values (text required ∷ [])))
              ∷ [])),
      )
      ∷ []))

abbrev pub weather : Value
weather = tool (typed (codes "string")) (codes "city")

weather_passes : validate_tool value_view (size weather) weather ≡ valid
unfolding validate_tool size text_eq
weather_passes = refl

town_is_undefined :
    validate_tool value_view 100 (tool (typed (codes "string")) (codes "town"))
    ≡ refused (required_undefined (codes "town"))
unfolding validate_tool text_eq
town_is_undefined = refl

validate_complex-Fits_example :
    (validate_complex value_view 100 (codes "array") (codes "tags") tags ≡ valid)
    ↔ Fits value_view (codes "array") tags
validate_complex-Fits_example =
    validate_complex-Fits value_view 100 (codes "array") (codes "tags") tags
      (unfold size in omega arith)

validate_complex-Returns_example :
    Returns (validate_complex value_view 100 (codes "array") (codes "tags") tags)
validate_complex-Returns_example =
    validate_complex-Returns value_view 100 (codes "array") (codes "tags") tags
      (unfold size in omega arith)

validate_tool-Returns_example : Returns (validate_tool value_view (size weather) weather)
validate_tool-Returns_example = validate_tool-Returns value_view weather

validate_tool-IsTool_example :
    (validate_tool value_view (size weather) weather ≡ valid) ↔ IsTool value_view weather
validate_tool-IsTool_example = validate_tool-IsTool value_view weather
