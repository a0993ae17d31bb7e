-- ===== src/Mcp/Schema/Fuel.antt =====
-- The fuel of the checks: a value's size is enough, since every call is on a smaller value.
use hku_rest.Prelude.{
  ℕ, zero, suc, ◌<◌, ◌≤◌, ◌≡◌, refl, inl, inr, Bool, true, false, Option, none, some, List, [], ◌∷◌,
  All, All-map, Bool-cases, if◌then◌else◌, arith,
}
use hku_rest.Prelude.Text.{Text, codes, text_eq}
use hku_rest.Prelude.Dict.{Dict, find}
use hku_rest.Mcp.Json.{
  JsonView, Shape, null_value, boolean, number, string, array, object, members, member,
  string_member,
}
use hku_rest.Mcp.Schema.{
  SchemaError, Outcome, valid, refused, each, validate_complex, validate_array_property,
  validate_nested_object_property, nested_property, nested_properties, nested_of_type, array_items,
  items_of_type, property, typed_property, required_fields, required_items, required_item,
  additional_properties, input_properties, input_object, input_members, validate_input_schema,
  validate_required_fields, validate_tool, nested_not_object, items_not_object, required_undefined,
  field_required, string_field, non_empty, schema_field, validate_schema_of, property_not_object,
}
use hku_rest.Mcp.Schema.Complex.{member_smaller}
use hku_rest.Mcp.Schema.Checks.{
  Returns, and_then-Returns, check-Returns, refused-Returns, each-Returns,
}

module _ {J : Type 0} (v : JsonView J) where
  -- Members of an object below a bound.
  abbrev Below : ℕ → Dict J → Type 0
  Below n = All (λ (e : Text × J). v.size e.1 < n)

  pub members-Below :
      (s : Shape J) (x : J) (n : ℕ) → v.view x ≡ s → v.size x ≤ n → Below n (members s)
  members-Below (object d) x n e l = All-map (λ e h. omega arith) d (v.members_smaller x d e)
  members-Below null_value x n e l = tt
  members-Below (boolean b) x n e l = tt
  members-Below number x n e l = tt
  members-Below (string s) x n e l = tt
  members-Below (array items) x n e l = tt

  module _ (rec : Text → Text → J → Outcome) (n : ℕ)
      (returns : (t p : Text) (x : J) → v.size x < n → Returns (rec t p x)) where
    typed-Returns :
        (b : Bool) (o : Option Text) (p k : Text) (x : J)
        → v.size x < n
        → Returns (if b then nested_of_type v rec p k x o else refused (nested_not_object p k))
    typed-Returns true none p k x l = refused-Returns _
    typed-Returns true (some t) p k x l = returns t _ x l
    typed-Returns false o p k x l = refused-Returns _

    items-Returns :
        (b : Bool) (o : Option Text) (p : Text) (x : J)
        → v.size x < n
        → Returns (if b then items_of_type v rec p x o else refused (items_not_object p))
    items-Returns true none p x l = refused-Returns _
    items-Returns true (some t) p x l = returns t _ x l
    items-Returns false o p x l = refused-Returns _

    nested-Returns :
        (b : Bool) (p : Text) (e : SchemaError) (d : Dict J)
        → Below n d
        → Returns (if b then each (nested_property v rec p) d else refused e)
    nested-Returns true p e d h =
        each-Returns (nested_property v rec p) d
          (All-map (λ (k, x) l. typed-Returns _ _ p k x l) d h)
    nested-Returns false p e d h = refused-Returns _

    properties-Returns :
        (x : J) (p : Text) (o : Option J)
        → member v (codes "properties") x ≡ o
        → v.size x ≤ n
        → Returns (nested_properties v rec p o)
    properties-Returns x p none e l = λ h. cc
    properties-Returns x p (some y) e l = nested-Returns _ p _ (members (v.view y)) (
        members-Below (v.view y) y n refl
          (omega (arith, member_smaller v (codes "properties") x e)))

    array-Returns :
        (x : J) (p : Text) (o : Option J)
        → member v (codes "items") x ≡ o
        → v.size x ≤ n
        → Returns (array_items v rec p o)
    array-Returns x p none e l = refused-Returns _
    array-Returns x p (some i) e l =
        items-Returns _ _ p i (omega (arith, member_smaller v (codes "items") x e))

  -- However deep a property nests, checking it comes to an end: fuel beyond the value's size is enough.
  pub validate_complex-Returns :
      (fuel : ℕ) (t p : Text) (x : J) → v.size x < fuel → Returns (validate_complex v fuel t p x)
  unfolding validate_complex validate_array_property validate_nested_object_property
  validate_complex-Returns zero t p x l = absurd (omega arith)
  validate_complex-Returns (suc fuel) t p x l = elim (Bool-cases (text_eq t (codes "object"))) [
    | inl e ↦ rw e (
        properties-Returns (validate_complex v fuel) fuel (validate_complex-Returns fuel) x p _ refl
          (omega arith))
    | inr f ↦ elim (Bool-cases (text_eq t (codes "array"))) [
      | inl e ↦
          rw (f, e)
            (array-Returns (validate_complex v fuel) fuel (validate_complex-Returns fuel) x p _ refl
              (omega arith))
      | inr g ↦ rw (f, g) (λ e. cc)
    ]
  ]

  property-Returns :
      (fuel : ℕ) (b : Bool) (o : Option Text) (k : Text) (x : J)
      → v.size x < fuel
      → Returns (if b then typed_property v fuel k x o else refused (property_not_object k))
  property-Returns fuel true none k x l = refused-Returns _
  property-Returns fuel true (some t) k x l =
      and_then-Returns _ _ (check-Returns _ _)
        (and_then-Returns _ _ (validate_complex-Returns fuel t k x l) (check-Returns _ _))
  property-Returns fuel false o k x l = refused-Returns _

  defined-Returns :
      (f : Text) (o : Option J)
      → Returns (elim o [ none ↦ refused (required_undefined f) | some x ↦ valid ])
  defined-Returns f none h = cc
  defined-Returns f (some x) h = cc

  required_item-Returns : (d : Dict J) (s : Shape J) → Returns (required_item v d s)
  required_item-Returns d (string f) = defined-Returns f (find f d)
  required_item-Returns d null_value = λ h. cc
  required_item-Returns d (boolean b) = λ h. cc
  required_item-Returns d number = λ h. cc
  required_item-Returns d (array items) = λ h. cc
  required_item-Returns d (object e) = λ h. cc

  required_each-Returns :
      (d : Dict J) (xs : List J) → All (λ x. Returns (required_item v d (v.view x))) xs
  required_each-Returns d [] = tt
  required_each-Returns d (x ∷ xs) =
      (required_item-Returns d (v.view x), required_each-Returns d xs)

  required_items-Returns : (d : Dict J) (s : Shape J) → Returns (required_items v d s)
  required_items-Returns d (array items) =
      each-Returns (λ x. required_item v d (v.view x)) items (required_each-Returns d items)
  required_items-Returns d null_value = λ h. cc
  required_items-Returns d (boolean b) = λ h. cc
  required_items-Returns d number = λ h. cc
  required_items-Returns d (string s) = λ h. cc
  required_items-Returns d (object e) = λ h. cc

  required_fields-Returns : (d : Dict J) (o : Option J) → Returns (required_fields v d o)
  required_fields-Returns d none = λ h. cc
  required_fields-Returns d (some x) = required_items-Returns d (v.view x)

  additional-Returns : (o : Option J) → Returns (additional_properties v o)
  additional-Returns none = λ h. cc
  additional-Returns (some x) = check-Returns _ _

  input_properties-Returns :
      (fuel : ℕ) (x : J) (d : Dict J) → Below fuel d → Returns (input_properties v fuel x d)
  input_properties-Returns fuel x [] h = λ e. cc
  input_properties-Returns fuel x (e ∷ d) h =
      and_then-Returns _ _
        (each-Returns (property v fuel) (e ∷ d)
          (All-map (λ (k, y) l. property-Returns fuel _ _ k y l) (e ∷ d) h))
        (and_then-Returns _ _ (required_fields-Returns (e ∷ d) _) (additional-Returns _))

  input_object-Returns :
      (fuel : ℕ) (x : J) (s : Shape J) → Below fuel (members s) → Returns (input_object v fuel x s)
  input_object-Returns fuel x (object d) h = input_properties-Returns fuel x d h
  input_object-Returns fuel x null_value h = λ e. cc
  input_object-Returns fuel x (boolean b) h = λ e. cc
  input_object-Returns fuel x number h = λ e. cc
  input_object-Returns fuel x (string s) h = λ e. cc
  input_object-Returns fuel x (array items) h = λ e. cc

  input_members-Returns :
      (fuel : ℕ) (x : J) (o : Option J)
      → member v (codes "properties") x ≡ o
      → v.size x ≤ fuel
      → Returns (input_members v fuel x o)
  input_members-Returns fuel x none e l = λ h. cc
  input_members-Returns fuel x (some y) e l = input_object-Returns fuel x (v.view y) (
      members-Below (v.view y) y fuel refl
        (omega (arith, member_smaller v (codes "properties") x e)))

  schema-Returns :
      (fuel : ℕ) (tool : J) (o : Option J)
      → member v (codes "inputSchema") tool ≡ o
      → v.size tool ≤ fuel
      → Returns (validate_schema_of v fuel o)
  unfolding validate_input_schema
  schema-Returns fuel tool none e l = λ h. cc
  schema-Returns fuel tool (some x) e l = and_then-Returns _ _ (check-Returns _ _) (
      input_members-Returns fuel x _ refl
        (omega (arith, member_smaller v (codes "inputSchema") tool e)))

  required-Returns : (o : Option J) → Returns (schema_field v o)
  required-Returns none = λ h. cc
  required-Returns (some x) = check-Returns _ _

  string_field-Returns : (key : Text) (x : J) → Returns (string_field v key x)
  string_field-Returns key x =
      check-Returns (non_empty (string_member v key x)) (field_required key)

  fields-Returns : (tool : J) → Returns (validate_required_fields v tool)
  unfolding validate_required_fields
  fields-Returns tool = and_then-Returns _ _ (string_field-Returns (codes "name") tool) (
      and_then-Returns _ _ (string_field-Returns (codes "description") tool)
        (required-Returns (member v (codes "inputSchema") tool)))

  -- The checks of a tool's description come to an end, with the description's size as fuel.
  pub validate_tool-Returns : (tool : J) → Returns (validate_tool v (v.size tool) tool)
  unfolding validate_tool
  validate_tool-Returns tool =
      and_then-Returns _ _ (fields-Returns tool)
        (schema-Returns (v.size tool) tool _ refl (omega arith))
