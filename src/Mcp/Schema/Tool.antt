-- ===== src/Mcp/Schema/Tool.antt =====
-- What a tool's description says once it has passed `addToolDescription`.
use hku_rest.Prelude.{
  subst, ℕ, ◌<◌, ◌≤◌, ◌≡◌, ◌≢◌, ◌↔◌, ◌⊎◌, ◌∙◌, ap, refl, inl, inr, Bool, true, false, ◌||◌, Option,
  none, some, List, [], ◌∷◌, All, All-map, if◌then◌else◌, arith,
}
use hku_rest.Prelude.Text.{Text, codes, text_eq→eq, eq→text_eq}
use hku_rest.Prelude.Dict.{Dict, find}
use hku_rest.Mcp.Json.{
  JsonView, Shape, null_value, boolean, number, string, array, object, members, member,
  string_member, string_or_missing, is_object, is_boolean,
}
use hku_rest.Mcp.Schema.{
  valid, refused, each, non_empty, valid_type, property, typed_property, required_fields,
  required_items, required_item, additional_properties, input_properties, input_object,
  input_members, is_type, validate_input_schema, string_field, schema_field,
  validate_required_fields, validate_schema_of, validate_tool, property_not_object,
  required_undefined, additional_invalid, field_required, field_not_object,
}
use hku_rest.Mcp.Schema.Fuel.{members-Below}
use hku_rest.Mcp.Schema.Complex.{validate_complex-Fits, member_smaller}
use hku_rest.Mcp.Schema.Checks.{and_then_iff, check_iff, each_iff, three_iff}
use hku_rest.Mcp.Schema.Predicates.{
  Fits, IsProperty, Names, IsRequired, IsAdditional, IsInput, HasText, IsTool,
}

module _ {J : Type 0} (v : JsonView J) where
  property_iff :
      (fuel : ℕ) (b : Bool) (o : Option Text) (k : Text) (x : J)
      → v.size x < fuel
      → ((if b then typed_property v fuel k x o else refused (property_not_object k)) ≡ valid) ↔ (
          (b ≡ true)
          × (t : Text) × (o ≡ some t)
          × (valid_type t ≡ true)
          × Fits v t x
          × (string_or_missing v (member v (codes "description") x) ≡ true))
  property_iff fuel false o k x l = (λ h. cc, λ h. cc)
  property_iff fuel true none k x l = (λ h. cc, λ h. cc)
  property_iff fuel true (some t) k x l =
      let (there, back) = validate_complex-Fits v fuel t k x l in
      (
        λ h. let (a, b, c) = (three_iff _ _ _ _ _).0 h in (refl, t, refl, a, there b, c),
        λ (r, u, e, w, f, s).
            (three_iff _ _ _ _ _).1
              (ap valid_type (cc) ∙ w, back (subst (λ u. Fits v u x) (cc) f), s),
      )

  properties_iff :
      (fuel : ℕ) (d : Dict J)
      → All (λ (e : Text × J). v.size e.1 < fuel) d
      → (each (property v fuel) d ≡ valid) ↔ All (IsProperty v) d
  properties_iff fuel d h =
      each_iff (property v fuel) (IsProperty v) d
        (All-map (λ (k, x) l. property_iff fuel _ _ k x l) d h)

  defined_iff :
      (f : Text) (o : Option J)
      → (elim o [ none ↦ refused (required_undefined f) | some y ↦ valid ] ≡ valid)
        ↔ ((y : J) × (o ≡ some y))
  defined_iff f none = (λ h. cc, λ (y, e). cc)
  defined_iff f (some y) = (λ h. (y, refl), λ h. refl)

  required_item_iff : (d : Dict J) (s : Shape J) → (required_item v d s ≡ valid) ↔ Names v d s
  required_item_iff d (string f) =
      let (there, back) = defined_iff f (find f d) in
      (
        λ h. let (y, e) = there h in (f, y, refl, e),
        λ (g, y, e, w). back (y, ap (λ k. find k d) (cc) ∙ w),
      )
  required_item_iff d null_value = (λ h. cc, λ (f, y, e, w). cc)
  required_item_iff d (boolean b) = (λ h. cc, λ (f, y, e, w). cc)
  required_item_iff d number = (λ h. cc, λ (f, y, e, w). cc)
  required_item_iff d (array items) = (λ h. cc, λ (f, y, e, w). cc)
  required_item_iff d (object e) = (λ h. cc, λ (f, y, e, w). cc)

  every_item_iff :
      (d : Dict J) (items : List J)
      → All (λ x. (required_item v d (v.view x) ≡ valid) ↔ Names v d (v.view x)) items
  every_item_iff d [] = tt
  every_item_iff d (x ∷ xs) = (required_item_iff d (v.view x), every_item_iff d xs)

  required_items_iff :
      (d : Dict J) (s : Shape J)
      → (required_items v d s ≡ valid)
        ↔ ((items : List J) × (s ≡ array items) × All (λ x. Names v d (v.view x)) items)
  required_items_iff d (array items) =
      let (there, back) =
        each_iff (λ x. required_item v d (v.view x)) (λ x. Names v d (v.view x)) items
          (every_item_iff d items) in
      (
        λ h. (items, refl, there h),
        λ (xs, e, a). back (subst (All (λ x. Names v d (v.view x))) (cc) a),
      )
  required_items_iff d null_value = (λ h. cc, λ (i, e, a). cc)
  required_items_iff d (boolean b) = (λ h. cc, λ (i, e, a). cc)
  required_items_iff d number = (λ h. cc, λ (i, e, a). cc)
  required_items_iff d (string f) = (λ h. cc, λ (i, e, a). cc)
  required_items_iff d (object e) = (λ h. cc, λ (i, e, a). cc)

  required_fields_iff :
      (d : Dict J) (o : Option J)
      → (required_fields v d o ≡ valid) ↔ (
          (o ≡ none)
          ⊎ ((r : J) × (items : List J) × (o ≡ some r)
              × (v.view r ≡ array items)
              × All (λ x. Names v d (v.view x)) items))
  required_fields_iff d none = (λ h. inl refl, λ h. refl)
  required_fields_iff d (some r) =
      let (there, back) = required_items_iff d (v.view r) in
      (
        λ h. let (items, e, a) = there h in inr (r, items, refl, e, a),
        λ h. elim h [ inl e ↦ cc | inr (q, items, e, w, a) ↦ back (items, ap v.view (cc) ∙ w, a) ],
      )

  additional_iff :
      (o : Option J)
      → (additional_properties v o ≡ valid) ↔ (
          (o ≡ none)
          ⊎ ((a : J) × (o ≡ some a) × ((is_boolean (v.view a) || is_object (v.view a)) ≡ true)))
  additional_iff none = (λ h. inl refl, λ h. refl)
  additional_iff (some a) =
      let (there, back) =
        check_iff (is_boolean (v.view a) || is_object (v.view a)) additional_invalid in
      (
        λ h. inr (a, refl, there h),
        λ h. elim h [
          | inl e ↦ cc
          | inr (b, e, w) ↦ back (ap (λ x. is_boolean (v.view x) || is_object (v.view x)) (cc) ∙ w)
        ],
      )

  input_properties_iff :
      (fuel : ℕ) (schema : J) (d : Dict J)
      → All (λ (e : Text × J). v.size e.1 < fuel) d
      → (input_properties v fuel schema d ≡ valid)
        ↔ ((d ≡ []) ⊎ (All (IsProperty v) d × IsRequired v d schema × IsAdditional v schema))
  input_properties_iff fuel schema [] h = (λ e. inl refl, λ e. refl)
  input_properties_iff fuel schema (e ∷ d) h =
      let props = properties_iff fuel (e ∷ d) h in
      let req = required_fields_iff (e ∷ d) (member v (codes "required") schema) in
      let add = additional_iff (member v (codes "additionalProperties") schema) in
      (
        λ h.
            let (a, r) = (and_then_iff _ _).0 h in
            let (b, c) = (and_then_iff _ _).0 r in inr (props.0 a, req.0 b, add.0 c),
        λ h. elim h [
          | inl e ↦ cc
          | inr (a, b, c) ↦
              (and_then_iff _ _).1 (props.1 a, (and_then_iff _ _).1 (req.1 b, add.1 c))
        ],
      )

  input_object_iff :
      (fuel : ℕ) (schema : J) (s : Shape J)
      → All (λ (e : Text × J). v.size e.1 < fuel) (members s)
      → (input_object v fuel schema s ≡ valid) ↔ (
          (d : Dict J) × (s ≡ object d)
          × ((d ≡ []) ⊎ (All (IsProperty v) d × IsRequired v d schema × IsAdditional v schema)))
  input_object_iff fuel schema (object d) h =
      let (there, back) = input_properties_iff fuel schema d h in
      (
        λ e. (d, refl, there e),
        λ (c, e, a). back (
            subst
              (λ d.
                (d ≡ []) ⊎ (All (IsProperty v) d × IsRequired v d schema × IsAdditional v schema))
              (cc) a),
      )
  input_object_iff fuel schema null_value h = (λ h. cc, λ (d, e, a). cc)
  input_object_iff fuel schema (boolean b) h = (λ h. cc, λ (d, e, a). cc)
  input_object_iff fuel schema number h = (λ h. cc, λ (d, e, a). cc)
  input_object_iff fuel schema (string s) h = (λ h. cc, λ (d, e, a). cc)
  input_object_iff fuel schema (array items) h = (λ h. cc, λ (d, e, a). cc)

  input_members_iff :
      (fuel : ℕ) (schema : J) (o : Option J)
      → member v (codes "properties") schema ≡ o
      → v.size schema ≤ fuel
      → (input_members v fuel schema o ≡ valid) ↔ (
          (p : J) × (d : Dict J) × (o ≡ some p)
          × (v.view p ≡ object d)
          × ((d ≡ []) ⊎ (All (IsProperty v) d × IsRequired v d schema × IsAdditional v schema)))
  input_members_iff fuel schema none e l = (λ h. cc, λ (p, d, e, w, a). cc)
  input_members_iff fuel schema (some p) e l =
      let (there, back) = input_object_iff fuel schema (v.view p) (
        members-Below v (v.view p) p fuel refl
          (omega (arith, member_smaller v (codes "properties") schema e))) in
      (
        λ h. let (d, w, a) = there h in (p, d, refl, w, a),
        λ (q, d, e, w, a). back (d, ap v.view (cc) ∙ w, a),
      )

  is_type_iff : (t : Text) (o : Option Text) → (is_type v t o ≡ true) ↔ (o ≡ some t)
  is_type_iff t none = (λ h. cc, λ h. cc)
  is_type_iff t (some s) = (λ h. ap some (text_eq→eq s t h), λ h. eq→text_eq s t (cc))

  IsInput-iff :
      (fuel : ℕ) (schema : J)
      → v.size schema ≤ fuel
      → (validate_input_schema v fuel schema ≡ valid) ↔ IsInput v schema
  unfolding validate_input_schema
  IsInput-iff fuel schema l =
      let typed = is_type_iff (codes "object") (string_member v (codes "type") schema) in
      let inner = input_members_iff fuel schema _ refl l in
      (
        λ h.
            let (a, b) = (and_then_iff _ _).0 h in
            let (p, d, m, o, i) = inner.0 b in (typed.0 ((check_iff _ _).0 a), p, d, m, o, i),
        λ (a, p, d, m, o, i).
            (and_then_iff _ _).1 ((check_iff _ _).1 (typed.1 a), inner.1 (p, d, m, o, i)),
      )

  pub non_empty_iff :
      (o : Option Text) → (non_empty o ≡ true) ↔ ((s : Text) × (o ≡ some s) × (s ≢ []))
  non_empty_iff none = (λ h. cc, λ (s, e, n). cc)
  non_empty_iff (some []) = (λ h. cc, λ (s, e, n). absurd (n (cc)))
  non_empty_iff (some (c ∷ s)) = (λ h. (c ∷ s, refl, λ e. cc), λ h. refl)

  pub string_field_iff : (key : Text) (x : J) → (string_field v key x ≡ valid) ↔ HasText v key x
  string_field_iff key x =
      let texts = non_empty_iff (string_member v key x) in
      let checked = check_iff (non_empty (string_member v key x)) (field_required key) in
      (λ h. texts.0 (checked.0 h), λ h. checked.1 (texts.1 h))

  schema_iff :
      (fuel : ℕ) (tool : J) (o : Option J)
      → member v (codes "inputSchema") tool ≡ o
      → v.size tool ≤ fuel
      → ((schema_field v o ≡ valid) × (validate_schema_of v fuel o ≡ valid))
        ↔ ((s : J) × (o ≡ some s) × (is_object (v.view s) ≡ true) × IsInput v s)
  schema_iff fuel tool none e l = (λ (a, b). cc, λ (s, e, a, b). cc)
  schema_iff fuel tool (some s) e l =
      let checked = check_iff (is_object (v.view s)) (field_not_object (codes "inputSchema")) in
      let input =
        IsInput-iff fuel s (omega (arith, member_smaller v (codes "inputSchema") tool e)) in
      (
        λ (a, b). (s, refl, checked.0 a, input.0 b),
        λ (r, e, a, b). (
          checked.1 (ap (λ s. is_object (v.view s)) (cc) ∙ a),
          input.1 (subst (IsInput v) (cc) b),
        ),
      )

  -- A tool's description passes the checks just if it has a name, a description and an input schema of
  -- the right form. Of a schema whose properties are empty neither the required names nor the additional
  -- properties count.
  pub validate_tool-IsTool :
      (tool : J) → (validate_tool v (v.size tool) tool ≡ valid) ↔ IsTool v tool
  unfolding validate_tool validate_required_fields
  validate_tool-IsTool tool =
      let named = string_field_iff (codes "name") tool in
      let described = string_field_iff (codes "description") tool in
      let schema = schema_iff (v.size tool) tool _ refl (omega arith) in
      (
        λ h.
            let (a, b) = (and_then_iff _ _).0 h in
            let (c, d) = (and_then_iff _ _).0 a in
            let (e, f) = (and_then_iff _ _).0 d in
            let (s, m, o, i) = schema.0 (f, b) in (named.0 c, described.0 e, s, m, o, i),
        λ (c, e, s, m, o, i).
            let (f, b) = schema.1 (s, m, o, i) in
            (and_then_iff _ _).1
              ((and_then_iff _ _).1 (named.1 c, (and_then_iff _ _).1 (described.1 e, f)), b),
      )
