-- ===== src/Mcp/Schema/Predicates.antt =====
-- What the checks demand of a description, said of the description alone.
use hku_rest.Prelude.{◌≡◌, ◌≢◌, ◌⊎◌, true, ◌||◌, none, some, List, [], ◌∷◌, All}
use hku_rest.Prelude.Text.{Text, codes}
use hku_rest.Prelude.Dict.{Dict, find}
use hku_rest.Mcp.Json.{
  JsonView, Shape, string, array, object, member, string_member, string_or_missing, is_object,
  is_boolean,
}
use hku_rest.Mcp.Schema.{valid_type}

module _ {J : Type 0} (v : JsonView J) where
  mutual
    -- A value fits its type: an object's properties, if it gives any, are objects with a type that
    -- they fit, and an array says of what type its items are, which fit it.
    pub data Fits : Text → J → Type 0 where
      simple : {t : Text} {x : J} → t ≢ codes "object" → t ≢ codes "array" → Fits t x
      bare :
          {t : Text} {x : J}
          → t ≡ codes "object"
          → member v (codes "properties") x ≡ none
          → Fits t x
      nested :
          {t : Text} {x p : J} {d : Dict J}
          → t ≡ codes "object"
          → member v (codes "properties") x ≡ some p
          → v.view p ≡ object d
          → AllFit d
          → Fits t x
      list :
          {t u : Text} {x i : J} {d : Dict J}
          → t ≡ codes "array"
          → member v (codes "items") x ≡ some i
          → v.view i ≡ object d
          → string_member v (codes "type") i ≡ some u
          → Fits u i
          → Fits t x

    pub data AllFit : Dict J → Type 0 where
      all_fit : AllFit []
      one_more :
          {k t : Text} {x : J} {d e : Dict J}
          → v.view x ≡ object e
          → string_member v (codes "type") x ≡ some t
          → Fits t x
          → AllFit d
          → AllFit ((k, x) ∷ d)

  -- A property: an object of a known type that it fits, whose description, if any, is a text.
  abbrev pub IsProperty : Text × J → Type 0
  IsProperty (k, x) =
      (is_object (v.view x) ≡ true)
      × (t : Text) × (string_member v (codes "type") x ≡ some t)
      × (valid_type t ≡ true)
      × Fits t x
      × (string_or_missing v (member v (codes "description") x) ≡ true)

  -- A text that names one of the properties.
  abbrev pub Names : Dict J → Shape J → Type 0
  Names d s = (f : Text) × (y : J) × (s ≡ string f) × (find f d ≡ some y)

  -- The required names, if any, are a list of texts that name properties.
  abbrev pub IsRequired : Dict J → J → Type 0
  IsRequired d schema =
      (member v (codes "required") schema ≡ none)
      ⊎ ((r : J) × (items : List J) × (member v (codes "required") schema ≡ some r)
          × (v.view r ≡ array items)
          × All (λ x. Names d (v.view x)) items)

  abbrev pub IsAdditional : J → Type 0
  IsAdditional schema =
      (member v (codes "additionalProperties") schema ≡ none)
      ⊎ ((a : J) × (member v (codes "additionalProperties") schema ≡ some a)
          × ((is_boolean (v.view a) || is_object (v.view a)) ≡ true))

  -- The schema's own type is `object`, and its properties, required names and additional properties
  -- are right; without properties, the other two are not looked at.
  abbrev pub IsInput : J → Type 0
  IsInput schema =
      (string_member v (codes "type") schema ≡ some (codes "object"))
      × (p : J) × (d : Dict J) × (member v (codes "properties") schema ≡ some p)
      × (v.view p ≡ object d)
      × ((d ≡ []) ⊎ (All IsProperty d × IsRequired d schema × IsAdditional schema))

  -- A member that is a text and not empty.
  abbrev pub HasText : Text → J → Type 0
  HasText key x = (s : Text) × (string_member v key x ≡ some s) × (s ≢ [])

  abbrev pub IsTool : J → Type 0
  IsTool tool =
      HasText (codes "name") tool
      × HasText (codes "description") tool
      × (schema : J) × (member v (codes "inputSchema") tool ≡ some schema)
      × (is_object (v.view schema) ≡ true)
      × IsInput schema
