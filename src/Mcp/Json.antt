-- ===== src/Mcp/Json.antt =====
-- A JSON value as hikyuu/mcp reads it. The library is nlohmann's: it is taken as a type with a view,
-- in which an object lists its members in the order of iteration.
use hku_rest.Prelude.{ℕ, ◌<◌, Bool, true, false, Option, none, some, List, [], ◌≡◌, All}
use hku_rest.Prelude.Text.{Text}
use hku_rest.Prelude.Dict.{Dict, find}

pub data Shape (J : Type 0) : Type 0 where
  null_value : Shape J
  boolean : Bool → Shape J
  number : Shape J
  string : Text → Shape J
  array : List J → Shape J
  object : Dict J → Shape J

-- No number is looked at. Values are finite trees, so a member is smaller than its object.
pub record JsonView (J : Type 0) : Type 0 where
  pub view : J → Shape J
  pub size : J → ℕ
  pub members_smaller :
      (j : J) (d : Dict J) → view j ≡ object d → All (λ (e : Text × J). size e.1 < size j) d

module _ {J : Type 0} where
  abbrev pub members : Shape J → Dict J
  members (object d) = d
  members _ = []

  abbrev pub is_object : Shape J → Bool
  is_object (object d) = true
  is_object _ = false

  abbrev pub is_array : Shape J → Bool
  is_array (array items) = true
  is_array _ = false

  abbrev pub is_string : Shape J → Bool
  is_string (string s) = true
  is_string _ = false

  abbrev pub is_boolean : Shape J → Bool
  is_boolean (boolean b) = true
  is_boolean _ = false

  abbrev pub as_string : Shape J → Option Text
  as_string (string s) = some s
  as_string _ = none

  -- `j.contains(key)` with `j[key]`: none for a value that is no object.
  abbrev pub member : JsonView J → Text → J → Option J
  member v key j = find key (members (v.view j))

  abbrev pub string_of : JsonView J → Option J → Option Text
  string_of v none = none
  string_of v (some x) = as_string (v.view x)

  -- `j.contains(key) && j[key].is_string()`, with the text.
  abbrev pub string_member : JsonView J → Text → J → Option Text
  string_member v key j = string_of v (member v key j)

  -- `!j.contains(key) || j[key].is_string()`
  abbrev pub string_or_missing : JsonView J → Option J → Bool
  string_or_missing v none = true
  string_or_missing v (some x) = is_string (v.view x)
