-- ===== src/Mcp/Schema/Complex.antt =====
-- The checks of nested values against a predicate on the value alone.
use hku_rest.Prelude.{
  subst, ℕ, zero, suc, ◌<◌, ◌≡◌, ◌↔◌, refl, inl, inr, Bool, true, false, Option, none, some, [],
  ◌∷◌, ◌++◌, All, All-map, Bool-cases, if◌then◌else◌, arith,
}
use hku_rest.Prelude.Text.{
  Text, codes, text_eq, text_eq→eq, eq→text_eq, text_eq_false→ne, ne→text_eq_false,
}
use hku_rest.Prelude.Dict.{Dict, find}
use hku_rest.Mcp.Json.{
  JsonView, Shape, null_value, boolean, number, string, array, object, members, member,
  string_member, is_object,
}
use hku_rest.Mcp.Schema.{
  SchemaError, nested_not_object, items_not_object, Outcome, valid, refused, each, validate_complex,
  validate_array_property, validate_nested_object_property, nested_property, nested_properties,
  nested_of_type, array_items, items_of_type,
}
use hku_rest.Mcp.Schema.Checks.{and_then_valid}
use hku_rest.Mcp.Schema.Predicates.{Fits, simple, bare, nested, list, AllFit, all_fit, one_more}

module _ {J : Type 0} (v : JsonView J) where
  find-All :
      (P : J → Type 0) (k : Text) {x : J} (d : Dict J)
      → All (λ (e : Text × J). P e.1) d
      → find k d ≡ some x
      → P x
  unfolding find
  find-All P k [] h e = cc
  find-All P k {x = x} ((j, y) ∷ d) h e = elim (Bool-cases (text_eq j k)) [
    | inl t ↦ subst P (ground arith) h.0
    | inr f ↦ find-All P k d h.1 (ground arith)
  ]

  shape_smaller :
      (k : Text) (j : J) {x : J} (s : Shape J)
      → v.view j ≡ s
      → find k (members s) ≡ some x
      → v.size x < v.size j
  unfolding find
  shape_smaller k j (object d) e h =
      find-All (λ x. v.size x < v.size j) k d (v.members_smaller j d e) h
  shape_smaller k j null_value e h = cc
  shape_smaller k j (boolean b) e h = cc
  shape_smaller k j number e h = cc
  shape_smaller k j (string s) e h = cc
  shape_smaller k j (array items) e h = cc

  -- A member that stands in an object is smaller than it.
  pub member_smaller : (k : Text) (j : J) {x : J} → member v k j ≡ some x → v.size x < v.size j
  member_smaller k j e = shape_smaller k j (v.view j) refl e

  object_of : (s : Shape J) → is_object s ≡ true → (d : Dict J) × (s ≡ object d)
  object_of (object d) h = (d, refl)
  object_of null_value h = cc
  object_of (boolean b) h = cc
  object_of number h = cc
  object_of (string s) h = cc
  object_of (array items) h = cc

  members_valid :
      (f : Text × J → Outcome) (e : SchemaError) (s : Shape J)
      → (if is_object s then each f (members s) else refused e) ≡ valid
      → (d : Dict J) × (s ≡ object d) × (each f d ≡ valid)
  members_valid f e (object d) h = (d, refl, h)
  members_valid f e null_value h = cc
  members_valid f e (boolean b) h = cc
  members_valid f e number h = cc
  members_valid f e (string s) h = cc
  members_valid f e (array items) h = cc

  -- One level of the checks, for any way to check what lies below.
  module _ (rec : Text → Text → J → Outcome) where
    nested_valid :
        (b : Bool) (o : Option Text) (p k : Text) (x : J)
        → (if b then nested_of_type v rec p k x o else refused (nested_not_object p k)) ≡ valid
        → (b ≡ true) × (t : Text) × (o ≡ some t) × (rec t (p ++ (codes "." ++ k)) x ≡ valid)
    nested_valid true (some t) p k x h = (refl, t, refl, h)
    nested_valid true none p k x h = cc
    nested_valid false o p k x h = cc

    array_valid :
        (b : Bool) (o : Option Text) (p : Text) (x : J)
        → (if b then items_of_type v rec p x o else refused (items_not_object p)) ≡ valid
        → (b ≡ true) × (t : Text) × (o ≡ some t) × (rec t (p ++ codes "[]") x ≡ valid)
    array_valid true (some t) p x h = (refl, t, refl, h)
    array_valid true none p x h = cc
    array_valid false o p x h = cc

    module _ (sound : (t p : Text) (x : J) → rec t p x ≡ valid → Fits v t x) where
      each-AllFit : (p : Text) (d : Dict J) → each (nested_property v rec p) d ≡ valid → AllFit v d
      each-AllFit p [] h = all_fit
      each-AllFit p ((k, x) ∷ d) h =
          let (a, b) = and_then_valid _ _ h in
          let (o, t, e, r) = nested_valid _ _ p k x a in
          one_more ((object_of (v.view x) o).1) e (sound t _ x r) (each-AllFit p d b)

      nested-Fits :
          (p t : Text) (x : J) (o : Option J)
          → t ≡ codes "object"
          → member v (codes "properties") x ≡ o
          → nested_properties v rec p o ≡ valid
          → Fits v t x
      nested-Fits p t x none e m h = bare e m
      nested-Fits p t x (some y) e m h =
          let (d, o, a) = members_valid (nested_property v rec p) _ (v.view y) h in
          nested e m o (each-AllFit p d a)

      array-Fits :
          (p t : Text) (x : J) (o : Option J)
          → t ≡ codes "array"
          → member v (codes "items") x ≡ o
          → array_items v rec p o ≡ valid
          → Fits v t x
      array-Fits p t x none e m h = cc
      array-Fits p t x (some i) e m h =
          let (o, u, w, r) = array_valid _ _ p i h in
          list e m ((object_of (v.view i) o).1) w (sound u _ i r)

  pub validate_complex_sound :
      (fuel : ℕ) (t p : Text) (x : J) → validate_complex v fuel t p x ≡ valid → Fits v t x
  unfolding validate_complex validate_array_property validate_nested_object_property
  validate_complex_sound zero t p x h = cc
  validate_complex_sound (suc fuel) t p x h = elim (Bool-cases (text_eq t (codes "object"))) [
    | inl e ↦
        nested-Fits (validate_complex v fuel) (validate_complex_sound fuel) p t x _
          (text_eq→eq t _ e) refl (ground arith)
    | inr f ↦ elim (Bool-cases (text_eq t (codes "array"))) [
      | inl e ↦
          array-Fits (validate_complex v fuel) (validate_complex_sound fuel) p t x _
            (text_eq→eq t _ e) refl (ground arith)
      | inr g ↦ simple (text_eq_false→ne t _ f) (text_eq_false→ne t _ g)
    ]
  ]

  is_object_lem : (s : Shape J) {d : Dict J} → s ≡ object d → is_object s ≡ true
  is_object_lem s e = rw e refl

  bare-valid :
      (rec : Text → Text → J → Outcome) (p : Text) (x : J)
      → member v (codes "properties") x ≡ none
      → validate_nested_object_property v rec p x ≡ valid
  unfolding validate_nested_object_property
  bare-valid rec p x m = rw (m) refl

  -- The same level, from the values that fit and are small enough.
  module _ (rec : Text → Text → J → Outcome) (n : ℕ)
      (complete : (t p : Text) (x : J) → Fits v t x → v.size x < n → rec t p x ≡ valid) where
    AllFit-each :
        (p : Text) (d : Dict J)
        → AllFit v d
        → All (λ (e : Text × J). v.size e.1 < n) d
        → each (nested_property v rec p) d ≡ valid
    AllFit-each p [] all_fit s = refl
    AllFit-each p ((k, x) ∷ d) (one_more o e fits rest) s =
        rw (is_object_lem (v.view x) o, e, complete _ (p ++ (codes "." ++ k)) x fits s.0)
          (AllFit-each p d rest s.1)

    object-valid :
        (p : Text) (x y : J) (d : Dict J)
        → v.size x < suc n
        → member v (codes "properties") x ≡ some y
        → v.view y ≡ object d
        → AllFit v d
        → validate_nested_object_property v rec p x ≡ valid
    unfolding validate_nested_object_property
    object-valid p x y d l m o fits =
        rw (m, o)
          (AllFit-each p d fits (
            All-map (λ e w. omega (arith, member_smaller (codes "properties") x m)) d
              (v.members_smaller y d o)))

    array-valid :
        (p u : Text) (x i : J) (d : Dict J)
        → v.size x < suc n
        → member v (codes "items") x ≡ some i
        → v.view i ≡ object d
        → string_member v (codes "type") i ≡ some u
        → Fits v u i
        → validate_array_property v rec p x ≡ valid
    unfolding validate_array_property
    array-valid p u x i d l m o e fits =
        rw (m, is_object_lem (v.view i) o, e)
          (complete u _ i fits (omega (arith, member_smaller (codes "items") x m)))

  pub validate_complex_complete :
      (fuel : ℕ) (t p : Text) (x : J)
      → Fits v t x
      → v.size x < fuel
      → validate_complex v fuel t p x ≡ valid
  unfolding validate_complex
  validate_complex_complete zero t p x h l = absurd (omega arith)
  validate_complex_complete (suc fuel) t p x (simple a b) l =
      rw (ne→text_eq_false t (codes "object") a, ne→text_eq_false t (codes "array") b) refl
  validate_complex_complete (suc fuel) t p x (bare e m) l =
      rw (eq→text_eq t _ e) (bare-valid (validate_complex v fuel) p x m)
  validate_complex_complete (suc fuel) t p x (nested {p = y} {d = d} e m o a) l =
      rw (eq→text_eq t _ e) (
        object-valid (validate_complex v fuel) fuel (validate_complex_complete fuel) p x y d l m o
          a)
  validate_complex_complete (suc fuel) t p x (list {u = u} {i = i} {d = d} e m o w f) l = rw (e) (
      array-valid (validate_complex v fuel) fuel (validate_complex_complete fuel) p u x i d l m o w
        f)

  -- With fuel beyond the value's size, the checks of a property pass just if its value fits its type.
  pub validate_complex-Fits :
      (fuel : ℕ) (t p : Text) (x : J)
      → v.size x < fuel
      → (validate_complex v fuel t p x ≡ valid) ↔ Fits v t x
  validate_complex-Fits fuel t p x l =
      (validate_complex_sound fuel t p x, λ h. validate_complex_complete fuel t p x h l)
