-- ===== src/Mcp/Value.antt =====
-- A type of JSON values of our own, which shows that the library's view can be had.
use hku_rest.Prelude.{
  ℕ, suc, ◌+◌, ◌<◌, ◌≤◌, ◌≡◌, refl, ap, subst, Bool, List, [], ◌∷◌, All, All-map, arith,
}
use hku_rest.Prelude.Text.{Text}
use hku_rest.Prelude.Dict.{Dict, find}
use hku_rest.Mcp.Json.{JsonView, Shape, null_value, boolean, number, string, array, object}
use hku_rest.Mcp.Service.{JsonMaker}

mutual
  pub data Value : Type 0 where
    nothing : Value
    flag : Bool → Value
    numeral : ℕ → Value
    text : Text → Value
    list_of : Values → Value
    record_of : Fields → Value

  pub data Values : Type 0 where
    nil : Values
    cons : Value → Values → Values

  pub data Fields : Type 0 where
    end : Fields
    field : Text → Value → Fields → Fields

unfoldable mutual
  pub size : Value → ℕ
  size (list_of xs) = suc (size_items xs)
  size (record_of fs) = suc (size_fields fs)
  size nothing = 1
  size (flag b) = 1
  size (numeral n) = 1
  size (text s) = 1

  pub size_items : Values → ℕ
  size_items nil = 0
  size_items (cons x xs) = size x + size_items xs

  pub size_fields : Fields → ℕ
  size_fields end = 0
  size_fields (field k x fs) = size x + size_fields fs

abbrev pub items : Values → List Value
items nil = []
items (cons x xs) = x ∷ items xs

abbrev pub entries : Fields → Dict Value
entries end = []
entries (field k x fs) = (k, x) ∷ entries fs

abbrev pub fields : Dict Value → Fields
fields [] = end
fields ((k, x) ∷ d) = field k x (fields d)

abbrev pub values : List Value → Values
values [] = nil
values (x ∷ xs) = cons x (values xs)

abbrev pub shape : Value → Shape Value
shape nothing = null_value
shape (flag b) = boolean b
shape (numeral n) = number
shape (text s) = string s
shape (list_of xs) = array (items xs)
shape (record_of fs) = object (entries fs)

entries_below : (fs : Fields) → All (λ (e : Text × Value). size e.1 ≤ size_fields fs) (entries fs)
unfolding size
entries_below end = tt
entries_below (field k x fs) =
    (omega arith, All-map (λ e h. omega arith) (entries fs) (entries_below fs))

pub smaller :
    (j : Value) (d : Dict Value)
    → shape j ≡ object d
    → All (λ (e : Text × Value). size e.1 < size j) d
unfolding size
smaller (record_of fs) d h =
    subst (All (λ (e : Text × Value). size e.1 < suc (size_fields fs))) (cc)
      (All-map (λ e l. omega arith) (entries fs) (entries_below fs))
smaller nothing d h = cc
smaller (flag b) d h = cc
smaller (numeral n) d h = cc
smaller (text s) d h = cc
smaller (list_of xs) d h = cc

pub entries-fields : (d : Dict Value) → entries (fields d) ≡ d
entries-fields [] = refl
entries-fields ((k, x) ∷ d) = ap (◌∷◌ (k, x)) (entries-fields d)

pub items-values : (xs : List Value) → items (values xs) ≡ xs
items-values [] = refl
items-values (x ∷ xs) = ap (◌∷◌ x) (items-values xs)

abbrev pub value_view : JsonView Value
value_view = record { view = shape; size = size; members_smaller = smaller }

abbrev pub value_maker : JsonMaker Value value_view
value_maker = record {
  object_value = λ d. record_of (fields d);
  text_value = text;
  number_value = numeral;
  boolean_value = flag;
  array_value = λ xs. list_of (values xs);
  null = nothing;
  array_made = λ xs. ap array (items-values xs);
  member_made = λ k d h. ap (find k) (entries-fields d);
}
