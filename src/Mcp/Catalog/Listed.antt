-- ===== src/Mcp/Catalog/Listed.antt =====
-- What the service lists: hikyuu/mcp/McpService.cpp and McpService.h.
use hku_rest.Prelude.{
  subst, ℕ, suc, ◌≡◌, ◌↔◌, ◌⊎◌, ◌∙◌, ap, refl, inl, inr, Bool, true, false, not, Option, none, some,
  List, [], ◌∷◌, All, All-append, Bool-cases,
}
use hku_rest.Prelude.Text.{Text, codes}
use hku_rest.Mcp.Json.{
  JsonView, Shape, null_value, boolean, number, string, array, object, member, string_member,
  string_or_missing, is_object, is_array,
}
use hku_rest.Mcp.Schema.{
  Outcome, valid, out_of_fuel, refused, non_empty, validate_tool, argument_not_object,
  argument_without_name, argument_description, argument_required, field_not_array,
}
use hku_rest.Mcp.Schema.Checks.{and_then_iff, check_iff}
use hku_rest.Mcp.Schema.Predicates.{HasText, IsTool}
use hku_rest.Mcp.Schema.Tool.{validate_tool-IsTool, non_empty_iff, string_field_iff}
use hku_rest.Mcp.Catalog.{
  Service, Method, add_tool_description, add_prompt, add_resource, stored, unless_thrown,
  add_checked, with_tool, validate_resource, add_all, add_tool_descriptions, add_prompts,
  add_resources, add_tool, elements, validate_prompt, validate_prompt_argument, prompt_arguments,
  validate_arguments_of, validate_prompt_arguments, array_or_missing, boolean_or_missing,
}

module _ {J : Type 0} (v : JsonView J) where
  -- An argument of a prompt: an object with a name, whose description, if any, is a text and whose
  -- `required`, if any, is a Boolean.
  abbrev pub IsArgument : J → Type 0
  IsArgument arg =
      (is_object (v.view arg) ≡ true)
      × HasText v (codes "name") arg
      × (string_or_missing v (member v (codes "description") arg) ≡ true)
      × (boolean_or_missing v (member v (codes "required") arg) ≡ true)

  -- A prompt has a name and a description; its arguments, if any, are a list of arguments.
  abbrev pub IsPrompt : J → Type 0
  IsPrompt x =
      HasText v (codes "name") x
      × HasText v (codes "description") x
      × ((member v (codes "arguments") x ≡ none)
          ⊎ ((a : J) × (items : List J) × (member v (codes "arguments") x ≡ some a)
              × (v.view a ≡ array items)
              × All IsArgument items))

  IsArgument-iff : (i : ℕ) (arg : J) → (validate_prompt_argument v i arg ≡ valid) ↔ IsArgument arg
  unfolding validate_prompt_argument
  IsArgument-iff i arg =
      let object = check_iff (is_object (v.view arg)) (argument_not_object i) in
      let named =
        check_iff (non_empty (string_member v (codes "name") arg)) (argument_without_name i) in
      let texts = non_empty_iff v (string_member v (codes "name") arg) in
      let described =
        check_iff (string_or_missing v (member v (codes "description") arg))
          (argument_description i) in
      let needed =
        check_iff (boolean_or_missing v (member v (codes "required") arg)) (argument_required i) in
      (
        λ h.
            let (a, r) = (and_then_iff _ _).0 h in
            let (b, q) = (and_then_iff _ _).0 r in
            let (c, d) = (and_then_iff _ _).0 q in
            (object.0 a, texts.0 (named.0 b), described.0 c, needed.0 d),
        λ (a, b, c, d). (and_then_iff _ _).1 (
          object.1 a,
          (and_then_iff _ _).1
              (named.1 (texts.1 b), (and_then_iff _ _).1 (described.1 c, needed.1 d)),
        ),
      )

  arguments_iff :
      (i : ℕ) (items : List J) → (prompt_arguments v i items ≡ valid) ↔ All IsArgument items
  arguments_iff i [] = (λ h. tt, λ h. refl)
  arguments_iff i (x ∷ xs) =
      let first = IsArgument-iff i x in
      let rest = arguments_iff (suc i) xs in
      (
        λ h. let (a, b) = (and_then_iff _ _).0 h in (first.0 a, rest.0 b),
        λ (a, b). (and_then_iff _ _).1 (first.1 a, rest.1 b),
      )

  array_iff :
      (s : Shape J)
      → ((is_array s ≡ true) × (validate_prompt_arguments v s ≡ valid))
        ↔ ((items : List J) × (s ≡ array items) × All IsArgument items)
  array_iff (array items) =
      let all = arguments_iff 0 items in
      (
        λ (a, b). (items, refl, all.0 b),
        λ (xs, e, a). (refl, all.1 (subst (All IsArgument) (cc) a)),
      )
  array_iff null_value = (λ (a, b). cc, λ (xs, e, a). cc)
  array_iff (boolean b) = (λ (a, b). cc, λ (xs, e, a). cc)
  array_iff number = (λ (a, b). cc, λ (xs, e, a). cc)
  array_iff (string s) = (λ (a, b). cc, λ (xs, e, a). cc)
  array_iff (object d) = (λ (a, b). cc, λ (xs, e, a). cc)

  arguments_of_iff :
      (o : Option J)
      → ((array_or_missing v o ≡ true) × (validate_arguments_of v o ≡ valid)) ↔ (
          (o ≡ none)
          ⊎ ((a : J) × (items : List J) × (o ≡ some a)
              × (v.view a ≡ array items)
              × All IsArgument items))
  arguments_of_iff none = (λ h. inl refl, λ h. (refl, refl))
  arguments_of_iff (some a) =
      let inner = array_iff (v.view a) in
      (
        λ h. let (items, e, i) = inner.0 h in inr (a, items, refl, e, i),
        λ h. elim h [
          | inl e ↦ cc
          | inr (b, items, e, w, i) ↦ inner.1 (items, ap v.view (cc) ∙ w, i)
        ],
      )

  -- A prompt's description passes the checks just if it is right in itself.
  pub validate_prompt-IsPrompt : (x : J) → (validate_prompt v x ≡ valid) ↔ IsPrompt x
  unfolding validate_prompt
  validate_prompt-IsPrompt x =
      let named = string_field_iff v (codes "name") x in
      let described = string_field_iff v (codes "description") x in
      let listed =
        check_iff (array_or_missing v (member v (codes "arguments") x))
          (field_not_array (codes "arguments")) in
      let inner = arguments_of_iff (member v (codes "arguments") x) in
      (
        λ h.
            let (a, r) = (and_then_iff _ _).0 h in
            let (b, q) = (and_then_iff _ _).0 a in
            let (c, d) = (and_then_iff _ _).0 q in
            (named.0 b, described.0 c, inner.0 (listed.0 d, r)),
        λ (b, c, i).
            let (d, r) = inner.1 i in
            (and_then_iff _ _).1 (
              (and_then_iff _ _).1 (named.1 b, (and_then_iff _ _).1 (described.1 c, listed.1 d)),
              r,
            ),
      )

-- The calls that register something, as they stand in the two files.
pub data Registration (J : Type 0) : Type 0 where
  one_tool one_prompt one_resource tools_array prompts_array resources_object : J → Registration J
  tool_list prompt_list resource_list : List J → Registration J
  a_tool : Text → Method J → Registration J

module _ {J : Type 0} (v : JsonView J) (cls_check : Bool → Bool) where
  abbrev pub register : Registration J → Service J → Service J
  register (one_tool x) s = (add_tool_description v x s).1
  register (one_prompt x) s = (add_prompt v x s).1
  register (one_resource x) s = (add_resource v x s).1
  register (tools_array x) s = (add_tool_descriptions v cls_check x s).1
  register (prompts_array x) s = (add_prompts v cls_check x s).1
  register (resources_object x) s = (add_resources v cls_check x s).1
  register (tool_list xs) s = (add_all v (add_tool_description v) xs s).1
  register (prompt_list xs) s = (add_all v (add_prompt v) xs s).1
  register (resource_list xs) s = (add_all v (add_resource v) xs s).1
  register (a_tool name method) s = add_tool name method s

  abbrev pub register_all : List (Registration J) → Service J → Service J
  register_all [] s = s
  register_all (r ∷ rest) s = register_all rest (register r s)

  abbrev pub IsListed : Service J → Type 0
  IsListed s = All (IsTool v) s.tool_descriptions × All (IsPrompt v) s.prompt_descriptions

  stored-IsListed :
      (o : Outcome) (new s : Service J)
      → (o ≡ valid → IsListed new)
      → IsListed s
      → IsListed (stored v o new s).1
  stored-IsListed valid new s f h = f refl
  stored-IsListed out_of_fuel new s f h = h
  stored-IsListed (refused e) new s f h = h

  tool-IsListed : (x : J) (s : Service J) → IsListed s → IsListed (add_tool_description v x s).1
  unfolding add_tool_description
  tool-IsListed x s h =
      stored-IsListed (validate_tool v (v.size x) x) _ s
        (λ e. (
          All-append (IsTool v) s.tool_descriptions (x ∷ []) h.0
              ((validate_tool-IsTool v x).0 e, tt),
          h.1,
        ))
        h

  prompt-IsListed : (x : J) (s : Service J) → IsListed s → IsListed (add_prompt v x s).1
  unfolding add_prompt
  prompt-IsListed x s h =
      stored-IsListed (validate_prompt v x) _ s
        (λ e. (
          h.0,
          All-append (IsPrompt v) s.prompt_descriptions (x ∷ []) h.1
              ((validate_prompt-IsPrompt v x).0 e, tt),
        ))
        h

  resource-IsListed : (x : J) (s : Service J) → IsListed s → IsListed (add_resource v x s).1
  unfolding add_resource
  resource-IsListed x s h = stored-IsListed (validate_resource v x) _ s (λ e. h) h

  thrown-IsListed :
      (r next : Outcome × Service J)
      → IsListed r.1
      → IsListed next.1
      → IsListed (unless_thrown v r next).1
  thrown-IsListed (valid, s) next h k = k
  thrown-IsListed (out_of_fuel, s) next h k = h
  thrown-IsListed (refused e, s) next h k = h

  all-IsListed :
      (add : J → Service J → Outcome × Service J)
      → ((x : J) (s : Service J) → IsListed s → IsListed (add x s).1)
      → (xs : List J) (s : Service J) → IsListed s
      → IsListed (add_all v add xs s).1
  all-IsListed add keep [] s h = h
  all-IsListed add keep (x ∷ xs) s h =
      thrown-IsListed (add x s) _ (keep x s h) (all-IsListed add keep xs (add x s).1 (keep x s h))

  checked-IsListed :
      (b : Bool) (add : J → Service J → Outcome × Service J)
      → ((x : J) (s : Service J) → IsListed s → IsListed (add x s).1)
      → (x : J) (s : Service J) → IsListed s
      → IsListed (add_checked v cls_check b add x s).1
  checked-IsListed b add keep x s h = elim (Bool-cases (cls_check b)) [
    | inl t ↦ rw t (all-IsListed add keep (elements v x (v.view x)) s h)
    | inr f ↦ rw f h
  ]

  resources-IsListed :
      (x : J) (s : Service J) → IsListed s → IsListed (add_resources v cls_check x s).1
  unfolding add_resources
  resources-IsListed x s h = elim (Bool-cases (cls_check (not (is_object (v.view x))))) [
    | inl t ↦ rw t h
    | inr f ↦ rw f h
  ]

  with_tool-IsListed :
      (o : Option (Method J)) (name : Text) (method : Method J) (s : Service J)
      → IsListed s
      → IsListed (with_tool o name method s)
  with_tool-IsListed none name method s h = h
  with_tool-IsListed (some old) name method s h = h

  register-IsListed : (r : Registration J) (s : Service J) → IsListed s → IsListed (register r s)
  unfolding add_tool_descriptions add_prompts add_resources
  register-IsListed (one_tool x) s h = tool-IsListed x s h
  register-IsListed (one_prompt x) s h = prompt-IsListed x s h
  register-IsListed (one_resource x) s h = resource-IsListed x s h
  register-IsListed (tools_array x) s h =
      checked-IsListed (not (is_array (v.view x))) (add_tool_description v) tool-IsListed x s h
  register-IsListed (prompts_array x) s h =
      checked-IsListed (not (is_array (v.view x))) (add_prompt v) prompt-IsListed x s h
  register-IsListed (resources_object x) s h = resources-IsListed x s h
  register-IsListed (tool_list xs) s h = all-IsListed (add_tool_description v) tool-IsListed xs s h
  register-IsListed (prompt_list xs) s h = all-IsListed (add_prompt v) prompt-IsListed xs s h
  register-IsListed (resource_list xs) s h = all-IsListed (add_resource v) resource-IsListed xs s h
  register-IsListed (a_tool name method) s h = with_tool-IsListed _ name method s h

  -- Whatever is registered, and in whatever order, the tools and the prompts that the service lists
  -- have the form that the checks ask for: a description that fails one is never listed.
  pub register_all-IsListed :
      (rs : List (Registration J)) (s : Service J) → IsListed s → IsListed (register_all rs s)
  register_all-IsListed [] s h = h
  register_all-IsListed (r ∷ rs) s h =
      register_all-IsListed rs (register r s) (register-IsListed r s h)

  -- Where `CLS_CHECK` throws on a condition that does not hold, the overloads of
  -- `addToolDescriptions` and `addPrompts` for one JSON value throw on every array, right or not,
  -- and change nothing; and so does that of `addResources` on every object.
  pub add_tool_descriptions_throws :
      cls_check false ≡ false
      → (x : J) (s : Service J)
      → (is_array (v.view x) ≡ true
          → (add_tool_descriptions v cls_check x s ≡ (none, s))
            × (add_prompts v cls_check x s ≡ (none, s)))
        × (is_object (v.view x) ≡ true → add_resources v cls_check x s ≡ (false, s))
  unfolding add_tool_descriptions add_prompts add_resources
  add_tool_descriptions_throws c x s = (λ e. rw (e, c) (refl, refl), λ e. rw (e, c) refl)
