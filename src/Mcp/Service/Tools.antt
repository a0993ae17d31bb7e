-- ===== src/Mcp/Service/Tools.antt =====
-- `tools/call` of hikyuu/mcp/McpService.cpp.
use hku_rest.Prelude.{ℕ, ◌≡◌, ◌↔◌, ◌∙◌, refl, sym, ap, Option, some, none, []}
use hku_rest.Prelude.Text.{Text, codes}
use hku_rest.Prelude.Dict.{Dict, find}
use hku_rest.Mcp.{Mcp, McpCode}
use hku_rest.Mcp.Json.{JsonView, Shape, null_value, boolean, number, string, array, object}
use hku_rest.Mcp.Catalog.{Answer, result, failed, threw, Method, Service}
use hku_rest.Mcp.Service.{
  JsonMaker, or_else, text_or_empty, text_in, value_in, tool_answer, call_tool, call_named,
  tools_call_method,
}

module _ {J : Type 0} (v : JsonView J) (make : JsonMaker J v) (now : ℕ) where
  -- The tool that the parameters name exists, and answers with a result.
  abbrev pub Succeeds : Service J → J → Text → Mcp J → J → Mcp J → Type 0
  Succeeds s params id m x m' =
      (d : Dict J) × (name : Text) × (method : Method J) × (v.view params ≡ object d)
      × (text_or_empty v make (find (codes "name") d) ≡ some name)
      × (find name s.tools ≡ some method)
      × (method (or_else v make (find (codes "arguments") d) (make.object_value [])) id m
          ≡ (result x, m'))

  failed_apart :
      {A : Type 0} (code : McpCode) (m m' : Mcp J) (x : J)
      → ◌≡◌ {A = Answer J × Mcp J} (failed code, m) (result x, m')
      → A
  failed_apart code m m' x h = let e : failed code ≡ result x = ap (λ p. p.0) h in cc

  threw_apart :
      {A : Type 0} (m m' : Mcp J) (x : J) → ◌≡◌ {A = Answer J × Mcp J} (threw, m) (result x, m') → A
  threw_apart m m' x h = let e : threw ≡ result x = ap (λ p. p.0) h in cc

  tool_answer_iff :
      (r : Answer J × Mcp J) (x : J) (m' : Mcp J)
      → (tool_answer v make now r ≡ (result x, m')) ↔ (r ≡ (result x, m'))
  tool_answer_iff (result y, m) x m' = (λ h. h, λ h. h)
  tool_answer_iff (failed code, m) x m' = (failed_apart _ m m' x, failed_apart code m m' x)
  tool_answer_iff (threw, m) x m' = (failed_apart _ m m' x, threw_apart m m' x)

  called_iff :
      (s : Service J) (name : Option Text) (arguments : J) (id : Text) (m m' : Mcp J) (x : J)
      → (call_named v make now name (some arguments) s id m ≡ (result x, m')) ↔ (
          (k : Text) × (method : Method J) × (name ≡ some k)
          × (find k s.tools ≡ some method)
          × (method arguments id m ≡ (result x, m')))
  called_iff s none arguments id m m' x = (failed_apart _ m m' x, λ (k, f, e, w, a). cc)
  called_iff s (some k) arguments id m m' x = found (find k s.tools) refl
    where
      apart : (f : Method J) → ◌≡◌ {A = Option (Method J)} none (some f) → ⊥
      apart f h = cc

      found :
          (o : Option (Method J))
          → find k s.tools ≡ o
          → (call_tool v make now o arguments id m ≡ (result x, m')) ↔ (
              (j : Text) × (method : Method J) × (some k ≡ some j)
              × (find j s.tools ≡ some method)
              × (method arguments id m ≡ (result x, m')))
      found none e = (
        failed_apart _ m m' x,
        λ (j, f, q, w, a).
            let same : k ≡ j = cc in
            let none_found : none ≡ some f = sym e ∙ ap (λ z. find z s.tools) same ∙ w in
            absurd (apart f none_found),
      )
      found (some f) e =
          let answered = tool_answer_iff (f arguments id m) x m' in
          (
            λ h. (k, f, refl, e, answered.0 h),
            λ (j, g, q, w, a).
                let same : k ≡ j = cc in
                let both : some f ≡ some g = sym e ∙ ap (λ z. find z s.tools) same ∙ w in
                let one : f ≡ g = cc in answered.1 (ap (λ h. h arguments id m) one ∙ a),
          )

  -- A call of a tool succeeds just if the parameters are an object whose `name` is a text, or is
  -- missing, the tool of that name (the empty one, if it is missing) exists, and it answers with a
  -- result; the arguments that are missing are an empty object.
  pub tools_call_method-Succeeds :
      (s : Service J) (params : J) (id : Text) (m m' : Mcp J) (x : J)
      → (tools_call_method v make now s params id m ≡ (result x, m')) ↔ Succeeds s params id m x m'
  unfolding tools_call_method
  tools_call_method-Succeeds s params id m m' x = shaped (v.view params)
    where
      shaped :
          (o : Shape J)
          → (call_named v make now
                (text_in v make o (codes "name"))
                (value_in v make o (codes "arguments") (make.object_value []))
                s
                id
                m
              ≡ (result x, m'))
            ↔ ((d : Dict J) × (name : Text) × (method : Method J) × (o ≡ object d)
                × (text_or_empty v make (find (codes "name") d) ≡ some name)
                × (find name s.tools ≡ some method)
                × (method (or_else v make (find (codes "arguments") d) (make.object_value [])) id m
                    ≡ (result x, m')))
      shaped (object d) =
          let called =
            called_iff s (text_or_empty v make (find (codes "name") d))
              (or_else v make (find (codes "arguments") d) (make.object_value [])) id m m' x in
          (
            λ h. let (k, f, e, w, a) = called.0 h in (d, k, f, refl, e, w, a),
            λ (c, k, f, o, e, w, a).
                let same : c ≡ d = cc in
                called.1 (
                  k,
                  f,
                  ap (λ d. text_or_empty v make (find (codes "name") d)) (sym same) ∙ e,
                  w,
                  ap
                        (λ d.
                          f (or_else v make (find (codes "arguments") d) (make.object_value [])) id
                            m)
                        (sym same)
                      ∙ a,
                ),
          )
      shaped null_value = (failed_apart _ m m' x, λ (d, k, f, o, e, w, a). cc)
      shaped (boolean b) = (failed_apart _ m m' x, λ (d, k, f, o, e, w, a). cc)
      shaped number = (failed_apart _ m m' x, λ (d, k, f, o, e, w, a). cc)
      shaped (string t) = (failed_apart _ m m' x, λ (d, k, f, o, e, w, a). cc)
      shaped (array items) = (failed_apart _ m m' x, λ (d, k, f, o, e, w, a). cc)
