-- ===== src/Query/Defs.antt =====
-- The parser of hikyuu/httpd/HttpHandle.cpp, byte by byte, with its offsets and lengths.
use hku_rest.Prelude.{
  ℕ, ◌+◌, ◌&&◌, Option, none, some, List, [], ◌∷◌, ltb, leb, ◌==◌, if◌then◌else◌, length, take,
  drop,
}
use hku_rest.Prelude.Text.{Text, text_eq, after}

-- The error codes that the parser returns.
pub data QueryError : Type 0 where
  too_long_url too_many_query_params invalid_url miss_parameter : QueryError

-- `fault` is a read past the end of the query, which the source does not prevent.
pub data Outcome {ℓ} (A : Type ℓ) : Type ℓ where
  ok : A → Outcome A
  err : QueryError → Outcome A
  fault : Outcome A

infixl 5 ◌>>=◌
abbrev pub ◌>>=◌ {ℓ κ} : {A : Type ℓ} {B : Type κ} → Outcome A → (A → Outcome B) → Outcome B
ok a >>= f = f a
err e >>= f = err e
fault >>= f = fault

-- `std::unordered_map<std::string, std::string>`, whose order the program never reads.
abbrev pub QueryParams : Type 0
QueryParams = List (Text × Text)

-- `query_params[k] = v`
unfoldable pub assign : Text → Text → QueryParams → QueryParams
assign k v [] = (k, v) ∷ []
assign k v ((j, w) ∷ ps) = if text_eq j k then (j, v) ∷ ps else (j, w) ∷ assign k v ps

-- `find`
unfoldable pub lookup : Text → QueryParams → Option Text
lookup k [] = none
lookup k ((j, w) ∷ ps) = if text_eq j k then some w else lookup k ps

pub data Mode : Type 0 where
  s_key s_value : Mode

abbrev pub max_url_length : ℕ
max_url_length = 8192

abbrev pub max_query_params : ℕ
max_query_params = 100

-- `key` and `value` are offsets into the query; `value` is only read where `value_len` is not 0,
-- which is after it was set.
pub record Scan : Type 0 where
  pub mode : Mode
  pub key : ℕ
  pub value : ℕ
  pub key_len : ℕ
  pub value_len : ℕ
  pub param_count : ℕ
  pub params : QueryParams

abbrev pub init_scan : Scan
init_scan = record {
  mode = s_key;
  key = 0;
  value = 0;
  key_len = 0;
  value_len = 0;
  param_count = 0;
  params = [];
}

-- `std::string(p + offset, len)`, a fault where it would read behind the query.
unfoldable pub slice : Text → ℕ → ℕ → Outcome Text
slice query offset len =
    if leb (offset + len) (length query) then ok (take len (drop offset query)) else fault

abbrev pub next_param : ℕ → Scan → Scan
next_param idx s = record s { key_len = 0; value_len = 0; mode = s_key; key = idx + 1 }

abbrev pub start_value : ℕ → Scan → Scan
start_value idx s = record s { mode = s_value; value = idx + 1 }

abbrev pub grow : Mode → Scan → Scan
grow s_key s = record s { key_len = s.key_len + 1 }
grow s_value s = record s { value_len = s.value_len + 1 }

abbrev pub params_of : Scan → Outcome QueryParams
params_of s = ok s.params

-- `getQueryParam`, which takes a failed parse for no parameters at all.
abbrev pub or_empty : Outcome QueryParams → Outcome QueryParams
or_empty (ok ps) = ok ps
or_empty (err e) = ok []
or_empty fault = fault

abbrev pub found : Option Text → Outcome Text
found none = err miss_parameter
found (some v) = ok v

module _ (url_unescape : Text → Text) where
  -- The parameter that ends here, at a `&` or at the end of the query.
  unfoldable pub flush : Text → Scan → Outcome Scan
  unfolding slice
  flush query s =
      if ltb 0 s.key_len && ltb 0 s.value_len
      then (if ltb max_query_params (s.param_count + 1) then err too_many_query_params else (do
        strkey ← slice query s.key s.key_len
        strvalue ← slice query s.value s.value_len
        ok (record s {
          param_count = s.param_count + 1;
          params = assign (url_unescape strkey) (url_unescape strvalue) s.params;
        })))
      else if ltb 0 s.key_len && s.value_len == 0
      then err invalid_url
      else ok s

  -- The loop over the rest of the query, which begins at offset `idx`.
  unfoldable pub scan : Text → Text → ℕ → Scan → Outcome Scan
  unfolding flush
  scan query [] idx s = ok s
  scan query (c ∷ rest) idx s =
      let at_amp = (do s' ← flush query s; scan query rest (idx + 1) (next_param idx s')) in
      let at_eq = scan query rest (idx + 1) (start_value idx s) in
      let at_other = scan query rest (idx + 1) (grow s.mode s) in
      if c == b'&' then at_amp else if c == b'=' then at_eq else at_other

  -- The parameter that the end of the query ends, and the map.
  abbrev pub finish : Text → Outcome Scan → Outcome QueryParams
  finish query m = do s ← m; s' ← flush query s; params_of s'

  unfoldable pub parse_query : Text → Outcome QueryParams
  unfolding scan
  parse_query query = finish query (scan query query 0 init_scan)

  parse_after : Option Text → Outcome QueryParams
  unfolding parse_query
  parse_after none = ok []
  parse_after (some query) = parse_query query

  -- `getQueryParams`: of an empty query the loop makes nothing.
  unfoldable pub get_query_params : Text → Outcome QueryParams
  unfolding parse_after
  get_query_params target =
      if ltb max_url_length (length target)
      then err too_long_url
      else parse_after (after b'?' target)

  unfoldable pub get_query_param : Text → Text → Outcome Text
  get_query_param target name = do ps ← or_empty (get_query_params target); found (lookup name ps)
