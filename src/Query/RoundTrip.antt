-- ===== src/Query/RoundTrip.antt =====
-- What `getQueryParams` of hikyuu/httpd/HttpHandle.cpp makes of a well-formed query.
use hku_rest.Prelude.{
  ℕ, ◌+◌, ◌≤◌, ◌<◌, ◌≡◌, refl, ◌∙◌, ap, Option, none, some, List, [], ◌∷◌, ◌++◌, arith, All, length,
  length-append, if◌then◌else◌,
}
use mathlib.Core.List.{append_assoc}
use hku_rest.Prelude.Text.{Text, text_eq, text_eq_iff, Avoids, after-append}
use hku_rest.Query.Defs.{
  ok, QueryParams, assign, s_key, s_value, slice, flush, scan, parse_query, finish, lookup, found,
  get_query_param, get_query_params, max_query_params, max_url_length,
}
use hku_rest.Query.Segments.{ArePlain, at, slice_middle, scan-segment}

-- A key and a value as they stand in a query: not empty, and without delimiters.
abbrev pub IsPair : Text × Text → Type 0
IsPair (k, v) = (0 < length k) × (0 < length v) × ArePlain k × ArePlain v

abbrev pub ArePairs : List (Text × Text) → Type 0
ArePairs = All IsPair

abbrev pub join : List (Text × Text) → Text
join [] = []
join ((k, v) ∷ []) = k ++ (b'=' ∷ (v ++ []))
join ((k, v) ∷ p ∷ ps) = k ++ (b'=' ∷ (v ++ (b'&' ∷ join (p ∷ ps))))

lookup-assign :
    (k j v : Text) (ps : QueryParams)
    → lookup j (assign k v ps) ≡ (if text_eq k j then some v else lookup j ps)
unfolding lookup assign
lookup-assign k j v [] = refl
lookup-assign k j v ((i, w) ∷ ps) =
    ground (arith, text_eq_iff k j, text_eq_iff i k, text_eq_iff i j, lookup-assign k j v ps)

module _ (url_unescape : Text → Text) where
  -- The pairs put into the map one after the other, so that a later value of a key replaces an
  -- earlier one.
  abbrev pub assign_all : List (Text × Text) → QueryParams → QueryParams
  assign_all [] ps = ps
  assign_all ((k, v) ∷ kvs) ps = assign_all kvs (assign (url_unescape k) (url_unescape v) ps)

  module _ (pre k v rest : Text) where
    abbrev query : Text
    query = pre ++ (k ++ (b'=' ∷ (v ++ rest)))

    slice_key : slice query (length pre) (length k) ≡ ok k
    slice_key = slice_middle pre k (b'=' ∷ (v ++ rest))

    slice_value : slice query (length pre + length k + 1) (length v) ≡ ok v
    slice_value =
        let p : Text = pre ++ (k ++ (b'=' ∷ [])) in
        let e : p ++ (v ++ rest) ≡ query = simp append_assoc in
        let n : length p ≡ length pre + length k + 1 =
          omega (arith, length-append pre (k ++ (b'=' ∷ [])), length-append k (b'=' ∷ [])) in
        rw (← e, ← n) (slice_middle p v rest)

    -- The parameter at the end of this segment is stored.
    flush_pair :
        (count : ℕ) (ps : QueryParams)
        → 0 < length k
        → 0 < length v
        → count < max_query_params
        → flush url_unescape query
            (at s_value (length pre) (length pre + length k + 1) (length k) (length v) count ps)
          ≡ ok (
              at s_value
                (length pre)
                (length pre + length k + 1)
                (length k)
                (length v)
                (count + 1)
                (assign (url_unescape k) (url_unescape v) ps))
    unfolding flush
    flush_pair count ps hk hv hc = ground (arith, slice_key, slice_value)

  -- One segment and the `&` behind it: the scan stores the parameter and starts the next key.
  scan_pair :
      (pre k v rest : Text) (value count : ℕ) (ps : QueryParams)
      → IsPair (k, v)
      → count < max_query_params
      → let q = query pre k v (b'&' ∷ rest) in
        let idx = length pre + length k + 1 + length v in
        scan url_unescape q
          (k ++ (b'=' ∷ (v ++ (b'&' ∷ rest))))
          (length pre)
          (at s_key (length pre) value 0 0 count ps)
        ≡ scan url_unescape q rest (idx + 1) (
            at s_key
              (idx + 1)
              (length pre + length k + 1)
              0
              0
              (count + 1)
              (assign (url_unescape k) (url_unescape v) ps))
  unfolding scan
  scan_pair pre k v rest value count ps (hk, hv, pk, pv) hc =
      let q : Text = query pre k v (b'&' ∷ rest) in
      scan-segment url_unescape q k v (b'&' ∷ rest) (length pre) value count ps pk pv
      ∙ rw (flush_pair pre k v (b'&' ∷ rest) count ps hk hv hc)

  scan-join :
      (kvs : List (Text × Text)) (pre : Text) (value count : ℕ) (ps : QueryParams)
      → ArePairs kvs
      → count + length kvs ≤ max_query_params
      → finish url_unescape (pre ++ join kvs) (
          scan url_unescape
            (pre ++ join kvs)
            (join kvs)
            (length pre)
            (at s_key (length pre) value 0 0 count ps))
        ≡ ok (assign_all kvs ps)
  unfolding scan flush
  scan-join [] pre value count ps h hc = refl
  scan-join ((k, v) ∷ []) pre value count ps ((hk, hv, pk, pv), h) hc =
      let q : Text = query pre k v [] in
      ap (finish url_unescape q)
        (scan-segment url_unescape q k v [] (length pre) value count ps pk pv)
      ∙ rw (flush_pair pre k v [] count ps hk hv (omega arith))
  scan-join ((k, v) ∷ p ∷ kvs) pre value count ps ((hk, hv, pk, pv), h) hc =
      let rest : Text = join (p ∷ kvs) in
      let q : Text = query pre k v (b'&' ∷ rest) in
      let pre' : Text = pre ++ (k ++ (b'=' ∷ (v ++ (b'&' ∷ [])))) in
      let idx : ℕ = length pre + length k + 1 + length v + 1 in
      let ps' : QueryParams = assign (url_unescape k) (url_unescape v) ps in
      let e : pre' ++ rest ≡ q = simp append_assoc in
      let n : length pre' ≡ idx = omega (
        arith,
        length-append pre (k ++ (b'=' ∷ (v ++ (b'&' ∷ [])))),
        length-append k (b'=' ∷ (v ++ (b'&' ∷ []))),
        length-append v (b'&' ∷ []),
      ) in
      let ih =
        scan-join (p ∷ kvs) pre' (length pre + length k + 1) (count + 1) ps' h (omega arith) in
      ap (finish url_unescape q)
        (scan_pair pre k v rest value count ps (hk, hv, pk, pv) (omega arith))
      ∙ (rw (e, n) at ih)

  -- The parser gives the decoded pairs of a well-formed query of at most 100 pairs: each key with
  -- its last value, in the order of the first occurrences.
  pub parse_query-join :
      (kvs : List (Text × Text))
      → ArePairs kvs
      → length kvs ≤ max_query_params
      → parse_query url_unescape (join kvs) ≡ ok (assign_all kvs [])
  unfolding parse_query
  parse_query-join kvs h hc = scan-join kvs [] 0 0 [] h (omega arith)

  -- A target of at most 8192 bytes, with no `?` in its path and a query that joins at most 100 pairs,
  -- whose keys and values are not empty and have no delimiter, gives these pairs decoded: each key
  -- with its last value, in the order of the first occurrences.
  pub get_query_params-join :
      (path : Text) (kvs : List (Text × Text))
      → Avoids b'?' path
      → ArePairs kvs
      → length kvs ≤ max_query_params
      → length (path ++ b'?' ∷ join kvs) ≤ max_url_length
      → get_query_params url_unescape (path ++ b'?' ∷ join kvs) ≡ ok (assign_all kvs [])
  unfolding get_query_params
  get_query_params-join path kvs clean h hc fits =
      rw (after-append b'?' path (join kvs) clean) (ground (arith, parse_query-join kvs h hc))

  -- The last value that a list of pairs gives to a name.
  abbrev pub last_value : Text → List (Text × Text) → Option Text → Option Text
  last_value name [] o = o
  last_value name ((k, v) ∷ kvs) o =
      last_value name kvs (if text_eq (url_unescape k) name then some (url_unescape v) else o)

  lookup-assign_all :
      (name : Text) (kvs : List (Text × Text)) (ps : QueryParams)
      → lookup name (assign_all kvs ps) ≡ last_value name kvs (lookup name ps)
  lookup-assign_all name [] ps = refl
  lookup-assign_all name ((k, v) ∷ kvs) ps =
      lookup-assign_all name kvs (assign (url_unescape k) (url_unescape v) ps)
      ∙ rw (lookup-assign (url_unescape k) name (url_unescape v) ps)

  -- On a target of at most 8192 bytes, with no `?` in its path and a query that joins at most 100
  -- pairs, whose keys and values are not empty and have no delimiter, `getQueryParam` gives the last
  -- value whose key decodes to the name, decoded, and reports a missing parameter if there is none.
  pub get_query_param-join :
      (path name : Text) (kvs : List (Text × Text))
      → Avoids b'?' path
      → ArePairs kvs
      → length kvs ≤ max_query_params
      → length (path ++ b'?' ∷ join kvs) ≤ max_url_length
      → get_query_param url_unescape (path ++ b'?' ∷ join kvs) name
        ≡ found (last_value name kvs none)
  unfolding get_query_param lookup
  get_query_param-join path name kvs clean h hc fits =
      rw (get_query_params-join path kvs clean h hc fits) (ap found (lookup-assign_all name kvs []))
