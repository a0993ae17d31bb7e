-- ===== src/Query/Bounds.antt =====
-- The bound on the number of parameters in hikyuu/httpd/HttpHandle.cpp, and `getQueryParam`.
use hku_rest.Prelude.{
  ℕ, ◌+◌, ◌≤◌, ◌≡◌, inl, inr, refl, [], ◌∷◌, arith, length, subst, ◌==◌, Bool-cases, Option-cases,
  take, drop,
}
use hku_rest.Prelude.Text.{Text, after}
use hku_rest.Query.Defs.{
  Outcome, ok, err, fault, ◌>>=◌, QueryParams, assign, Mode, s_key, s_value, Scan, flush, scan,
  next_param, init_scan, parse_query, max_query_params, max_url_length, start_value, grow, finish,
  params_of, get_query_params,
}

length-assign-le : (k v : Text) (ps : QueryParams) → length (assign k v ps) ≤ length ps + 1
unfolding assign
length-assign-le k v [] = omega arith
length-assign-le k v ((j, w) ∷ ps) = ground (arith, length-assign-le k v ps)

record IsCounted (s : Scan) : Type 0 where
  counted : length s.params ≤ s.param_count
  bounded : s.param_count ≤ max_query_params

module _ (url_unescape : Text → Text) (query : Text) where
  flush-IsCounted : (s s' : Scan) → flush url_unescape query s ≡ ok s' → IsCounted s → IsCounted s'
  unfolding flush
  flush-IsCounted s s' e v =
      let k : Text = url_unescape (take s.key_len (drop s.key query)) in
      let w : Text = url_unescape (take s.value_len (drop s.value query)) in
      record {
        counted = ground (arith, length-assign-le k w s.params);
        bounded = ground (arith, length-assign-le k w s.params);
      }

  grow-IsCounted : (m : Mode) (s : Scan) → IsCounted s → IsCounted (grow m s)
  grow-IsCounted s_key s v = record { counted = v.counted; bounded = v.bounded }
  grow-IsCounted s_value s v = record { counted = v.counted; bounded = v.bounded }

  bind_ok :
      (r : Outcome Scan) (f : Scan → Outcome Scan) (s : Scan)
      → (r >>= f) ≡ ok s
      → (s' : Scan) × (r ≡ ok s') × (f s' ≡ ok s)
  bind_ok (ok s') f s e = (s', refl, e)
  bind_ok (err c) f s e = absurd (cc)
  bind_ok fault f s e = absurd (cc)

  scan-IsCounted :
      (rest : Text) (idx : ℕ) (s s' : Scan)
      → scan url_unescape query rest idx s ≡ ok s'
      → IsCounted s
      → IsCounted s'
  unfolding scan
  scan-IsCounted [] idx s s' e v = subst IsCounted (ground arith) v
  scan-IsCounted (c ∷ rest) idx s s' e v = elim (Bool-cases (c == b'&')) [
    | inl amp ↦
        let (t, f, g) =
          bind_ok (flush url_unescape query s)
            (λ t. scan url_unescape query rest (idx + 1) (next_param idx t)) s' (rw amp at e) in
        let w : IsCounted t = flush-IsCounted s t f v in
        scan-IsCounted rest (idx + 1) (next_param idx t) s' g
          (record { counted = w.counted; bounded = w.bounded })
    | inr n ↦ elim (Bool-cases (c == b'=')) [
      | inl eq ↦
          scan-IsCounted rest (idx + 1) (start_value idx s) s' (rw (n, eq) at e)
            (record { counted = v.counted; bounded = v.bounded })
      | inr m ↦
          scan-IsCounted rest (idx + 1) (grow s.mode s) s' (rw (n, m) at e)
            (grow-IsCounted s.mode s v)
    ]
  ]

  finish_ok :
      (r : Outcome Scan) (ps : QueryParams)
      → finish url_unescape query r ≡ ok ps
      → (s s' : Scan) × (r ≡ ok s) × (flush url_unescape query s ≡ ok s') × (s'.params ≡ ps)
  finish_ok (ok s) ps e = go (flush url_unescape query s) refl e
    where
      go :
          (r : Outcome Scan)
          → flush url_unescape query s ≡ r
          → (r >>= params_of) ≡ ok ps
          → (s₁ s' : Scan) × (ok s ≡ ok s₁)
            × (flush url_unescape query s₁ ≡ ok s')
            × (s'.params ≡ ps)
      go (ok s') f g = (s, s', refl, f, ground arith)
      go (err c) f g = absurd (cc)
      go fault f g = absurd (cc)
  finish_ok (err c) ps e = absurd (cc)
  finish_ok fault ps e = absurd (cc)

  parse_query-length :
      (ps : QueryParams) → parse_query url_unescape query ≡ ok ps → length ps ≤ max_query_params
  unfolding parse_query
  parse_query-length ps e =
      let (s, s', a, b, c) = finish_ok (scan url_unescape query query 0 init_scan) ps e in
      let v : IsCounted s =
        scan-IsCounted query 0 init_scan s a
          (record { counted = omega arith; bounded = omega arith }) in
      let w : IsCounted s' = flush-IsCounted s s' b v in
      rw (← c) (omega (arith, w.counted, w.bounded))

-- Whatever the target, the parameters that `getQueryParams` gives are at most 100, and a target of
-- more than 8192 bytes gives an error.
pub get_query_params_bounds :
    (url_unescape : Text → Text) (target : Text) (ps : QueryParams)
    → get_query_params url_unescape target ≡ ok ps
    → (length ps ≤ max_query_params) × (length target ≤ max_url_length)
unfolding get_query_params
get_query_params_bounds u target ps e = elim (Option-cases (after b'?' target)) [
  | inl n ↦ (ground (arith, n), ground (arith, n))
  | inr (query, f) ↦ (ground (arith, f, parse_query-length u query ps), ground (arith, f))
]
