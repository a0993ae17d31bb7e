-- ===== src/Query/Overread.antt =====
-- Reads behind the query in hikyuu/httpd/HttpHandle.cpp: when they happen, and when they do not.
use hku_rest.Prelude.{
  ℕ, ◌+◌, ◌≤◌, ◌<◌, ◌≡◌, ◌≢◌, inl, inr, refl, sym, ◌∙◌, ap, Bool, true, false, not, ◌&&◌, [], ◌∷◌,
  ◌++◌, arith, length, length-append, ◌==◌, if◌then◌else◌, Bool-cases,
}
use mathlib.Core.List.{append-nil}
use hku_rest.Prelude.Text.{Text}
use hku_rest.Query.Defs.{
  Outcome, ok, err, fault, ◌>>=◌, QueryParams, Mode, s_key, s_value, Scan, slice, flush, scan,
  next_param, init_scan, params_of, finish, parse_query, start_value, grow,
}
use hku_rest.Query.Segments.{ArePlain, at, slice_middle, scan-segment, scan-value}

-- Each `&`-separated part has at most one `=`; `seen` says that the current one had it already.
unfoldable pub one_equals : Bool → Text → Bool
one_equals seen [] = true
one_equals seen (c ∷ rest) =
    let fresh = one_equals false rest in
    let again = not seen && one_equals true rest in
    let plain = one_equals seen rest in
    if c == b'&' then fresh else if c == b'=' then again else plain

abbrev seen_in : Mode → Bool
seen_in s_key = false
seen_in s_value = true

-- The key lies before `idx`, and so does the value where there is one.
abbrev InMode : ℕ → Mode → ℕ → ℕ → Type 0
InMode idx s_key value value_len = value_len ≡ 0
InMode idx s_value value value_len = value + value_len ≤ idx

record IsInside (idx : ℕ) (s : Scan) : Type 0 where
  key_in : s.key + s.key_len ≤ idx
  value_in : InMode idx s.mode s.value s.value_len

fault_of : (r : Outcome Scan) → (r >>= params_of) ≡ fault → r ≡ fault
fault_of (ok s') f = cc
fault_of (err c) f = cc
fault_of fault f = refl

mode-grow : (m : Mode) (s : Scan) → (grow m s).mode ≡ s.mode
mode-grow s_key s = refl
mode-grow s_value s = refl

module _ (url_unescape : Text → Text) where
  flush_inside :
      (query : Text) (idx : ℕ) (mode : Mode) (key value kl vl count : ℕ) (ps : QueryParams)
      → IsInside idx (at mode key value kl vl count ps)
      → idx ≤ length query
      → flush url_unescape query (at mode key value kl vl count ps) ≢ fault
  unfolding flush slice
  flush_inside query idx s_key key value kl vl count ps v h e = ground arith
  flush_inside query idx s_value key value kl vl count ps v h e = ground arith

  finish-ne_fault :
      (query : Text) (idx : ℕ) (s : Scan)
      → IsInside idx s
      → idx ≤ length query
      → finish url_unescape query (ok s) ≢ fault
  finish-ne_fault query idx s v h e =
      flush_inside query idx s.mode s.key s.value s.key_len s.value_len s.param_count s.params v h
        (fault_of (flush url_unescape query s) e)

  -- Behind a `&`, whatever was stored: the offsets start anew.
  next-IsInside : (idx : ℕ) (s : Scan) → IsInside (idx + 1) (next_param idx s)
  next-IsInside idx s = record { key_in = omega arith; value_in = refl }

  start-IsInside :
      (idx : ℕ) (s : Scan)
      → s.mode ≡ s_key
      → IsInside idx s
      → IsInside (idx + 1) (start_value idx s)
  start-IsInside idx s e v = record {
    key_in = omega (arith, v.key_in);
    value_in = ground (arith, e, v.value_in);
  }

  grow-IsInside :
      (idx : ℕ) (mode : Mode) (key value kl vl count : ℕ) (ps : QueryParams)
      → IsInside idx (at mode key value kl vl count ps)
      → IsInside (idx + 1) (grow mode (at mode key value kl vl count ps))
  grow-IsInside idx s_key key value kl vl count ps v = record {
    key_in = omega (arith, v.key_in);
    value_in = v.value_in;
  }
  grow-IsInside idx s_value key value kl vl count ps v = record {
    key_in = omega (arith, v.key_in);
    value_in = omega (arith, v.value_in);
  }

  scan-ne_fault :
      (query rest : Text) (idx : ℕ) (s : Scan)
      → idx + length rest ≡ length query
      → IsInside idx s
      → one_equals (seen_in s.mode) rest ≡ true
      → finish url_unescape query (scan url_unescape query rest idx s) ≢ fault
  unfolding scan one_equals
  scan-ne_fault query [] idx s n v h = finish-ne_fault query idx s v (omega arith)
  scan-ne_fault query (c ∷ rest) idx s n v h = elim (Bool-cases (c == b'&')) [
    | inl amp ↦ rw amp (
        after_flush (flush url_unescape query s)
          (λ e.
            flush_inside query idx s.mode s.key s.value s.key_len s.value_len s.param_count s.params
              v (omega arith) e)
          (λ s'.
            scan-ne_fault query rest (idx + 1) (next_param idx s') (omega arith)
              (next-IsInside idx s') (ground (arith, amp))))
    | inr f ↦ elim (Bool-cases (c == b'=')) [
      | inl eq ↦
          rw (f, eq)
            (scan-ne_fault query rest (idx + 1) (start_value idx s) (omega arith)
              (start-IsInside idx s (mode_of s.mode (ground (arith, f, eq))) v)
              (ground (arith, f, eq)))
      | inr g ↦
          rw (f, g)
            (scan-ne_fault query rest (idx + 1) (grow s.mode s) (omega arith)
              (grow-IsInside idx s.mode s.key s.value s.key_len s.value_len s.param_count s.params
                v)
              (rw (mode-grow s.mode s) (ground (arith, f, g))))
    ]
  ]
    where
      mode_of : (m : Mode) → not (seen_in m) ≡ true → m ≡ s_key
      mode_of s_key e = refl
      mode_of s_value e = absurd (cc)

      after_flush :
          (r : Outcome Scan)
          → r ≢ fault
          → ((s' : Scan)
              → finish url_unescape query
                  (scan url_unescape query rest (idx + 1) (next_param idx s'))
                ≢ fault)
          → finish url_unescape query
              (r >>= λ s'. scan url_unescape query rest (idx + 1) (next_param idx s'))
            ≢ fault
      after_flush (ok s') nf k = k s'
      after_flush (err c) nf k = λ e. cc
      after_flush fault nf k = λ e. nf refl

-- The parser reads nothing behind the query as long as no `&`-separated part has two `=`.
pub parse_query-ne_fault :
    (url_unescape : Text → Text) (query : Text)
    → one_equals false query ≡ true
    → parse_query url_unescape query ≢ fault
unfolding parse_query
parse_query-ne_fault url_unescape query h =
    scan-ne_fault url_unescape query query 0 init_scan (omega arith)
      (record { key_in = omega arith; value_in = refl }) h

slice_beyond :
    (query : Text) (offset n : ℕ) → length query < offset + n → slice query offset n ≡ fault
unfolding slice
slice_beyond query offset n h = ground arith

-- A query `key=value=rest`, with a key and a value that are not empty and no further delimiter in
-- the three parts, always makes the parser read behind the query: the second `=` moves the start of
-- the value, and the length still counts what was before it.
pub parse_query_overreads :
    (url_unescape : Text → Text) (k v w : Text)
    → ArePlain k
    → ArePlain v
    → ArePlain w
    → 0 < length k
    → 0 < length v
    → parse_query url_unescape (k ++ (b'=' ∷ (v ++ (b'=' ∷ w)))) ≡ fault
unfolding parse_query scan flush
parse_query_overreads u k v w pk pv pw hk hv =
    let q : Text = k ++ (b'=' ∷ (v ++ (b'=' ∷ w))) in
    let vl : ℕ = length v in
    let idx : ℕ = 0 + length k + 1 + vl in
    let at_eq = scan-segment u q k v (b'=' ∷ w) 0 0 0 [] pk pv in
    let at_end : scan u q w (idx + 1) (at s_value 0 (idx + 1) (length k) vl 0 [])
        ≡ ok (at s_value 0 (idx + 1) (length k) (vl + length w) 0 []) =
      ap (λ (r : Text). scan u q r (idx + 1) (at s_value 0 (idx + 1) (length k) vl 0 []))
        (sym (append-nil w))
      ∙ scan-value u q w [] (idx + 1) 0 (idx + 1) (length k) vl 0 [] pw in
    let size : length q ≡ length k + 1 + vl + 1 + length w =
      omega (arith, length-append k (b'=' ∷ (v ++ (b'=' ∷ w))), length-append v (b'=' ∷ w)) in
    ap (finish u q) (at_eq ∙ at_end)
    ∙ ground (
      arith,
      slice_middle [] k (b'=' ∷ (v ++ (b'=' ∷ w))),
      slice_beyond q (idx + 1) (vl + length w) (omega (arith, size)),
    )
