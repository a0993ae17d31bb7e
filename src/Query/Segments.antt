-- ===== src/Query/Segments.antt =====
-- How the scan of hikyuu/httpd/HttpHandle.cpp goes over one `key=value` of a query.
use native.Mathlib.Nat.{add-zero}
use hku_rest.Prelude.{
  ℕ, ◌+◌, ◌≡◌, ◌≢◌, ◌∙◌, [], ◌∷◌, ◌++◌, arith, All, length, length-append, drop-length_append,
  take-length_append,
}
use hku_rest.Prelude.Text.{Text}
use hku_rest.Query.Defs.{ok, QueryParams, Mode, s_key, s_value, Scan, slice, scan}

-- Not a delimiter.
abbrev pub IsPlain : ℕ → Type 0
IsPlain c = (c ≢ b'&') × (c ≢ b'=')

abbrev pub ArePlain : Text → Type 0
ArePlain = All IsPlain

abbrev pub at : Mode → ℕ → ℕ → ℕ → ℕ → ℕ → QueryParams → Scan
at mode key value key_len value_len param_count params = record {
  mode = mode;
  key = key;
  value = value;
  key_len = key_len;
  value_len = value_len;
  param_count = param_count;
  params = params;
}

pub slice_middle : (pre k post : Text) → slice (pre ++ (k ++ post)) (length pre) (length k) ≡ ok k
unfolding slice
slice_middle pre k post = ground (
  arith,
  length-append pre (k ++ post),
  length-append k post,
  drop-length_append pre (k ++ post),
  take-length_append k post,
)

module _ (url_unescape : Text → Text) (query : Text) where
  scan-key :
      (k rest : Text) (idx key value n vl count : ℕ) (ps : QueryParams)
      → ArePlain k
      → scan url_unescape query (k ++ rest) idx (at s_key key value n vl count ps)
        ≡ scan url_unescape query rest
            (idx + length k)
            (at s_key key value (n + length k) vl count ps)
  unfolding scan
  scan-key [] rest idx key value n vl count ps h = simp add-zero
  scan-key (c ∷ k) rest idx key value n vl count ps h =
      ground (arith, scan-key k rest (idx + 1) key value (n + 1) vl count ps h.1)

  pub scan-value :
      (v rest : Text) (idx key value kl n count : ℕ) (ps : QueryParams)
      → ArePlain v
      → scan url_unescape query (v ++ rest) idx (at s_value key value kl n count ps)
        ≡ scan url_unescape query rest
            (idx + length v)
            (at s_value key value kl (n + length v) count ps)
  unfolding scan
  scan-value [] rest idx key value kl n count ps h = simp add-zero
  scan-value (c ∷ v) rest idx key value kl n count ps h =
      ground (arith, scan-value v rest (idx + 1) key value kl (n + 1) count ps h.1)

  -- From the start of a segment to the end of its value.
  pub scan-segment :
      (k v rest : Text) (idx value count : ℕ) (ps : QueryParams)
      → ArePlain k
      → ArePlain v
      → scan url_unescape query (k ++ (b'=' ∷ (v ++ rest))) idx (at s_key idx value 0 0 count ps)
        ≡ scan url_unescape query rest
            (idx + length k + 1 + length v)
            (at s_value idx (idx + length k + 1) (length k) (length v) count ps)
  unfolding scan
  scan-segment k v rest idx value count ps hk hv =
      let mid : ℕ = idx + length k + 1 in
      scan-key k (b'=' ∷ (v ++ rest)) idx idx value 0 0 count ps hk
      ∙ ground (arith, scan-value v rest mid idx mid (length k) 0 count ps hv)
