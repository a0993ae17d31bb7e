-- ===== src/Messages/Decode.antt =====
-- The scalar value of one sequence that hikyuu/httpd/HttpServer.cpp accepts.
use hku_rest.Prelude.{
  ℕ, ◌+◌, ◌-◌, ◌*◌, ◌/◌, ◌%◌, ◌<◌, ◌≤◌, ◌≡◌, ◌≢◌, ◌⊎◌, inl, inr, sym, ap, subst, true, Bool-cases,
  ltb→lt, some, [], ◌∷◌, ◌++◌, ltb, arith,
}
use hku_rest.Prelude.Text.{Text}
use hku_rest.Messages.{is_continuation, codepoint, next_sequence}
use hku_rest.Messages.Utf8.{IsScalar, encode}
use hku_rest.Messages.Sequences.{
  next_two_cases, next_three_cases, next_four_cases, next_none, next_one,
}

-- The bytes of the two gaps: those that begin an overlong sequence of three or four bytes, and the
-- one that begins a surrogate.
abbrev pub IsUnambiguous : ℕ → Type 0
IsUnambiguous c = (c < 256) × ((c ≢ 0xE0) × ((c ≢ 0xED) × (c ≢ 0xF0)))

encode_is_two :
    (u c b : ℕ) → 128 ≤ u → u < 2048 → 192 + u / 64 ≡ c → 128 + u % 64 ≡ b → encode u ≡ c ∷ b ∷ []
unfolding encode
encode_is_two u c b h k e f = ground arith

encode_is_three :
    (u c b1 b2 : ℕ)
    → 2048 ≤ u
    → u < 65536
    → 224 + u / 4096 ≡ c
    → 128 + u / 64 % 64 ≡ b1
    → 128 + u % 64 ≡ b2
    → encode u ≡ c ∷ b1 ∷ b2 ∷ []
unfolding encode
encode_is_three u c b1 b2 h k e f g = ground arith

encode_is_four :
    (u c b1 b2 b3 : ℕ)
    → 65536 ≤ u
    → 240 + u / 262144 ≡ c
    → 128 + u / 4096 % 64 ≡ b1
    → 128 + u / 64 % 64 ≡ b2
    → 128 + u % 64 ≡ b3
    → encode u ≡ c ∷ b1 ∷ b2 ∷ b3 ∷ []
unfolding encode
encode_is_four u c b1 b2 b3 h e f g i = ground arith

pub continuation_bounds : (b : ℕ) → is_continuation b ≡ true → 128 ≤ b × b < 192
continuation_bounds b e = ground arith

-- The scalar value that begins a text, and its encoding.
pub record Decoded (text left : Text) : Type 0 where
  pub scalar : ℕ
  pub scalar_IsScalar : IsScalar scalar
  pub is_split : encode scalar ++ left ≡ text

decode_two :
    (c b : ℕ) (left : Text)
    → 194 ≤ c
    → c < 224
    → is_continuation b ≡ true
    → Decoded (c ∷ b ∷ left) left
decode_two c b left h k e =
    let (lo, hi) = continuation_bounds b e in
    let u = (c - 192) * 64 + (b - 128) in
    record {
      scalar = u;
      scalar_IsScalar = inl (omega arith);
      is_split =
          ap (λ s. s ++ left)
            (encode_is_two u c b (omega arith) (omega arith) (omega arith) (omega arith));
    }

decode_three :
    (c b1 b2 : ℕ) (left : Text)
    → 225 ≤ c
    → c < 240
    → c ≢ 237
    → is_continuation b1 ≡ true
    → is_continuation b2 ≡ true
    → Decoded (c ∷ b1 ∷ b2 ∷ left) left
decode_three c b1 b2 left h k n e1 e2 =
    let (lo1, hi1) = continuation_bounds b1 e1 in
    let (lo2, hi2) = continuation_bounds b2 e2 in
    let u = (c - 224) * 4096 + (b1 - 128) * 64 + (b2 - 128) in
    record {
      scalar = u;
      scalar_IsScalar = ground arith;
      is_split =
          ap (λ s. s ++ left)
            (encode_is_three u c b1 b2 (omega arith) (omega arith) (omega arith) (omega arith)
              (omega arith));
    }

decode_four :
    (c b1 b2 b3 : ℕ) (left : Text)
    → 241 ≤ c
    → c < 248
    → is_continuation b1 ≡ true
    → is_continuation b2 ≡ true
    → is_continuation b3 ≡ true
    → codepoint c (b1 ∷ b2 ∷ b3 ∷ left) ≤ 0x10FFFF
    → Decoded (c ∷ b1 ∷ b2 ∷ b3 ∷ left) left
decode_four c b1 b2 b3 left h k e1 e2 e3 m =
    let (lo1, hi1) = continuation_bounds b1 e1 in
    let (lo2, hi2) = continuation_bounds b2 e2 in
    let (lo3, hi3) = continuation_bounds b3 e3 in
    let u = (c - 240) * 262144 + (b1 - 128) * 4096 + (b2 - 128) * 64 + (b3 - 128) in
    record {
      scalar = u;
      scalar_IsScalar = inr (omega arith, omega arith);
      is_split =
          ap (λ s. s ++ left)
            (encode_is_four u c b1 b2 b3 (omega arith) (omega arith) (omega arith) (omega arith)
              (omega arith));
    }

pub data Lead (c : ℕ) : Type 0 where
  lead_one : c < 128 → Lead c
  lead_none : (128 ≤ c × c < 192) ⊎ (248 ≤ c × c < 256) → Lead c
  lead_two : 192 ≤ c → c < 224 → Lead c
  lead_three : 224 ≤ c → c < 240 → Lead c
  lead_four : 240 ≤ c → c < 248 → Lead c

pub find-Lead : (c : ℕ) → c < 256 → Lead c
find-Lead c h = elim (Bool-cases (ltb c 128)) [
  | inl a ↦ lead_one (ltb→lt c 128 a)
  | inr a ↦ elim (Bool-cases (ltb c 192)) [
    | inl b ↦ lead_none (inl (ground arith, ground arith))
    | inr b ↦ elim (Bool-cases (ltb c 224)) [
      | inl d ↦ lead_two (ground arith) (ground arith)
      | inr d ↦ elim (Bool-cases (ltb c 240)) [
        | inl e ↦ lead_three (ground arith) (ground arith)
        | inr e ↦ elim (Bool-cases (ltb c 248)) [
          | inl f ↦ lead_four (ground arith) (ground arith)
          | inr f ↦ lead_none (inr (ground arith, h))
        ]
      ]
    ]
  ]
]

pub decode :
    (c : ℕ) (rest left : Text)
    → Lead c
    → IsUnambiguous c
    → next_sequence c rest ≡ some left
    → Decoded (c ∷ rest) left
unfolding encode
decode c rest left (lead_one h) n e = record {
  scalar = c;
  scalar_IsScalar = inl (omega arith);
  is_split = ground (arith, next_one c rest left h e);
}
decode c rest left (lead_none h) n e = absurd (next_none c rest left h e)
decode c rest left (lead_two h k) n e =
    let (b, (same, (cont, lo))) = next_two_cases c rest left h k e in
    subst (λ r. Decoded (c ∷ r) left) (sym same) (decode_two c b left lo k cont)
decode c rest left (lead_three h k) n e =
    let (b1, b2, (same, (cont1, cont2))) = next_three_cases c rest left h k e in
    subst (λ r. Decoded (c ∷ r) left) (sym same)
      (decode_three c b1 b2 left (ground arith) k n.1.1.0 cont1 cont2)
decode c rest left (lead_four h k) n e =
    let (b1, b2, b3, (same, (cont1, (cont2, (cont3, m))))) = next_four_cases c rest left h k e in
    subst (λ r. Decoded (c ∷ r) left) (sym same)
      (decode_four c b1 b2 b3 left (ground arith) k cont1 cont2 cont3
        (subst (λ r. codepoint c r ≤ 0x10FFFF) same m))
