-- ===== src/Messages/Complete.antt =====
-- Every text in UTF-8 passes the validator of hikyuu/httpd/HttpServer.cpp.
use hku_rest.Prelude.{
  ℕ, zero, suc, ◌+◌, ◌/◌, ◌%◌, ◌<◌, ◌≤◌, ◌≡◌, ◌≢◌, ◌⊎◌, inl, inr, refl, ap, ◌∙◌, true, false, ◌||◌,
  Bool-cases, ltb→lt, none, some, List, [], ◌∷◌, ◌++◌, ltb, length, All, arith,
}
use hku_rest.Prelude.Text.{Text}
use hku_rest.Messages.{
  seq_len, is_continuation, codepoint, next_sequence, is_utf8, is_control, has_control,
  max_frame_size, validate_message,
}
use hku_rest.Messages.Utf8.{IsScalar, encode, encode_all}

pub seq_len_1 : (c : ℕ) → c < 128 → seq_len c ≡ 1
seq_len_1 c h = ground arith

pub seq_len_2 : (c : ℕ) → 192 ≤ c → c < 224 → seq_len c ≡ 2
seq_len_2 c h k = ground arith

pub seq_len_3 : (c : ℕ) → 224 ≤ c → c < 240 → seq_len c ≡ 3
seq_len_3 c h k = ground arith

pub seq_len_4 : (c : ℕ) → 240 ≤ c → c < 248 → seq_len c ≡ 4
seq_len_4 c h k = ground arith

pub cont_low : (x : ℕ) → is_continuation (128 + x % 64) ≡ true
cont_low x = ground arith

next-ascii : (c : ℕ) (rest : Text) → c < 128 → next_sequence c rest ≡ some rest
unfolding next_sequence
next-ascii c rest h = rw (seq_len_1 c h) (ground arith)

next-two :
    (c b : ℕ) (rest : Text)
    → 194 ≤ c
    → c < 224
    → is_continuation b ≡ true
    → next_sequence c (b ∷ rest) ≡ some rest
unfolding next_sequence
next-two c b rest h k e = rw (seq_len_2 c (omega arith) k, e) (ground arith)

pub next-three :
    (c b1 b2 : ℕ) (rest : Text)
    → 224 ≤ c
    → c < 240
    → is_continuation b1 ≡ true
    → is_continuation b2 ≡ true
    → next_sequence c (b1 ∷ b2 ∷ rest) ≡ some rest
unfolding next_sequence
next-three c b1 b2 rest h k e1 e2 = rw (seq_len_3 c h k, e1, e2) (ground arith)

next-four :
    (c b1 b2 b3 : ℕ) (rest : Text)
    → 240 ≤ c
    → c < 248
    → is_continuation b1 ≡ true
    → is_continuation b2 ≡ true
    → is_continuation b3 ≡ true
    → codepoint c (b1 ∷ b2 ∷ b3 ∷ rest) ≤ 0x10FFFF
    → 0xDFFF < codepoint c (b1 ∷ b2 ∷ b3 ∷ rest)
    → next_sequence c (b1 ∷ b2 ∷ b3 ∷ rest) ≡ some rest
unfolding next_sequence
next-four c b1 b2 b3 rest h k e1 e2 e3 m n = rw (seq_len_4 c h k, e1, e2, e3) (ground arith)

codepoint-encode4 :
    (u : ℕ) (rest : Text)
    → u ≤ 0x10FFFF
    → codepoint
        (240 + u / 262144)
        ((128 + u / 4096 % 64) ∷ (128 + u / 64 % 64) ∷ (128 + u % 64) ∷ rest)
      ≡ u
codepoint-encode4 u rest h = omega arith

scalar_le : (u : ℕ) → IsScalar u → u ≤ 0x10FFFF
scalar_le u (inl h) = omega arith
scalar_le u (inr h) = h.1

next-encode4 :
    (u : ℕ) (rest : Text)
    → 0x10000 ≤ u
    → u ≤ 0x10FFFF
    → next_sequence
        (240 + u / 262144)
        ((128 + u / 4096 % 64) ∷ (128 + u / 64 % 64) ∷ (128 + u % 64) ∷ rest)
      ≡ some rest
next-encode4 u rest h k =
    let same = codepoint-encode4 u rest k in
    next-four (240 + u / 262144) (128 + u / 4096 % 64) (128 + u / 64 % 64) (128 + u % 64) rest
      (omega arith) (omega arith) (cont_low (u / 4096)) (cont_low (u / 64)) (cont_low u)
      (omega (arith, same)) (omega (arith, same))

-- The first byte of an encoding and the bytes after it, up to a rest.
record Starts (u : ℕ) (rest : Text) : Type 0 where
  lead : ℕ
  tail : Text
  is_encoding : encode u ++ rest ≡ lead ∷ tail
  is_shorter : length rest ≤ length tail
  is_accepted : next_sequence lead tail ≡ some rest

starts : (u : ℕ) (rest : Text) → IsScalar u → Starts u rest
unfolding encode
starts u rest h = elim (Bool-cases (ltb u 0x80)) [
  | inl a ↦ record {
    lead = u;
    tail = rest;
    is_encoding = rw a refl;
    is_shorter = omega arith;
    is_accepted = next-ascii u rest (ltb→lt u 128 a);
  }
  | inr a ↦ elim (Bool-cases (ltb u 0x800)) [
    | inl b ↦ record {
      lead = 192 + u / 64;
      tail = (128 + u % 64) ∷ rest;
      is_encoding = rw (a, b) refl;
      is_shorter = omega arith;
      is_accepted =
          next-two (192 + u / 64) (128 + u % 64) rest (ground arith) (ground arith) (cont_low u);
    }
    | inr b ↦ elim (Bool-cases (ltb u 0x10000)) [
      | inl c ↦ record {
        lead = 224 + u / 4096;
        tail = (128 + u / 64 % 64) ∷ (128 + u % 64) ∷ rest;
        is_encoding = rw (a, b, c) refl;
        is_shorter = omega arith;
        is_accepted =
            next-three (224 + u / 4096) (128 + u / 64 % 64) (128 + u % 64) rest (omega arith)
              (ground arith) (cont_low (u / 64)) (cont_low u);
      }
      | inr c ↦ record {
        lead = 240 + u / 262144;
        tail = (128 + u / 4096 % 64) ∷ (128 + u / 64 % 64) ∷ (128 + u % 64) ∷ rest;
        is_encoding = rw (a, b, c) refl;
        is_shorter = omega arith;
        is_accepted = next-encode4 u rest (ground arith) (scalar_le u h);
      }
    ]
  ]
]

pub is_utf8-step :
    (f c : ℕ) (rest left : Text)
    → next_sequence c rest ≡ some left
    → is_utf8 (suc f) (c ∷ rest) ≡ is_utf8 f left
unfolding is_utf8
is_utf8-step f c rest left e = ap (λ o. elim o [ none ↦ false | some l ↦ is_utf8 f l ]) e

is_utf8-encode_all :
    (us : List ℕ) (fuel : ℕ)
    → All IsScalar us
    → length (encode_all us) ≤ fuel
    → is_utf8 fuel (encode_all us) ≡ true
unfolding encode_all is_utf8
is_utf8-encode_all [] fuel h k = refl
is_utf8-encode_all (u ∷ us) zero h k =
    let s = starts u (encode_all us) h.0 in absurd (omega (arith, ap length s.is_encoding))
is_utf8-encode_all (u ∷ us) (suc f) h k =
    let s = starts u (encode_all us) h.0 in
    rw (s.is_encoding) (
      is_utf8-step f s.lead s.tail (encode_all us) s.is_accepted
      ∙ is_utf8-encode_all us f h.1 (omega (arith, s.is_shorter, ap length s.is_encoding)))

-- The control characters that the filter lets through are tab, line feed and carriage return.
abbrev pub IsPrintable : ℕ → Type 0
IsPrintable u = (0x20 ≤ u × u ≢ 0x7F) ⊎ ((u ≡ 0x09) ⊎ ((u ≡ 0x0A) ⊎ (u ≡ 0x0D)))

has_control-append : (s t : Text) → has_control (s ++ t) ≡ (has_control s || has_control t)
has_control-append [] t = refl
has_control-append (a ∷ s) t = ground (arith, has_control-append s t)

pub is_control_high : (c : ℕ) → 128 ≤ c → is_control c ≡ false
is_control_high c h = ground arith

pub is_control_printable : (u : ℕ) → IsPrintable u → is_control u ≡ false
is_control_printable u h = ground arith

has_control-encode : (u : ℕ) → IsPrintable u → has_control (encode u) ≡ false
unfolding encode
has_control-encode u h = ground (
  arith,
  is_control_printable u h,
  is_control_high (192 + u / 64),
  is_control_high (224 + u / 4096),
  is_control_high (240 + u / 262144),
  is_control_high (128 + u / 4096 % 64),
  is_control_high (128 + u / 64 % 64),
  is_control_high (128 + u % 64),
)

has_control-encode_all : (us : List ℕ) → All IsPrintable us → has_control (encode_all us) ≡ false
unfolding encode_all
has_control-encode_all [] h = refl
has_control-encode_all (u ∷ us) h =
    rw
      (
        has_control-append (encode u) (encode_all us),
        has_control-encode u h.0,
        has_control-encode_all us h.1,
      )
      refl

le→ltb_false : (a b : ℕ) → b ≤ a → ltb a b ≡ false
le→ltb_false a b h = ground arith

pub validate-clean :
    (s : Text)
    → 0 < length s
    → length s ≤ max_frame_size
    → is_utf8 (length s) s ≡ true
    → has_control s ≡ false
    → validate_message s true ≡ true
unfolding validate_message
validate-clean [] m n u c = absurd (omega arith)
validate-clean (a ∷ s) m n u c = rw (u, c, le→ltb_false max_frame_size (length (a ∷ s)) n) refl

-- A text message that is the UTF-8 encoding of scalar values, with no control character but tab,
-- line feed and carriage return, not empty and not over `MAX_FRAME_SIZE`, which is 15 MiB, is accepted.
pub validate-encode_all :
    (us : List ℕ)
    → All IsScalar us
    → All IsPrintable us
    → 0 < length (encode_all us)
    → length (encode_all us) ≤ max_frame_size
    → validate_message (encode_all us) true ≡ true
unfolding validate_message
validate-encode_all us h p m n =
    let u8 = is_utf8-encode_all us (length (encode_all us)) h (omega arith) in
    let clean = has_control-encode_all us p in validate-clean (encode_all us) m n u8 clean
