-- ===== src/Messages/Sound.antt =====
-- What the validator of hikyuu/httpd/HttpServer.cpp accepts is UTF-8, up to three first bytes.
use hku_rest.Prelude.{
  ℕ, zero, suc, ◌<◌, ◌≤◌, ◌≡◌, inl, inr, refl, sym, ap, subst, ◌∙◌, Bool, true, false, not, ◌&&◌,
  some, Option-cases, List, [], ◌∷◌, ◌++◌, ltb, if◌then◌else◌, length, All, arith,
}
use hku_rest.Prelude.Text.{Text}
use hku_rest.Messages.{
  next_sequence, is_utf8, has_control, max_frame_size, max_message_size, validate_message,
}
use hku_rest.Messages.Utf8.{IsScalar, encode, encode_all}
use hku_rest.Messages.Complete.{IsPrintable}
use hku_rest.Messages.Decode.{IsUnambiguous, find-Lead, decode}

is_utf8_left :
    (f c : ℕ) (rest : Text)
    → is_utf8 (suc f) (c ∷ rest) ≡ true
    → (left : Text) × ((next_sequence c rest ≡ some left) × (is_utf8 f left ≡ true))
unfolding is_utf8
is_utf8_left f c rest h = elim (Option-cases (next_sequence c rest)) [
  | inl n ↦ absurd (ground (arith, n))
  | inr (left, e) ↦ (left, (e, ground (arith, e)))
]

All-tail : (P : ℕ → Type 0) (u left : Text) → All P (u ++ left) → All P left
All-tail P [] left h = h
All-tail P (a ∷ u) left h = All-tail P u left h.1

decode_text :
    (fuel : ℕ) (s : Text)
    → All IsUnambiguous s
    → is_utf8 fuel s ≡ true
    → (us : List ℕ) × (All IsScalar us × (encode_all us ≡ s))
unfolding is_utf8 encode_all
decode_text fuel [] n h = ([], (tt, refl))
decode_text zero (c ∷ rest) n h = absurd (cc)
decode_text (suc f) (c ∷ rest) n h =
    let (left, (e, h')) = is_utf8_left f c rest h in
    let d = decode c rest left (find-Lead c n.0.0) n.0 e in
    let n' =
      All-tail IsUnambiguous (encode d.scalar) left
        (subst (All IsUnambiguous) (sym d.is_split) n) in
    let (us, (scalars, same)) = decode_text f left n' h' in
    (
      d.scalar ∷ us,
      ((d.scalar_IsScalar, scalars), ap (λ r. encode d.scalar ++ r) same ∙ d.is_split),
    )

validate-is_utf8 : (s : Text) → validate_message s true ≡ true → is_utf8 (length s) s ≡ true
unfolding validate_message
validate-is_utf8 s h = ground (arith)

-- An accepted text message without the bytes E0, ED and F0 is the UTF-8 encoding of a list of
-- scalar values.
pub validate_message-encode_all :
    (message : Text)
    → All IsUnambiguous message
    → validate_message message true ≡ true
    → (us : List ℕ) × (All IsScalar us × (encode_all us ≡ message))
validate_message-encode_all message n h =
    decode_text (length message) message n (validate-is_utf8 message h)

ltb_false→le : (a b : ℕ) → ltb a b ≡ false → b ≤ a
ltb_false→le a b h = ground arith

guards :
    (b c d e : Bool)
    → (if b then false else (if c then false else d && not e)) ≡ true
    → (b ≡ false) × (e ≡ false)
guards b c d e h = ground arith

printable : (s : Text) → has_control s ≡ false → All IsPrintable s
printable [] h = tt
printable (c ∷ s) h = (ground arith, printable s (ground arith))

-- An accepted text message has a length between 1 and the limit, and no control character but tab,
-- line feed and carriage return.
pub validate_message-IsPrintable :
    (message : Text)
    → validate_message message true ≡ true
    → (0 < length message × length message ≤ max_frame_size) × All IsPrintable message
unfolding validate_message
validate_message-IsPrintable [] h = absurd (cc)
validate_message-IsPrintable (c ∷ s) h =
    let (fits, clean) =
      guards (ltb max_frame_size (length (c ∷ s))) (ltb max_message_size (length (c ∷ s)))
        (is_utf8 (length (c ∷ s)) (c ∷ s)) (has_control (c ∷ s)) h in
    ((omega arith, ltb_false→le max_frame_size (length (c ∷ s)) fits), printable (c ∷ s) clean)
