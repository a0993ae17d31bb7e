-- ===== src/Chunks/Decode.antt =====
-- The chunked transfer coding as its receiver reads it (RFC 9112, 7.1): the description that the
-- chunks of hikyuu/httpd/HttpHandle.cpp are compared with.
use hku_rest.Prelude.{
  ℕ, zero, suc, ◌+◌, ◌-◌, ◌*◌, ◌&&◌, Option, none, some, [], ◌∷◌, ◌++◌, leb, ◌==◌, if◌then◌else◌,
  length, take, drop,
}
use hku_rest.Prelude.Text.{Text}

-- The value of a digit in base 16, and none for any other byte.
unfoldable pub digit_value : ℕ → Option ℕ
digit_value c =
    if leb b'0' c && leb c b'9'
    then some (c - b'0')
    else if leb b'a' c && leb c b'f'
    then some (c - b'a' + 10)
    else none

-- The rest after a line end.
unfoldable pub skip_crlf : Text → Option Text
skip_crlf (c ∷ d ∷ s) = if c == 13 && d == 10 then some s else none
skip_crlf _ = none

abbrev pub and_then {ℓ κ} : {A : Type ℓ} {B : Type κ} → Option A → (A → Option B) → Option B
and_then none f = none
and_then (some a) f = f a

-- A number in base 16 and the line end behind it, after digits that amount to `acc`.
unfoldable pub parse_size : ℕ → Text → Option (ℕ × Text)
unfolding digit_value skip_crlf
parse_size acc [] = none
parse_size acc (c ∷ s) =
    let line_end = and_then (skip_crlf (c ∷ s)) (λ r. some (acc, r)) in
    let digit = and_then (digit_value c) (λ d. parse_size (acc * 16 + d) s) in
    if c == 13 then line_end else digit

-- The data, and what follows the last chunk; no trailer fields.
unfoldable pub decode_chunks : ℕ → Text → Option (Text × Text)
unfolding parse_size
decode_chunks zero s = none
decode_chunks (suc fuel) s = and_then (parse_size 0 s) (λ p.
    let last = and_then (skip_crlf p.1) (λ r. some ([], r)) in
    let more =
      and_then (skip_crlf (drop p.0 p.1))
        (λ r. and_then (decode_chunks fuel r) (λ q. some (take p.0 p.1 ++ q.0, q.1))) in
    if p.0 == 0 then last else if leb p.0 (length p.1) then more else none)
