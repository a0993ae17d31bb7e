-- ===== src/Messages/Examples.antt =====
-- Messages through the validator of hikyuu/httpd/HttpServer.cpp.
use hku_rest.Prelude.{ℕ, ◌≡◌, refl, true, false, List, [], ◌∷◌, ◌<◌, ◌≤◌, ◌++◌, length, All, arith}
use hku_rest.Prelude.Text.{Text, codes}
use hku_rest.Messages.{validate_message, max_frame_size}
use hku_rest.Messages.Utf8.{IsScalar, encode_all}
use hku_rest.Messages.Complete.{IsPrintable, validate-encode_all}
use hku_rest.Messages.Sound.{validate_message-encode_all, validate_message-IsPrintable}
use hku_rest.Messages.Gaps.{validate-encode3}

-- A letter, one of two bytes, one of three and one of four.
abbrev greeting : List ℕ
greeting = 0x48 ∷ 0xE9 ∷ 0x4E2D ∷ 0x1F600 ∷ []

abbrev greeting_bytes : Text
greeting_bytes = 0x48 ∷ 0xC3 ∷ 0xA9 ∷ 0xE4 ∷ 0xB8 ∷ 0xAD ∷ 0xF1 ∷ 0x9F ∷ 0x98 ∷ 0x80 ∷ []

greeting_encodes :
    encode_all (0x48 ∷ 0xE9 ∷ 0x4E2D ∷ []) ≡ 0x48 ∷ 0xC3 ∷ 0xA9 ∷ 0xE4 ∷ 0xB8 ∷ 0xAD ∷ []
unfolding encode_all
greeting_encodes = refl

rejects_truncated : validate_message (0x48 ∷ 0xC3 ∷ []) true ≡ false
unfolding validate_message
rejects_truncated = refl

rejects_overlong_two : validate_message (0xC0 ∷ 0x80 ∷ []) true ≡ false
unfolding validate_message
rejects_overlong_two = refl

rejects_bell : validate_message (codes "a" ++ 7 ∷ []) true ≡ false
unfolding validate_message
rejects_bell = refl

accepts_binary : validate_message (0xFF ∷ 0 ∷ []) false ≡ true
unfolding validate_message
accepts_binary = refl

validate-encode_all_example : validate_message (encode_all greeting) true ≡ true
unfolding encode_all
validate-encode_all_example =
    validate-encode_all greeting (ground arith) (ground arith) (omega arith) (omega arith)

bytes_accepted : validate_message greeting_bytes true ≡ true
unfolding validate_message
bytes_accepted = refl

validate_message-encode_all_case :
    (us : List ℕ) × (All IsScalar us × (encode_all us ≡ greeting_bytes))
validate_message-encode_all_case =
    validate_message-encode_all greeting_bytes (ground arith) bytes_accepted

validate_message-IsPrintable_case :
    (0 < length greeting_bytes × length greeting_bytes ≤ max_frame_size)
    × All IsPrintable greeting_bytes
validate_message-IsPrintable_case = validate_message-IsPrintable greeting_bytes bytes_accepted

-- The surrogate D800.
validate-encode3_case : validate_message (0xED ∷ 0xA0 ∷ 0x80 ∷ []) true ≡ true
validate-encode3_case = validate-encode3 0xD800 (omega arith)
