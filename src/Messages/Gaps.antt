-- ===== src/Messages/Gaps.antt =====
-- What the validator of hikyuu/httpd/HttpServer.cpp lets through that is not UTF-8.
use hku_rest.Prelude.{ℕ, ◌+◌, ◌/◌, ◌%◌, ◌<◌, ◌≡◌, refl, ◌∙◌, true, false, [], ◌∷◌, arith}
use hku_rest.Messages.{is_utf8, has_control, validate_message}
use hku_rest.Messages.Utf8.{encode3}
use hku_rest.Messages.Complete.{next-three, is_utf8-step, cont_low, is_control_high, validate-clean}

encode3-IsAccepted : (u : ℕ) → u < 0x10000 → is_utf8 3 (encode3 u) ≡ true
unfolding is_utf8
encode3-IsAccepted u h =
    is_utf8-step 2 (224 + u / 4096) ((128 + u / 64 % 64) ∷ (128 + u % 64) ∷ []) [] (
      next-three (224 + u / 4096) (128 + u / 64 % 64) (128 + u % 64) [] (omega arith) (omega arith)
        (cont_low (u / 64)) (cont_low u))
    ∙ refl

has_control-encode3 : (u : ℕ) → has_control (encode3 u) ≡ false
has_control-encode3 u =
    rw
      (
        is_control_high (224 + u / 4096) (omega arith),
        is_control_high (128 + u / 64 % 64) (omega arith),
        is_control_high (128 + u % 64) (omega arith),
      )
      refl

-- The form of three bytes is accepted for every number below 65536: for a surrogate, which UTF-8
-- excludes, and for a number below 2048, which has a shorter encoding, a control character too.
pub validate-encode3 : (u : ℕ) → u < 0x10000 → validate_message (encode3 u) true ≡ true
validate-encode3 u h =
    validate-clean (encode3 u) (omega arith) (omega arith) (encode3-IsAccepted u h)
      (has_control-encode3 u)
