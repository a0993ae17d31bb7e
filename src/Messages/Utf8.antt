-- ===== src/Messages/Utf8.antt =====
-- UTF-8 itself (RFC 3629), against which the validator of hikyuu/httpd/HttpServer.cpp is set: the
-- encoding of a Unicode scalar value, and of a text of them.
use hku_rest.Prelude.{ℕ, ◌+◌, ◌/◌, ◌%◌, ◌<◌, ◌≤◌, ◌⊎◌, List, [], ◌∷◌, ◌++◌, ltb, if◌then◌else◌}
use hku_rest.Prelude.Text.{Text}

-- Scalar values are the code points without the surrogates.
abbrev pub IsScalar : ℕ → Type 0
IsScalar u = (u < 0xD800) ⊎ ((0xDFFF < u) × (u ≤ 0x10FFFF))

abbrev pub encode2 : ℕ → Text
encode2 u = (192 + u / 64) ∷ (128 + u % 64) ∷ []

abbrev pub encode3 : ℕ → Text
encode3 u = (224 + u / 4096) ∷ (128 + u / 64 % 64) ∷ (128 + u % 64) ∷ []

abbrev pub encode4 : ℕ → Text
encode4 u = (240 + u / 262144) ∷ (128 + u / 4096 % 64) ∷ (128 + u / 64 % 64) ∷ (128 + u % 64) ∷ []

unfoldable pub encode : ℕ → Text
encode u =
    if ltb u 0x80
    then u ∷ []
    else if ltb u 0x800
    then encode2 u
    else if ltb u 0x10000
    then encode3 u
    else encode4 u

unfoldable pub encode_all : List ℕ → Text
unfolding encode
encode_all [] = []
encode_all (u ∷ us) = encode u ++ encode_all us
