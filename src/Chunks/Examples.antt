-- ===== src/Chunks/Examples.antt =====
-- Chunked responses of hikyuu/httpd/HttpHandle.cpp with the numerals of `{:x}` written out.
use hku_rest.Prelude.{
  ℕ, zero, suc, ◌+◌, ◌*◌, ◌/◌, ◌%◌, ◌<◌, ◌≤◌, ◌≡◌, refl, sym, ap, ◌∙◌, true, false, some,
  Option-cases, Bool-cases, inl, inr, [], ◌∷◌, ◌++◌, ltb, if◌then◌else◌, arith,
}
use hku_rest.Prelude.Text.{Text, codes}
use hku_rest.Chunks.{
  Transfer, last_chunk, write_chunk, write_chunks, enable_chunked_transfer, finish_chunked_transfer,
}
use hku_rest.Chunks.Decode.{digit_value, and_then, decode_chunks}
use hku_rest.Chunks.Frames.{numeral, IsHex, frames}
use hku_rest.Chunks.RoundTrip.{transfer, transfer-decode_chunks, transfer_is_cut}

abbrev digit : ℕ → ℕ
digit d = if ltb d 10 then b'0' + d else 87 + d

digit_value-digit : (d : ℕ) → d < 16 → digit_value (digit d) ≡ some d
unfolding digit_value
digit_value-digit d h = ground arith

unfoldable hex_on : ℕ → ℕ → Text
hex_on zero n = []
hex_on (suc f) n =
    let rest = hex_on f (n / 16) in if ltb n 16 then digit n ∷ [] else rest ++ digit (n % 16) ∷ []

abbrev hex : ℕ → Text
hex n = hex_on (suc n) n

numeral-append :
    (s : Text) (acc k c d : ℕ)
    → numeral acc s ≡ some k
    → digit_value c ≡ some d
    → numeral acc (s ++ c ∷ []) ≡ some (k * 16 + d)
unfolding numeral
numeral-append [] acc k c d h e = rw e (ground (arith, h))
numeral-append (a ∷ s) acc k c d h e = elim (Option-cases (digit_value a)) [
  | inl n ↦ absurd (ground (arith, n))
  | inr (b, n) ↦ rw n (
      numeral-append s (acc * 16 + b) k c d
        (ap (λ o. and_then o (λ x. numeral (acc * 16 + x) s)) (sym n) ∙ h) e)
]

numeral-digit : (d : ℕ) → d < 16 → numeral 0 (digit d ∷ []) ≡ some d
unfolding numeral
numeral-digit d h = rw (digit_value-digit d h) (ground arith)

numeral-hex_on : (f n : ℕ) → n < f → numeral 0 (hex_on f n) ≡ some n
unfolding hex_on
numeral-hex_on zero n h = absurd (omega arith)
numeral-hex_on (suc f) n h = elim (Bool-cases (ltb n 16)) [
  | inl t ↦ rw t (numeral-digit n (ground arith))
  | inr b ↦
      let large : 16 ≤ n = ground arith in
      let whole : n / 16 * 16 + n % 16 ≡ n = omega arith in
      rw b (
        numeral-append (hex_on f (n / 16)) 0 (n / 16) (digit (n % 16)) (n % 16)
          (numeral-hex_on f (n / 16) (omega arith)) (digit_value-digit (n % 16) (omega arith))
        ∙ ap some whole)
]

hex-IsHex : IsHex hex
hex-IsHex n = numeral-hex_on (suc n) n (omega arith)

abbrev idle : Transfer
idle = record { chunked_transfer = false; headers_sent = false; response_sent = false; wire = [] }

-- Without `enableChunkedTransfer` nothing is written.
writes_nothing : write_chunk (codes "H") hex true true (codes "a") idle ≡ (false, idle)
unfolding write_chunk
writes_nothing = refl

-- A transfer that writes no piece has no header.
sends_no_header : (transfer (codes "H") hex [] idle).wire ≡ last_chunk
unfolding enable_chunked_transfer write_chunks finish_chunked_transfer
sends_no_header = refl

prints_sizes :
    (transfer (codes "H") hex (codes "abc" ∷ []) idle).wire
    ≡ b'H' ∷ b'3' ∷ 13 ∷ 10 ∷ b'a' ∷ b'b' ∷ b'c' ∷ 13 ∷ 10 ∷ last_chunk
unfolding enable_chunked_transfer write_chunks finish_chunked_transfer hex_on
prints_sizes = refl

transfer-decode_chunks_example :
    (body : Text) × (((transfer (codes "H") hex (codes "ab" ∷ codes "c" ∷ []) idle).wire
        ≡ [] ++ (codes "H" ++ body))
      × ((decode_chunks 3 body ≡ some (codes "abc", []))
          × ((transfer (codes "H") hex (codes "ab" ∷ codes "c" ∷ []) idle).response_sent ≡ true)))
transfer-decode_chunks_example =
    transfer-decode_chunks (codes "H") hex (codes "ab") (codes "c" ∷ []) idle hex-IsHex
      (omega arith, (omega arith, tt))

transfer_is_cut_case :
    (body : Text) × (((transfer (codes "H") hex (codes "ab" ∷ [] ∷ codes "c" ∷ []) idle).wire
        ≡ [] ++ (codes "H" ++ body))
      × (decode_chunks 2 body ≡ some (codes "ab", frames hex (codes "c" ∷ []) ++ last_chunk)))
transfer_is_cut_case =
    transfer_is_cut (codes "H") hex (codes "ab") [] (codes "c" ∷ []) idle hex-IsHex
      (omega arith, tt)
