-- ===== src/Chunks/Frames.antt =====
-- How a receiver reads the frames of hikyuu/httpd/HttpHandle.cpp.
use hku_rest.Prelude.{
  ℕ, suc, ◌+◌, ◌*◌, ◌<◌, ◌≤◌, ◌≡◌, refl, sym, ap, subst, ◌∙◌, true, false, Option, none, some,
  Option-cases, Bool-cases, inl, inr, List, [], ◌∷◌, ◌++◌, leb, ◌==◌, length, All, length-append,
  drop-length_append, take-length_append, arith,
}
use hku_rest.Prelude.Text.{Text}
use hku_rest.Chunks.{crlf, frame}
use hku_rest.Chunks.Decode.{digit_value, skip_crlf, parse_size, and_then, decode_chunks}

-- The number that a text of digits in base 16 stands for, after digits that amount to `acc`.
unfoldable pub numeral : ℕ → Text → Option ℕ
unfolding digit_value
numeral acc [] = some acc
numeral acc (c ∷ s) = and_then (digit_value c) (λ d. numeral (acc * 16 + d) s)

-- What `fmt` documents of the format `{:x}`.
abbrev pub IsHex : (ℕ → Text) → Type 0
IsHex hex = (n : ℕ) → numeral 0 (hex n) ≡ some n

pub digit_value_13 : digit_value 13 ≡ none
unfolding digit_value
digit_value_13 = refl

skip-crlf : (rest : Text) → skip_crlf (crlf ++ rest) ≡ some rest
unfolding skip_crlf
skip-crlf rest = refl

parse-end : (acc : ℕ) (rest : Text) → parse_size acc (crlf ++ rest) ≡ some (acc, rest)
unfolding parse_size
parse-end acc rest = refl

parse-digit :
    (acc c d : ℕ) (s : Text)
    → digit_value c ≡ some d
    → parse_size acc (c ∷ s) ≡ parse_size (acc * 16 + d) s
unfolding parse_size
parse-digit acc c d s h = elim (Bool-cases (c == 13)) [
  | inl t ↦
      let is13 : c ≡ 13 = ground arith in
      absurd (ground (arith, digit_value_13, sym h ∙ ap digit_value is13))
  | inr f ↦ rw (f, h) refl
]

parse-numeral :
    (s : Text) (acc n : ℕ) (rest : Text)
    → numeral acc s ≡ some n
    → parse_size acc (s ++ (crlf ++ rest)) ≡ some (n, rest)
unfolding numeral
parse-numeral [] acc n rest h = parse-end acc rest ∙ ap (λ o. and_then o (λ k. some (k, rest))) h
parse-numeral (c ∷ s) acc n rest h = elim (Option-cases (digit_value c)) [
  | inl e ↦ absurd (ground (arith, e))
  | inr (d, e) ↦
      parse-digit acc c d (s ++ (crlf ++ rest)) e
      ∙ parse-numeral s (acc * 16 + d) n rest
          (ap (λ o. and_then o (λ k. numeral (acc * 16 + k) s)) (sym e) ∙ h)
]

pub le→leb : (a b : ℕ) → a ≤ b → leb a b ≡ true
le→leb a b h = ground arith

pub zero_add : (n : ℕ) → n ≡ 0 + n
zero_add n = omega arith

pub append_nil : (a : Text) → a ++ [] ≡ a
append_nil [] = refl
append_nil (x ∷ a) = ap (λ r. x ∷ r) (append_nil a)

pub append_assoc : (a b c : Text) → (a ++ b) ++ c ≡ a ++ (b ++ c)
append_assoc [] b c = refl
append_assoc (x ∷ a) b c = ap (λ r. x ∷ r) (append_assoc a b c)

abbrev pub IsNonempty : Text → Type 0
IsNonempty piece = 0 < length piece

abbrev pub concat : List Text → Text
concat [] = []
concat (p ∷ ps) = p ++ concat ps

module _ (hex : ℕ → Text) where
  abbrev pub frames : List Text → Text
  frames [] = []
  frames (p ∷ ps) = frame hex p ++ frames ps

  frame-append :
      (piece s : Text)
      → frame hex piece ++ s ≡ hex (length piece) ++ (crlf ++ (piece ++ (crlf ++ s)))
  frame-append piece s =
      append_assoc (hex (length piece)) (crlf ++ (piece ++ crlf)) s
      ∙ ap (λ r. hex (length piece) ++ (crlf ++ r)) (append_assoc piece crlf s)

  module _ (is_hex : IsHex hex) where
    parse-frame :
        (piece s : Text)
        → parse_size 0 (frame hex piece ++ s) ≡ some (length piece, piece ++ (crlf ++ s))
    parse-frame piece s =
        ap (parse_size 0) (frame-append piece s)
        ∙ parse-numeral (hex (length piece)) 0 (length piece) (piece ++ (crlf ++ s))
            (is_hex (length piece))

    decode-frame :
        (fuel : ℕ) (piece s : Text)
        → IsNonempty piece
        → decode_chunks (suc fuel) (frame hex piece ++ s)
          ≡ and_then (decode_chunks fuel s) (λ q. some (piece ++ q.0, q.1))
    unfolding decode_chunks
    decode-frame fuel piece s h =
        let filled : (length piece == 0) ≡ false = ground arith in
        let fits : leb (length piece) (length (piece ++ (crlf ++ s))) ≡ true =
          le→leb (length piece) (length (piece ++ (crlf ++ s)))
            (omega (arith, length-append piece (crlf ++ s))) in
        rw
          (
            parse-frame piece s,
            drop-length_append piece (crlf ++ s),
            take-length_append piece (crlf ++ s),
            filled,
            fits,
          )
          refl

    -- An empty piece is the last chunk to its receiver.
    pub decode-empty_frame :
        (fuel : ℕ) (s : Text) → decode_chunks (suc fuel) (frame hex [] ++ s) ≡ some ([], s)
    unfolding decode_chunks
    decode-empty_frame fuel s = rw (parse-frame [] s) refl

    pub decode-frames :
        (ps : List Text) (fuel : ℕ) (s body rest : Text)
        → All IsNonempty ps
        → decode_chunks fuel s ≡ some (body, rest)
        → decode_chunks (length ps + fuel) (frames ps ++ s) ≡ some (concat ps ++ body, rest)
    decode-frames [] fuel s body rest h e =
        subst (λ n. decode_chunks n s ≡ some (body, rest)) (zero_add fuel) e
    decode-frames (p ∷ ps) fuel s body rest h e =
        let fuel_same : length (p ∷ ps) + fuel ≡ suc (length ps + fuel) = omega arith in
        rw (append_assoc (frame hex p) (frames ps) s, append_assoc p (concat ps) body, fuel_same)
          (decode-frame (length ps + fuel) p (frames ps ++ s) h.0
            ∙ ap (λ o. and_then o (λ q. some (p ++ q.0, q.1)))
                (decode-frames ps fuel s body rest h.1 e))
