-- ===== src/Messages/Sequences.antt =====
-- What the validator of hikyuu/httpd/HttpServer.cpp knows of one sequence that it accepts.
use hku_rest.Prelude.{ℕ, ◌<◌, ◌≤◌, ◌≡◌, ◌≢◌, ◌⊎◌, inl, inr, true, some, [], ◌∷◌, arith}
use hku_rest.Prelude.Text.{Text}
use hku_rest.Messages.{seq_len, is_continuation, codepoint, next_sequence}
use hku_rest.Messages.Complete.{seq_len_1, seq_len_2, seq_len_3, seq_len_4}

pub next_two_cases :
    (c : ℕ) (rest left : Text)
    → 192 ≤ c
    → c < 224
    → next_sequence c rest ≡ some left
    → (b : ℕ) × ((rest ≡ b ∷ left) × ((is_continuation b ≡ true) × (194 ≤ c)))
unfolding next_sequence
next_two_cases c [] left h k e = ground (arith, seq_len_2 c h k)
next_two_cases c (b ∷ r) left h k e = (b, ground (arith, seq_len_2 c h k))

pub next_three_cases :
    (c : ℕ) (rest left : Text)
    → 224 ≤ c
    → c < 240
    → next_sequence c rest ≡ some left
    → (b1 : ℕ) × (b2 : ℕ) × ((rest ≡ b1 ∷ b2 ∷ left)
        × ((is_continuation b1 ≡ true) × (is_continuation b2 ≡ true)))
unfolding next_sequence
next_three_cases c [] left h k e = ground (arith, seq_len_3 c h k)
next_three_cases c (b1 ∷ []) left h k e = ground (arith, seq_len_3 c h k)
next_three_cases c (b1 ∷ b2 ∷ r) left h k e = (b1, b2, ground (arith, seq_len_3 c h k))

pub next_four_cases :
    (c : ℕ) (rest left : Text)
    → 240 ≤ c
    → c < 248
    → next_sequence c rest ≡ some left
    → (b1 : ℕ) × (b2 : ℕ) × (b3 : ℕ) × ((rest ≡ b1 ∷ b2 ∷ b3 ∷ left)
        × ((is_continuation b1 ≡ true)
            × ((is_continuation b2 ≡ true)
                × ((is_continuation b3 ≡ true) × (codepoint c rest ≤ 0x10FFFF)))))
unfolding next_sequence
next_four_cases c [] left h k e = ground (arith, seq_len_4 c h k)
next_four_cases c (b1 ∷ []) left h k e = ground (arith, seq_len_4 c h k)
next_four_cases c (b1 ∷ b2 ∷ []) left h k e = ground (arith, seq_len_4 c h k)
next_four_cases c (b1 ∷ b2 ∷ b3 ∷ r) left h k e = (b1, b2, b3, ground (arith, seq_len_4 c h k))

pub seq_len_none : (c : ℕ) → (128 ≤ c × c < 192) ⊎ (248 ≤ c × c < 256) → seq_len c ≡ 0
seq_len_none c (inl h) = ground arith
seq_len_none c (inr h) = ground arith

pub next_none :
    (c : ℕ) (rest left : Text)
    → (128 ≤ c × c < 192) ⊎ (248 ≤ c × c < 256)
    → next_sequence c rest ≢ some left
unfolding next_sequence
next_none c rest left h e = ground (arith, seq_len_none c h)

pub next_one : (c : ℕ) (rest left : Text) → c < 128 → next_sequence c rest ≡ some left → rest ≡ left
unfolding next_sequence
next_one c rest left h e = ground (arith, seq_len_1 c h)
