-- ===== src/Messages.antt =====
-- hikyuu/httpd/HttpServer.cpp, `WebSocketConnection::validateWebSocketMessage`: which messages the
-- server takes from a client.  Bytes are numbers below 256; the masks of the source are divisions.
pub mod Utf8
pub mod Complete
pub mod Sequences
pub mod Decode
pub mod Sound
pub mod Gaps
pub mod Examples
use hku_rest.Prelude.{
  ℕ, zero, suc, ◌+◌, ◌-◌, ◌*◌, ◌/◌, ◌%◌, ◌^◌, Bool, true, false, not, ◌&&◌, ◌||◌, Option, none,
  some, List, [], ◌∷◌, ltb, leb, ◌==◌, if◌then◌else◌, length, take, drop, is_empty,
}
use hku_rest.Prelude.Text.{Text}

-- `WebSocketConfig::MAX_FRAME_SIZE` and `MAX_MESSAGE_SIZE`.
abbrev pub max_frame_size : ℕ
max_frame_size = 15 * 1024 * 1024

abbrev pub max_message_size : ℕ
max_message_size = 15 * 1024 * 1024

-- The length of the sequence that a byte begins, 0 for a byte that begins none: the tests are
-- `c < 0x80`, `(c & 0xE0) == 0xC0`, `(c & 0xF0) == 0xE0` and `(c & 0xF8) == 0xF0`.
abbrev pub seq_len : ℕ → ℕ
seq_len c =
    if ltb c 0x80
    then 1
    else if c / 32 == 6
    then 2
    else if c / 16 == 14
    then 3
    else if c / 8 == 30
    then 4
    else 0

-- `(cont & 0xC0) == 0x80`
abbrev pub is_continuation : ℕ → Bool
is_continuation b = b / 64 == 2

abbrev pub all_continuation : Text → Bool
all_continuation [] = true
all_continuation (b ∷ bs) = is_continuation b && all_continuation bs

-- The code point of a sequence of four bytes, from its first byte and those after it.
abbrev pub codepoint : ℕ → Text → ℕ
codepoint c (b1 ∷ b2 ∷ b3 ∷ _) = (c % 8) * 2 ^ 18 + (b1 % 64) * 2 ^ 12 + (b2 % 64) * 2 ^ 6 + b3 % 64
codepoint c _ = 0

-- The last two tests: an overlong sequence of two bytes, and the range of one of four bytes.
abbrev pub is_in_range : ℕ → Text → Bool
is_in_range c rest =
    if seq_len c == 2 && ltb c 0xC2
    then false
    else if seq_len c == 4
    then (if ltb 0x10FFFF (codepoint c rest)
        then false
        else not (leb 0xD800 (codepoint c rest) && leb (codepoint c rest) 0xDFFF))
    else true

-- One turn of the loop at the byte `c`: what is left after the sequence, if that is accepted.
unfoldable pub next_sequence : ℕ → Text → Option Text
next_sequence c rest =
    if seq_len c == 0
    then none
    else if ltb (length (c ∷ rest)) (seq_len c)
    then none
    else if not (all_continuation (take (seq_len c - 1) rest))
    then none
    else if not (is_in_range c rest)
    then none
    else some (drop (seq_len c - 1) rest)

-- The loop, on fuel.
unfoldable pub is_utf8 : ℕ → Text → Bool
unfolding next_sequence
is_utf8 fuel [] = true
is_utf8 zero (c ∷ rest) = false
is_utf8 (suc fuel) (c ∷ rest) = elim (next_sequence c rest) [
  | none ↦ false
  | some left ↦ is_utf8 fuel left
]

abbrev pub is_control : ℕ → Bool
is_control c = ltb c 0x20 && (not (c == 0x09) && (not (c == 0x0A) && not (c == 0x0D))) || c == 0x7F

abbrev pub has_control : Text → Bool
has_control [] = false
has_control (c ∷ cs) = is_control c || has_control cs

-- The loop makes at most one turn for each byte.
abbrev pub is_clean_text : Text → Bool
is_clean_text message = is_utf8 (length message) message && not (has_control message)

unfoldable pub validate_message : Text → Bool → Bool
unfolding is_utf8
validate_message message is_text =
    if is_empty message
    then false
    else if ltb max_frame_size (length message)
    then false
    else if ltb max_message_size (length message)
    then false
    else if is_text
    then is_clean_text message
    else true
