-- ===== src/Chunks/RoundTrip.antt =====
-- The chunks that hikyuu/httpd/HttpHandle.cpp writes, and what a receiver reads of them.
use hku_rest.Prelude.{
  ℕ, suc, ◌+◌, ◌≡◌, refl, sym, ap, subst, ◌∙◌, Bool, true, false, some, List, [], ◌∷◌, ◌++◌, length,
  All, arith,
}
use hku_rest.Prelude.Text.{Text}
use hku_rest.Chunks.{
  Transfer, last_chunk, enable_chunked_transfer, frame, finish_chunked_transfer, write_chunks,
}
use hku_rest.Chunks.Decode.{decode_chunks}
use hku_rest.Chunks.Frames.{
  IsHex, append_nil, append_assoc, IsNonempty, concat, frames, decode-empty_frame, decode-frames,
}

module _ (head : Text) (hex : ℕ → Text) where
  -- A transfer whose header is out.
  abbrev running : Text → Bool → Transfer
  running w sent = record {
    chunked_transfer = true;
    headers_sent = true;
    response_sent = sent;
    wire = w;
  }

  write_chunks-running :
      (ps : List Text) (w : Text) (sent : Bool)
      → write_chunks head hex ps (running w sent) ≡ running (w ++ frames hex ps) sent
  unfolding write_chunks
  write_chunks-running [] w sent = ap (λ x. running x sent) (sym (append_nil w))
  write_chunks-running (p ∷ ps) w sent =
      write_chunks-running ps (w ++ frame hex p) sent
      ∙ ap (λ x. running x sent) (append_assoc w (frame hex p) (frames hex ps))

  -- What a handler leaves on the wire that enables the transfer, writes some pieces and finishes.
  abbrev pub transfer : List Text → Transfer → Transfer
  transfer ps t =
      (finish_chunked_transfer head hex true
        (write_chunks head hex ps (enable_chunked_transfer t))).1

  transfer-wire :
      (p : Text) (ps : List Text) (t : Transfer)
      → transfer (p ∷ ps) t ≡ record {
        chunked_transfer = false;
        headers_sent = false;
        response_sent = true;
        wire = ((t.wire ++ head) ++ frames hex (p ∷ ps)) ++ last_chunk;
      }
  unfolding write_chunks finish_chunked_transfer enable_chunked_transfer
  transfer-wire p ps t =
      ap (λ x. (finish_chunked_transfer head hex true x).1)
        (write_chunks-running ps ((t.wire ++ head) ++ frame hex p) t.response_sent)
      ∙ ap (λ w. sent_with (w ++ last_chunk))
          (append_assoc (t.wire ++ head) (frame hex p) (frames hex ps))
    where
      sent_with : Text → Transfer
      sent_with w = record {
        chunked_transfer = false;
        headers_sent = false;
        response_sent = true;
        wire = w;
      }

  transfer_body :
      (p : Text) (ps : List Text) (t : Transfer)
      → (transfer (p ∷ ps) t).wire ≡ t.wire ++ (head ++ (frames hex (p ∷ ps) ++ last_chunk))
  transfer_body p ps t =
      ap (λ x. x.wire) (transfer-wire p ps t)
      ∙ append_assoc (t.wire ++ head) (frames hex (p ∷ ps)) last_chunk
      ∙ append_assoc t.wire head (frames hex (p ∷ ps) ++ last_chunk)

decode_last : decode_chunks 1 last_chunk ≡ some ([], [])
unfolding decode_chunks
decode_last = refl

frames-append :
    (hex : ℕ → Text) (ps qs : List Text) (s : Text)
    → frames hex (ps ++ qs) ++ s ≡ frames hex ps ++ (frames hex qs ++ s)
frames-append hex [] qs s = refl
frames-append hex (p ∷ ps) qs s =
    append_assoc (frame hex p) (frames hex (ps ++ qs)) s
    ∙ ap (λ r. frame hex p ++ r) (frames-append hex ps qs s)
    ∙ sym (append_assoc (frame hex p) (frames hex ps) (frames hex qs ++ s))

-- A handler that enables the chunked transfer, writes some pieces, none of them empty, and
-- finishes, puts the header on the wire and then a body that a receiver reads as the pieces one
-- after the other, with nothing left; and the response counts as sent.
pub transfer-decode_chunks :
    (head : Text) (hex : ℕ → Text) (p : Text) (ps : List Text) (t : Transfer)
    → IsHex hex
    → All IsNonempty (p ∷ ps)
    → (body : Text) × (((transfer head hex (p ∷ ps) t).wire ≡ t.wire ++ (head ++ body))
        × ((decode_chunks (suc (suc (length ps))) body ≡ some (concat (p ∷ ps), []))
            × ((transfer head hex (p ∷ ps) t).response_sent ≡ true)))
transfer-decode_chunks head hex p ps t is_hex h = (
  frames hex (p ∷ ps) ++ last_chunk,
  (
    transfer_body head hex p ps t,
    (
      subst (λ n. decode_chunks n (frames hex (p ∷ ps) ++ last_chunk) ≡ some (concat (p ∷ ps), []))
          (omega arith)
          (subst
            (λ b.
              decode_chunks (suc (length ps) + 1) (frames hex (p ∷ ps) ++ last_chunk)
              ≡ some (b, []))
            (append_nil (concat (p ∷ ps)))
            (decode-frames hex is_hex (p ∷ ps) 1 last_chunk [] [] h decode_last)),
      ap (λ x. x.response_sent) (transfer-wire head hex p ps t),
    ),
  ),
)

-- An empty piece ends the response for its receiver: the pieces before it are the whole body, and
-- what the handler writes after it is read as the beginning of the next response.
pub transfer_is_cut :
    (head : Text) (hex : ℕ → Text) (p : Text) (ps qs : List Text) (t : Transfer)
    → IsHex hex
    → All IsNonempty (p ∷ ps)
    → (body : Text) × (((transfer head hex (p ∷ (ps ++ [] ∷ qs)) t).wire ≡ t.wire ++ (head ++ body))
        × (decode_chunks (suc (suc (length ps))) body
            ≡ some (concat (p ∷ ps), frames hex qs ++ last_chunk)))
transfer_is_cut head hex p ps qs t is_hex h = (
  frames hex (p ∷ (ps ++ [] ∷ qs)) ++ last_chunk,
  (
    transfer_body head hex p (ps ++ [] ∷ qs) t,
    ap (decode_chunks (suc (suc (length ps)))) (
          frames-append hex (p ∷ ps) ([] ∷ qs) last_chunk
          ∙ ap (λ r. frames hex (p ∷ ps) ++ r)
              (append_assoc (frame hex []) (frames hex qs) last_chunk))
        ∙ subst
            (λ n.
              decode_chunks n
                (frames hex (p ∷ ps) ++ (frame hex [] ++ (frames hex qs ++ last_chunk)))
              ≡ some (concat (p ∷ ps), frames hex qs ++ last_chunk))
            (omega arith)
            (subst
              (λ b.
                decode_chunks (suc (length ps) + 1)
                  (frames hex (p ∷ ps) ++ (frame hex [] ++ (frames hex qs ++ last_chunk)))
                ≡ some (b, frames hex qs ++ last_chunk))
              (append_nil (concat (p ∷ ps)))
              (decode-frames hex is_hex (p ∷ ps) 1 (frame hex [] ++ (frames hex qs ++ last_chunk))
                [] (frames hex qs ++ last_chunk) h
                (decode-empty_frame hex is_hex 0 (frames hex qs ++ last_chunk)))),
  ),
)
