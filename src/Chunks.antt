-- ===== src/Chunks.antt =====
-- The chunked responses of hikyuu/httpd/HttpHandle.h and HttpHandle.cpp: a handler that writes its
-- response in parts, onto the socket.
pub mod Decode
pub mod Guards
pub mod Frames
pub mod RoundTrip
pub mod Examples
use hku_rest.Prelude.{ℕ, Bool, true, false, not, ◌&&◌, List, [], ◌∷◌, ◌++◌, if◌then◌else◌, length}
use hku_rest.Prelude.Text.{Text}

-- `m_chunked_transfer` and `m_headers_sent` of the handle, `response_sent` of the context, and what
-- was written onto the socket.
pub record Transfer : Type 0 where
  pub chunked_transfer : Bool
  pub headers_sent : Bool
  pub response_sent : Bool
  pub wire : Text

abbrev pub crlf : Text
crlf = 13 ∷ 10 ∷ []

abbrev pub last_chunk : Text
last_chunk = b'0' ∷ (crlf ++ crlf)

pub enable_chunked_transfer : Transfer → Transfer
enable_chunked_transfer t = record t { chunked_transfer = true; headers_sent = false }

-- A size as `fmt` prints it in base 16: `hex`.
module _ (hex : ℕ → Text) where
  abbrev pub frame : Text → Text
  frame piece = hex (length piece) ++ (crlf ++ (piece ++ crlf))

-- The response set by the handler, as Beast prints its header: `head`.
module _ (head : Text) (hex : ℕ → Text) where
  -- The header, before the first chunk; its flag is set before it is written.
  abbrev pub send_headers : Bool → Transfer → Transfer
  send_headers written t =
      if t.headers_sent
      then t
      else record t { headers_sent = true; wire = if written then t.wire ++ head else t.wire }

  abbrev pub send_frame : Bool → Text → Transfer → Bool × Transfer
  send_frame written piece t =
      if written then (true, record t { wire = t.wire ++ frame hex piece }) else (false, t)

  -- `writeChunk`, with the success of its two writes; the second is not tried after a failed first.
  pub write_chunk : Bool → Bool → Text → Transfer → Bool × Transfer
  write_chunk header_written chunk_written piece t =
      if not t.chunked_transfer
      then (false, t)
      else if not t.headers_sent && not header_written
      then (false, send_headers false t)
      else send_frame chunk_written piece (send_headers true t)

  -- `finishChunkedTransfer`: after a failed write the handle stays as it was, but the response still
  -- counts as sent.
  pub finish_chunked_transfer : Bool → Transfer → Bool × Transfer
  finish_chunked_transfer written t =
      if not t.chunked_transfer
      then (false, t)
      else if written
      then (
        true,
        record t {
          chunked_transfer = false;
          headers_sent = false;
          response_sent = true;
          wire = t.wire ++ last_chunk;
        },
      )
      else (false, record t { response_sent = true })

  -- `writeChunkSync` puts the header together by hand and reads error codes where `writeChunk` catches
  -- exceptions.
  pub write_chunk_sync : Bool → Bool → Text → Transfer → Bool × Transfer
  write_chunk_sync header_written chunk_written piece t =
      if not t.chunked_transfer
      then (false, t)
      else if not t.headers_sent && not header_written
      then (false, send_headers false t)
      else send_frame chunk_written piece (send_headers true t)

  -- `finishChunkedTransferSync`: an error code does not keep it from the end of the transfer.
  pub finish_chunked_transfer_sync : Bool → Transfer → Bool × Transfer
  finish_chunked_transfer_sync written t = if not t.chunked_transfer then (false, t) else (
    written,
    record t {
      chunked_transfer = false;
      headers_sent = false;
      response_sent = true;
      wire = if written then t.wire ++ last_chunk else t.wire;
    },
  )

  -- A handler that writes some chunks.
  pub write_chunks : List Text → Transfer → Transfer
  unfolding write_chunk
  write_chunks [] t = t
  write_chunks (piece ∷ rest) t = write_chunks rest (write_chunk true true piece t).1
