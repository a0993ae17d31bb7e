-- ===== src/Chunks/Guards.antt =====
-- The guards of the chunked transfer of hikyuu/httpd/HttpHandle.cpp.
use hku_rest.Prelude.{ℕ, ◌≡◌, refl, true, false}
use hku_rest.Prelude.Text.{Text}
use hku_rest.Chunks.{Transfer, write_chunk, finish_chunked_transfer, finish_chunked_transfer_sync}

-- A chunk of a transfer that was not enabled is not written.
pub write_chunk-disabled :
    (head : Text) (hex : ℕ → Text) (piece : Text) (t : Transfer)
    → t.chunked_transfer ≡ false
    → (write_chunk head hex true true piece t).1 ≡ t
unfolding write_chunk
write_chunk-disabled head hex piece t h = rw h refl

-- The two ways to finish a transfer differ where the last write fails: then only the synchronous one
-- leaves the transfer, and both answer that they failed and count the response as sent.
pub finish_chunked_transfer-sync :
    (head : Text) (hex : ℕ → Text) (t : Transfer)
    → t.chunked_transfer ≡ true
    → (finish_chunked_transfer head hex true t ≡ finish_chunked_transfer_sync head hex true t)
      × ((finish_chunked_transfer head hex false t).1.chunked_transfer ≡ true)
      × ((finish_chunked_transfer_sync head hex false t).1.chunked_transfer ≡ false)
      × ((finish_chunked_transfer head hex false t).0
          ≡ (finish_chunked_transfer_sync head hex false t).0)
      × ((finish_chunked_transfer head hex false t).1.response_sent ≡ true)
      × ((finish_chunked_transfer_sync head hex false t).1.response_sent ≡ true)
unfolding finish_chunked_transfer finish_chunked_transfer_sync
finish_chunked_transfer-sync head hex t h = rw h (refl, refl, refl, refl, refl, refl)
