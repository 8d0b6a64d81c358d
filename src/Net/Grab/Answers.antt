-- ===== src/Net/Grab/Answers.antt =====
-- What the grab handler answers to a request for an archive.
use openrs.Base.{
  ℕ, ◌+◌, ◌≤◌, ◌<◌, ◌≡◌, refl, List, [], ◌∷◌, ◌++◌, ◌==◌, ◌&&◌, ◌||◌, arith, ok, All, length,
  length-append, drop-append, Bool, true, false,
}
use openrs.Base.Bytes.{IsByte, le_bytes, le_value, be_value}
use openrs.Common.Buffer.{Buffer, fresh, size_mod}
use openrs.Common.Buffer.Read.{IsValid, ahead, get_byte, get_data_at}
use openrs.Net.Packet.{grab_cache}
use openrs.Net.Session.{Session, grab, send, send_bytes}
use openrs.Net.Handler.{Server}
use openrs.Net.Grab.{go_on, serve, handle_request, answer_settings, real_length, read_archive_head}
use openrs.Net.Grab.Chunks.{chunk_bytes, unchunk, copy_chunked_lem, unchunk-chunk_bytes}

-- In the grab stage an answer goes out as it is, with no operation code.
pub send_grab :
    (bytes : List ℕ) (s : Session)
    → s.encoder ≡ grab
    → send (record { type = grab_cache; payload = fresh bytes }) s ≡ (ok tt, send_bytes bytes s)
unfolding send
send_grab [] s e = rw e
send_grab (x ∷ xs) s e = rw e (ground arith)

read_head :
    (compression : ℕ) (length_raw body : List ℕ)
    → length length_raw ≡ 4
    → length body + 16 < size_mod
    → read_archive_head (fresh (compression ∷ length_raw ++ body)) ≡ (
      ok (compression, length_raw),
      record { bytes = compression ∷ length_raw ++ body; position = 5 },
    )
unfolding read_archive_head
read_head compression length_raw body four fits =
    let valid : IsValid (fresh (compression ∷ length_raw ++ body)) = record {
      within = omega arith;
      fits = omega (arith, length-append length_raw body);
    } in
    rw (
      get_byte (fresh (compression ∷ length_raw ++ body)) compression (length_raw ++ body) valid
          refl,
      get_data_at (compression ∷ []) length_raw body 4 four (omega arith) (omega arith)
          (omega arith),
    )

module _ (server : Server) (s : Session) (index_id compression : ℕ)
    (archive_raw length_raw body rest : List ℕ)
    (other : (be_value archive_raw == 255 && index_id == 255) ≡ false)
    (there : server.archive_data index_id (be_value archive_raw)
      ≡ ok (compression ∷ length_raw ++ (body ++ rest)))
    (enc : s.encoder ≡ grab) (four : length length_raw ≡ 4)
    (long : length body ≡ real_length compression (be_value length_raw)) (bytes : All IsByte body)
    (fits : length body + length rest + 16 < size_mod) where
  archive : List ℕ
  archive = compression ∷ length_raw ++ (body ++ rest)

  abbrev head : Bool → List ℕ
  head priority =
      le_bytes 1 index_id
      ++ le_bytes 4 (le_value archive_raw)
      ++ le_bytes 1 (answer_settings priority compression)
      ++ le_bytes 4 (le_value length_raw)

  total : length (body ++ rest) + 16 < size_mod
  total = omega (arith, length-append body rest)

  left : Buffer
  left = record { bytes = archive; position = 5 }

  left-IsValid : IsValid left
  unfolding left archive
  left-IsValid = record {
    within = omega (arith, length-append length_raw (body ++ rest));
    fits = omega (arith, length-append length_raw (body ++ rest), total);
  }

  ahead-left : ahead left ≡ body ++ rest
  unfolding left archive
  ahead-left = drop-append (compression ∷ length_raw) (body ++ rest) 5 (omega arith)

  serve_lem :
      (priority : Bool)
      → serve server priority index_id archive_raw s
        ≡ (ok go_on, send_bytes (head priority ++ chunk_bytes (length (head priority)) body) s)
  unfolding serve archive left
  serve_lem priority = rw (
    other,
    there,
    read_head compression length_raw (body ++ rest) four total,
    ← long,
    copy_chunked_lem body rest left (fresh (head priority)) left-IsValid bytes ahead-left,
    send_grab (head priority ++ chunk_bytes (length (head priority)) body) s enc,
  )

-- A request of priority 0 or 1, in the grab stage and not for the update keys, for an archive that
-- the cache has with as many bytes behind its head as its length says, is answered by one message:
-- the index, the archive, the settings and the length that stand in the request and in the
-- archive, and then the archive's body cut into chunks, from which the client puts it together
-- again.
pub handle_request_lem :
    (server : Server) (s : Session) (priority index_id compression : ℕ)
    → (archive_raw length_raw body rest : List ℕ) → priority ≤ 1
    → (be_value archive_raw == 255 && index_id == 255) ≡ false
    → server.archive_data index_id (be_value archive_raw)
      ≡ ok (compression ∷ length_raw ++ (body ++ rest))
    → s.encoder ≡ grab
    → length length_raw ≡ 4
    → length body ≡ real_length compression (be_value length_raw)
    → All IsByte body
    → length body + length rest + 16 < size_mod
    → let head =
        le_bytes 1 index_id
        ++ le_bytes 4 (le_value archive_raw)
        ++ le_bytes 1 (answer_settings (priority == 1) compression)
        ++ le_bytes 4 (le_value length_raw) in
      (chunks : List ℕ) × (handle_request server priority index_id archive_raw s
        ≡ (ok go_on, send_bytes (head ++ chunks) s))
      × (unchunk (length head) chunks ≡ body)
unfolding handle_request
handle_request_lem server s priority index_id compression archive_raw length_raw body rest low other
      there enc four long bytes fits =
    let head : List ℕ =
      le_bytes 1 index_id
      ++ le_bytes 4 (le_value archive_raw)
      ++ le_bytes 1 (answer_settings (priority == 1) compression)
      ++ le_bytes 4 (le_value length_raw) in
    let valid : (priority == 0 || priority == 1) ≡ true = ground arith in
    (
      chunk_bytes (length head) body,
      rw (
        valid,
        serve_lem server s index_id compression archive_raw length_raw body rest other there enc
            four long bytes fits (priority == 1),
      ),
      unchunk-chunk_bytes (length head) body,
    )
