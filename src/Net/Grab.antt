-- ===== src/Net/Grab.antt =====
-- openrs/src/net/codec/handler/global/grabpackethandler.cpp: the requests for parts of the cache,
-- and how the answers are cut into chunks of 512 bytes.
pub mod Chunks
pub mod Answers
pub mod Keys
use openrs.Base.{
  ℕ, zero, suc, ◌+◌, ◌%◌, ◌^◌, List, [], ◌∷◌, Bool, true, false, not, ◌&&◌, ◌||◌, ◌==◌,
  if◌then◌else◌, ltb, bit_or, M, Outcome, ok, fail, throws, undefined, ◌>>=◌, ◌>>◌, return,
}
use openrs.Base.Bytes.{le_value, be_value}
use openrs.Common.Buffer.{
  Buffer, empty, fresh, size, get_le, get_data, put_data, put_data_be, put_data_le,
}
use openrs.Common.Buffer.Read.{ahead}
use openrs.Net.Packet.{Packet, grab_cache}
use openrs.Net.Session.{Session, disconnected, send, set_status}
use openrs.Net.Handler.{Server, done, update}

-- One byte of an answer, with a marker before it at the beginning of each chunk.
unfoldable pub put_chunked : ℕ → Buffer → Buffer
unfolding put_data
put_chunked c output =
    put_data 1 c (if size output % 512 == 0 then put_data 1 255 output else output)

abbrev pub copy_next :
    (Buffer → Buffer → Outcome Buffer) → Buffer → Outcome ℕ × Buffer → Outcome Buffer
copy_next k output (ok c, source) = k source (put_chunked c output)
copy_next k output (fail, source) = fail
copy_next k output (throws, source) = throws
copy_next k output (undefined, source) = undefined

-- n rounds of the loop over the bytes of `source`, in both functions that have it.
unfoldable pub copy_chunked : ℕ → Buffer → Buffer → Outcome Buffer
unfolding get_le put_chunked
copy_chunked zero source output = ok output
copy_chunked (suc n) source output = copy_next (copy_chunked n) output (get_le 1 source)

-- The rounds of the loop of `PackCacheData`, whose counter is a `uint32_t`: it never reaches a size of 2 ^ 32
-- or more, so that the loop goes on until a byte is missing.
abbrev pub pack_rounds : ℕ → ℕ
pack_rounds n = if ltb n (2 ^ 32) then n else n + 1

-- `PackCacheData`.
unfoldable pub pack_cache_data : ℕ → ℕ → ℕ → ℕ → Buffer → Buffer → Outcome Buffer
unfolding copy_chunked put_data put_data_be
pack_cache_data index_id archive_id settings real_length cache_data output =
    copy_chunked (pack_rounds (size cache_data)) cache_data (
      put_data_be 4 real_length
        (put_data 1 settings (put_data_be 4 archive_id (put_data 1 index_id output))))

-- Whether the loop over the requests goes on.
pub data Next : Type 0 where
  go_on stop : Next

-- The compression byte and the length of an archive; an integer is kept as the bytes that the
-- pointer stands at.
unfoldable pub read_archive_head : M Buffer (ℕ × List ℕ)
unfolding get_le get_data
read_archive_head = do
  compression ← get_le 1
  length_raw ← get_data 4
  return (compression, length_raw)

abbrev pub answer_settings : Bool → ℕ → ℕ
answer_settings priority compression = if priority then compression else bit_or compression 0x80

-- `real_length`, a `uint32_t`.
abbrev pub real_length : ℕ → ℕ → ℕ
real_length compression stored = if compression == 0 then stored else (stored + 4) % 2 ^ 32

unfoldable pub answer_head : Bool → ℕ → List ℕ → ℕ → List ℕ → Buffer
unfolding put_data_le
answer_head priority index_id archive_raw compression length_raw =
    put_data_le 4 (le_value length_raw) (
      put_data_le 1 (answer_settings priority compression)
        (put_data_le 4 (le_value archive_raw) (put_data_le 1 index_id empty)))

abbrev pub send_answer : Outcome Buffer → M Session Next
send_answer (ok output) = send (record { type = grab_cache; payload = output }) >> return go_on
send_answer fail = return stop
send_answer throws = λ s. (throws, s)
send_answer undefined = λ s. (undefined, s)

abbrev pub answer_read : Bool → ℕ → List ℕ → Outcome (ℕ × List ℕ) × Buffer → M Session Next
answer_read priority index_id archive_raw (ok (compression, length_raw), data_left) = send_answer (
    copy_chunked (real_length compression (be_value length_raw)) data_left
      (answer_head priority index_id archive_raw compression length_raw))
answer_read priority index_id archive_raw (fail, data_left) = return stop
answer_read priority index_id archive_raw (throws, data_left) = λ s. (throws, s)
answer_read priority index_id archive_raw (undefined, data_left) = λ s. (undefined, s)

-- What `CacheManager::GetArchiveData` gave. A `runtime_error` is caught and ends the loop.
abbrev pub answer_archive : Bool → ℕ → List ℕ → Outcome (List ℕ) → M Session Next
answer_archive priority index_id archive_raw (ok cache_data) =
    answer_read priority index_id archive_raw (read_archive_head (fresh cache_data))
answer_archive priority index_id archive_raw fail = return go_on
answer_archive priority index_id archive_raw throws = return stop
answer_archive priority index_id archive_raw undefined = λ s. (undefined, s)

unfoldable pub serve : Server → Bool → ℕ → List ℕ → M Session Next
unfolding copy_chunked read_archive_head answer_head send
serve server priority index_id archive_raw =
    if be_value archive_raw == 255 && index_id == 255
    then server.send_ukeys >> return go_on
    else (answer_archive priority index_id archive_raw
        (server.archive_data index_id (be_value archive_raw)))

-- The `switch` over the priority of a request.
unfoldable pub handle_request : Server → ℕ → ℕ → List ℕ → M Session Next
unfolding serve
handle_request server priority index_id archive_raw =
    if priority == 0 || priority == 1
    then serve server (priority == 1) index_id archive_raw
    else (if priority == 7 then update (set_status disconnected) >> return stop else return go_on)

abbrev pub next_request : M Session (Unit {0}) → Next → M Session (Unit {0})
next_request more go_on = more
next_request more stop = done

-- The loop of `GrabPacketHandler::Handle`: six bytes a request; what is left at the end, if it is
-- not a whole request, ends it too.
unfoldable pub handle_requests : Server → List ℕ → M Session (Unit {0})
unfolding handle_request
handle_requests server (p ∷ i ∷ a ∷ b ∷ c ∷ d ∷ rest) =
    handle_request server p i (a ∷ b ∷ c ∷ d ∷ []) >>= next_request (handle_requests server rest)
handle_requests server _ = done

-- `GrabPacketHandler::Handle`.
unfoldable pub grab_handle : Server → Packet → M Session (Unit {0})
unfolding handle_requests
grab_handle server p = handle_requests server (ahead p.payload)
