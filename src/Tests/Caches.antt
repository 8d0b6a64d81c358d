-- ===== src/Tests/Caches.antt =====
-- Runs of the theorems on the cache: an archive of three bytes in the block 1, under the identifier 1.
use openrs.Base.{
  ℕ, ◌^◌, ◌≡◌, ◌≢◌, ◌≤◌, List, [], ◌∷◌, ◌++◌, map, some, true, ok, fail, throws, undefined, refl,
  replicate, length, arith, ltb, take, if◌then◌else◌,
}
use openrs.Base.Bytes.{be_bytes, be_value, le_value}
use openrs.Common.Buffer.{fresh}
use openrs.Cache.Archive.{archive, archive_lem}
use openrs.Common.Stream.{Stream, clear}
use openrs.Cache.Index.{get_archive_data, read_entry, files_of, answer}
use openrs.Cache.Index.Layout.{three_bytes, header_bytes}
use openrs.Cache.Index.Finds.{Chain, end, link, get_archive_data-Chain}
use openrs.Cache.Index.Ends.{Answers, get_archive_data-Answers}
use openrs.Cache.Manager.{Cache}
use openrs.Cache.Manager.Requests.{replies, opened_reply, replies-map}

abbrev index_bytes : List ℕ
index_bytes = replicate 6 0 ++ (three_bytes 3 ++ three_bytes 1)

abbrev disk : List ℕ
disk = replicate 520 0 ++ (header_bytes 1 0 0 2 ++ 7 ∷ 8 ∷ 9 ∷ [])

-- Streams that have been read to their ends.
abbrev index_stream : Stream
index_stream = record { bytes = index_bytes; position = 12; failed = true }

abbrev data_stream : Stream
data_stream = record { bytes = disk; position = 531; failed = true }

disk-Chain : Chain 1 disk 1 0 (7 ∷ 8 ∷ 9 ∷ [])
disk-Chain =
    link 0 2 (7 ∷ 8 ∷ 9 ∷ []) [] [] (omega arith) (omega arith) (omega arith) (omega arith) refl
      refl (omega arith) end refl

length-disk : length disk ≡ 531
unfolding be_bytes
length-disk = refl

get_archive_data-Chain_example :
    answer (get_archive_data 4 1 (files_of index_stream data_stream)) ≡ some (ok (7 ∷ 8 ∷ 9 ∷ []))
get_archive_data-Chain_example =
    get_archive_data-Chain 4 1 1 index_stream data_stream (7 ∷ 8 ∷ 9 ∷ []) [] (omega arith) refl
      (omega arith) (omega arith) (omega (arith, length-disk)) (omega (arith, length-disk))
      (omega arith) disk-Chain (omega arith)

get_archive_data-Answers_example :
    Answers
      (read_entry 1 (clear index_stream)).0
      (get_archive_data (2 ^ 24) 1 (files_of index_stream data_stream))
get_archive_data-Answers_example =
    get_archive_data-Answers (2 ^ 24) 1 index_stream data_stream (omega arith)

abbrev pub cache : Cache
cache = record {
  data_stream = some data_stream;
  main_index = some index_stream;
  indexes =
      (0, record { crc = 5; revision = 1; whirlpool = replicate 64 3; stream = some index_stream })
      ∷ [];
}

replies-map_example :
    replies 4 ((0, 1) ∷ (255, 0) ∷ (7, 1) ∷ (255, 1) ∷ []) cache
    ≡ map (opened_reply 4 cache) ((0, 1) ∷ (255, 0) ∷ (7, 1) ∷ (255, 1) ∷ [])
replies-map_example = replies-map 4 ((0, 1) ∷ (255, 0) ∷ (7, 1) ∷ (255, 1) ∷ []) cache

replies_test :
    replies 4 ((0, 1) ∷ (255, 0) ∷ (7, 1) ∷ (255, 1) ∷ []) cache
    ≡ some (ok (7 ∷ 8 ∷ 9 ∷ [])) ∷ some fail ∷ some throws ∷ some (ok (7 ∷ 8 ∷ 9 ∷ [])) ∷ []
unfolding replies le_value be_bytes be_value
replies_test = refl

archive_lem_example :
    let compression : ℕ = 2 in
    let rest = be_bytes 4 3 ++ (7 ∷ 8 ∷ []) in
    let result = archive (λ bytes. ok (bytes ++ 9 ∷ [])) (fresh (2 ∷ be_bytes 4 2 ++ rest)) in
    (compression ≡ 0 → result ≡ ok rest)
    × ((real_length : ℕ)
        → (body : List ℕ) → compression ≡ 2
        → rest ≡ be_bytes 4 real_length ++ body
        → real_length ≤ 0x01000000
        → result ≡ (if ltb (length body) 2 then undefined else ok (take 2 body ++ 9 ∷ [])))
    × (compression ≢ 0 → compression ≢ 2 → result ≡ throws)
unfolding be_bytes
archive_lem_example =
    archive_lem (λ bytes. ok (bytes ++ 9 ∷ [])) 2 2 (be_bytes 4 3 ++ (7 ∷ 8 ∷ [])) (omega arith)
      (omega arith) (omega arith)
