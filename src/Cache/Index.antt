-- ===== src/Cache/Index.antt =====
-- cache/{src/index.cpp,include/openrs/cache/index.h}: how the parts of an archive are found in the
-- data file. An identifier of an archive is an `int`, kept as its 32 bits.
pub mod Ends
pub mod Layout
pub mod Finds
pub mod Reads
pub mod Sharing
use openrs.Base.{
  ℕ, zero, suc, ◌+◌, ◌-◌, ◌*◌, ◌/◌, ◌%◌, ◌^◌, List, [], ◌++◌, Bool, not, ◌&&◌, ◌||◌, ◌==◌, ltb, leb,
  if◌then◌else◌, Option, none, some, M, Outcome, ok, fail, throws, undefined, ◌>>=◌, return, length,
  replicate,
}
use openrs.Common.Stream.{
  Stream, seekg, clear, read_bytes, read_value, read_value_be, get_stream_size,
}

abbrev pub idx_block_length : ℕ
idx_block_length = 6

abbrev pub total_block_length : ℕ
total_block_length = 520

-- `kArchiveId <= 0xFFFF`, which is so of negative numbers.
abbrev pub is_narrow : ℕ → Bool
is_narrow id = leb id 0xFFFF || leb (2 ^ 31) id

-- `kBlockLength` of `GetArchiveData`.
abbrev pub block_length : ℕ → ℕ
block_length id = if is_narrow id then 512 else 510

-- The part of `GetCompressedUInt32` that fails; the three bytes do not overlap.
unfoldable pub read_three : M Stream ℕ
unfolding read_value
read_three = do
  a ← read_value 1
  b ← read_value 1
  c ← read_value 1
  return (a % 256 * 2 ^ 16 + b % 256 * 2 ^ 8 + c % 256)

abbrev pub or_zero : Outcome ℕ × Stream → Outcome ℕ × Stream
or_zero (fail, s) = (ok 0, s)
or_zero (r, s) = (r, s)

-- `GetCompressedUInt32`.
unfoldable pub get_compressed_uint32 : M Stream ℕ
unfolding read_three
get_compressed_uint32 s = or_zero (read_three s)

-- The entry of an archive in the index file: the size, and the first block.
unfoldable pub read_entry : ℕ → M Stream (ℕ × ℕ)
unfolding get_compressed_uint32 get_stream_size
read_entry id s =
    if ltb (get_stream_size s) ((id + 1) * idx_block_length % 2 ^ 32)
    then (fail, s)
    else (do size ← get_compressed_uint32; block ← get_compressed_uint32; return (size, block))
        (seekg (id * idx_block_length % 2 ^ 32) s)

-- The header of a block: the archive, the number of the chunk, the next block and the index.
unfoldable pub read_header : ℕ → M Stream (ℕ × ℕ × ℕ)
unfolding read_value_be get_compressed_uint32 read_value
read_header id = do
  current_file ← (if is_narrow id then read_value_be 2 else read_value_be 4)
  current_chunk ← read_value_be 2
  next_block ← get_compressed_uint32
  current_index ← read_value 1
  return (current_file, current_chunk, next_block)

-- `output->resize` and `read`, which is not checked: what was not read is zero.
unfoldable pub read_block : ℕ → M Stream (List ℕ)
unfolding read_bytes
read_block n s = let (got, s') = read_bytes n s in (ok (got ++ replicate (n - length got) 0), s')

-- The validation of the header, and what follows it.
abbrev pub checked_header : ℕ → ℕ → ℕ → Outcome (ℕ × ℕ × ℕ) × Stream → Outcome (ℕ × List ℕ) × Stream
checked_header id chunk size (ok (file, current, next), s) =
    if not (id == file) || not (chunk == current)
    then (fail, s)
    else (do bytes ← read_block size; return (next, bytes)) s
checked_header id chunk size (fail, s) = (fail, s)
checked_header id chunk size (throws, s) = (throws, s)
checked_header id chunk size (undefined, s) = (undefined, s)

-- One round behind the test of the block: the next block, and the data of the chunk.
unfoldable pub read_chunk : ℕ → ℕ → ℕ → ℕ → M Stream (ℕ × List ℕ)
unfolding read_header read_block
read_chunk id chunk block size s =
    checked_header id chunk size (read_header id (seekg (block * total_block_length % 2 ^ 32) s))

-- What a run of the loop gives; `none` is a run that needs more fuel.
abbrev pub ChunkRun : Type 0
ChunkRun = Option (Outcome (List ℕ) × Stream)

abbrev pub chunk_size : ℕ → ℕ → ℕ
chunk_size id remaining = if ltb (block_length id) remaining then block_length id else remaining

abbrev pub with_chunk : (ℕ → List ℕ → Stream → ChunkRun) → Outcome (ℕ × List ℕ) × Stream → ChunkRun
with_chunk more (ok (next, bytes), s) = more next bytes s
with_chunk more (fail, s) = some (fail, s)
with_chunk more (throws, s) = some (throws, s)
with_chunk more (undefined, s) = some (undefined, s)

-- The `while` loop.
unfoldable pub read_chunks : ℕ → ℕ → ℕ → ℕ → ℕ → List ℕ → Stream → ChunkRun
unfolding read_chunk
read_chunks zero id remaining block chunk output s = none
read_chunks (suc fuel) id remaining block chunk output s =
    let size = chunk_size id remaining in
    let more = λ (next : ℕ) (bytes : List ℕ) (t : Stream).
      read_chunks fuel id (remaining - size) next ((chunk + 1) % 2 ^ 16) (output ++ bytes) t in
    if remaining == 0
    then some (ok output, s)
    else (if block == 0 then some (fail, s) else with_chunk more (read_chunk id chunk block size s))

-- The two files of an index. `none` is a stream that is closed or bad.
pub record Files : Type 0 where
  pub index_stream : Option Stream
  pub data_stream : Option Stream

abbrev pub ArchiveRun : Type 0
ArchiveRun = Option (Outcome (List ℕ) × Files)

-- What the caller sees of a run.
abbrev pub answer : ArchiveRun → Option (Outcome (List ℕ))
answer none = none
answer (some (r, f)) = some r

abbrev pub files_of : Stream → Stream → Files
files_of index blocks = record { index_stream = some index; data_stream = some blocks }

abbrev pub with_index : Stream → ChunkRun → ArchiveRun
with_index index none = none
with_index index (some (r, blocks)) = some (r, files_of index blocks)

-- Behind the entry of the archive; `kDataBlockCount` is a `uint32_t`.
abbrev pub with_entry : ℕ → ℕ → Stream → Outcome (ℕ × ℕ) × Stream → ArchiveRun
with_entry fuel id blocks (ok (size, block), index) =
    if block == 0 || ltb (get_stream_size blocks / total_block_length % 2 ^ 32) block
    then some (fail, files_of index blocks)
    else with_index index (read_chunks fuel id size block 0 [] blocks)
with_entry fuel id blocks (fail, index) = some (fail, files_of index blocks)
with_entry fuel id blocks (throws, index) = some (throws, files_of index blocks)
with_entry fuel id blocks (undefined, index) = some (undefined, files_of index blocks)

-- Behind the tests of the streams. `kArchiveId + 1` is an overflow of the largest `int`.
unfoldable pub read_archive : ℕ → ℕ → Stream → Stream → ArchiveRun
unfolding read_entry read_chunks
read_archive fuel id index blocks =
    if id == 2 ^ 31 - 1
    then some (undefined, files_of index blocks)
    else with_entry fuel id blocks (read_entry id index)

-- `Index::GetArchiveData`.
unfoldable pub get_archive_data : ℕ → ℕ → Files → ArchiveRun
unfolding read_archive
get_archive_data fuel id f = elim f.index_stream [
  | none ↦ some (fail, f)
  | some index ↦ elim f.data_stream [
    | none ↦ some (fail, f)
    | some blocks ↦ read_archive fuel id (clear index) (clear blocks)
  ]
]

-- `MainIndex::archive_count`.
unfoldable pub archive_count : Files → ℕ
unfolding get_stream_size
archive_count f = elim f.index_stream [ none ↦ 0 | some index ↦ get_stream_size index / 6 ]
