-- ===== src/Cache/Index/Finds.antt =====
-- What an index and the data file hold together, as a description of the layout, and that
-- `Index::GetArchiveData` finds it.
use openrs.Base.{
  ℕ, zero, suc, ◌+◌, ◌-◌, ◌*◌, ◌/◌, ◌%◌, ◌^◌, ◌≤◌, ◌<◌, ◌≡◌, ◌==◌, ◌||◌, min, refl, ap, ◌∙◌, sym,
  List, [], ◌++◌, ltb, some, false, ok, length, drop, length-append, append_assoc, append-nil,
  length-drop, arith,
}
use openrs.Common.Stream.{Stream, clear}
use openrs.Common.Stream.Read.{opened}
use openrs.Cache.Index.{
  read_chunk, chunk_size, read_chunks, read_entry, read_archive, get_archive_data, files_of, answer,
}
use openrs.Cache.Index.Layout.{
  three_bytes, header_bytes, header_length, room_lem, three_at, drop-behind, chunk_at,
}

-- The chunks of an archive, from a block on: where they stand, that each fills a block of 520 bytes behind
-- its head but for the last, and what they hold together.
pub data Chain (id : ℕ) (disk : List ℕ) : ℕ → ℕ → List ℕ → Type 0 where
  end : {block chunk : ℕ} → Chain id disk block chunk []
  link :
      {block chunk : ℕ} (next index : ℕ) (piece rest behind : List ℕ) {content : List ℕ}
      → 0 < block
      → block * 520 < 2 ^ 32
      → chunk < 2 ^ 16
      → next < 2 ^ 24
      → drop (block * 520) disk ≡ header_bytes id chunk next index ++ (piece ++ behind)
      → length piece ≡ min (520 - header_length id) (length piece + length rest)
      → 0 < length piece
      → Chain id disk next (chunk + 1) rest
      → content ≡ piece ++ rest
      → Chain id disk block chunk content

-- The size of a chunk in the code is that of the layout.
chunk_size_lem : (id r : ℕ) → id < 2 ^ 31 → chunk_size id r ≡ min (520 - header_length id) r
chunk_size_lem id r h = ground (arith, room_lem id h)

-- A round of the loop that reads a chunk.
read_chunks-suc :
    (fuel id r block chunk next size : ℕ) (output piece : List ℕ) (s t : Stream)
    → 0 < r
    → 0 < block
    → chunk_size id r ≡ size
    → read_chunk id chunk block size s ≡ (ok (next, piece), t)
    → read_chunks (suc fuel) id r block chunk output s
      ≡ read_chunks fuel id (r - size) next ((chunk + 1) % 2 ^ 16) (output ++ piece) t
unfolding read_chunks
read_chunks-suc fuel id r block chunk next size output piece s t hr hb e h =
    let er : (r == 0) ≡ false = ground arith in
    let eb : (block == 0) ≡ false = ground arith in rw (er, eb, e, h) refl

read_chunks-nil :
    (fuel id block chunk : ℕ) (output : List ℕ) (s : Stream)
    → read_chunks (suc fuel) id 0 block chunk output s ≡ some (ok (output ++ []), s)
unfolding read_chunks
read_chunks-nil fuel id block chunk output s = ap (λ xs. some (ok xs, s)) (sym (append-nil output))

-- The loop gives what the chain from its block on holds.
read_chunks_at :
    (id block chunk : ℕ) (disk content : List ℕ)
    → Chain id disk block chunk content
    → (fuel p : ℕ) (output : List ℕ) → id < 2 ^ 31
    → length content < fuel
    → (q : ℕ) × (read_chunks fuel id (length content) block (chunk % 2 ^ 16) output (opened disk p)
        ≡ some (ok (output ++ content), opened disk q))
read_chunks_at id block chunk disk content c zero p output hi h = absurd (omega arith)
read_chunks_at id block chunk disk content end (suc fuel) p output hi h =
    (p, read_chunks-nil fuel id block (chunk % 2 ^ 16) output (opened disk p))
read_chunks_at id block chunk disk content
      (link next index piece rest behind hb hw hc hn there full some_piece more e) (suc fuel) p
      output hi h =
    let n = length piece in
    let total : length content ≡ n + length rest = ap length e ∙ length-append piece rest in
    let t = block * 520 + header_length id + n in
    let (q, rest_read) =
      read_chunks_at id next (chunk + 1) disk rest more fuel t (output ++ piece) hi
        (omega (arith, total)) in
    let found : read_chunk id (chunk % 2 ^ 16) block n (opened disk p)
        ≡ (ok (next, piece), opened disk t) =
      ap (λ c. read_chunk id c block n (opened disk p)) {x = chunk % 2 ^ 16} {y = chunk}
        (omega arith)
      ∙ chunk_at id chunk block next index piece behind disk there hi hc hn hw p in
    (
      q,
      read_chunks-suc fuel id (length content) block (chunk % 2 ^ 16) next n output piece
            (opened disk p) (opened disk t) (omega (arith, total)) hb
            (chunk_size_lem id (length content) hi
              ∙ ap (min (520 - header_length id)) total
              ∙ sym full)
            found
          ∙ ap
              (λ x.
                read_chunks fuel id x next ((chunk % 2 ^ 16 + 1) % 2 ^ 16) (output ++ piece)
                  (opened disk t))
              {x = length content - n} {y = length rest} (omega (arith, total))
          ∙ ap (λ c. read_chunks fuel id (length rest) next c (output ++ piece) (opened disk t))
              {x = (chunk % 2 ^ 16 + 1) % 2 ^ 16} {y = (chunk + 1) % 2 ^ 16} (omega arith)
          ∙ rest_read
          ∙ ap (λ xs. some (ok xs, opened disk q))
              (append_assoc output piece rest ∙ ap (λ c. output ++ c) (sym e)),
    )

-- The entry of an archive: its size and its first block.
entry_at :
    (id size block : ℕ) (s : Stream) (behind : List ℕ)
    → (id + 1) * 6 < 2 ^ 32
    → drop (id * 6) s.bytes ≡ three_bytes size ++ (three_bytes block ++ behind)
    → size < 2 ^ 24
    → block < 2 ^ 24
    → read_entry id (clear s) ≡ (ok (size, block), opened s.bytes (id * 6 + 3 + 3))
unfolding read_entry
entry_at id size block s behind hi there hs hb =
    let after_size =
      drop-behind (id * 6) 3 s.bytes (three_bytes size) (three_bytes block ++ behind) there refl in
    let six : length (drop (id * 6) s.bytes) ≡ suc (suc (suc (suc (suc (suc (length behind)))))) =
      ap length there in
    let enough : (id + 1) * 6 % 2 ^ 32 ≤ length s.bytes =
      omega (arith, six, length-drop (id * 6) s.bytes) in
    let long : ltb (length s.bytes) ((id + 1) * 6 % 2 ^ 32) ≡ false = ground (arith, enough) in
    let place : id * 6 % 2 ^ 32 ≡ id * 6 = omega arith in
    rw
      (
        long,
        place,
        three_at s.bytes (id * 6) size (three_bytes block ++ behind) there hs,
        three_at s.bytes (id * 6 + 3) block behind after_size hb,
      )
      refl

-- `Index::GetArchiveData` gives what the archive holds: where the index tells the length of the content
-- and the first block, and a chain of blocks of 520 bytes, each with its head, holds the content: the head
-- takes 8 bytes of a block, or 10 where the identifier has more than 16 bits. The data file has less
-- than 2 ^ 32 blocks.
pub get_archive_data-Chain :
    (fuel id block : ℕ) (index blocks : Stream) (content behind : List ℕ)
    → (id + 1) * 6 < 2 ^ 32
    → drop (id * 6) index.bytes ≡ three_bytes (length content) ++ (three_bytes block ++ behind)
    → length content < 2 ^ 24
    → 0 < block
    → block ≤ length blocks.bytes / 520
    → length blocks.bytes / 520 < 2 ^ 32
    → block < 2 ^ 24
    → Chain id blocks.bytes block 0 content
    → length content < fuel
    → answer (get_archive_data fuel id (files_of index blocks)) ≡ some (ok content)
unfolding get_archive_data read_archive
get_archive_data-Chain fuel id block index blocks content behind hi there hs hb hn few hw c h =
    let small : (id == 2 ^ 31 - 1) ≡ false = ground arith in
    let small_count : length blocks.bytes / 520 % 2 ^ 32 ≡ length blocks.bytes / 520 =
      omega arith in
    let tests : (block == 0 || ltb (length blocks.bytes / 520 % 2 ^ 32) block) ≡ false =
      ground (arith, small_count) in
    let found =
      (read_chunks_at id block 0 blocks.bytes content c fuel blocks.position [] (omega arith)
        h).1 in
    rw (small, entry_at id (length content) block index behind hi there hs hw, tests, found) refl
