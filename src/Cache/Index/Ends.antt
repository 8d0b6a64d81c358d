-- ===== src/Cache/Index/Ends.antt =====
-- Why `Index::GetArchiveData` comes to an end, and how much it gives.
use openrs.Base.{
  ℕ, zero, suc, ◌+◌, ◌-◌, ◌*◌, ◌/◌, ◌%◌, ◌^◌, ◌≤◌, ◌<◌, ◌≡◌, ◌==◌, ◌||◌, not, ap, sym, subst, inl,
  inr, List, [], ◌++◌, ltb, none, some, Bool-cases, Outcome, Yields, Yields-any, then_do-Yields, ok,
  fail, throws, undefined, length, drop, replicate, length-append, length-take, length-replicate,
  arith,
}
use openrs.Common.Stream.{Stream, read_value, read_bytes, clear, seekg, get_stream_size}
use openrs.Cache.Index.{
  read_block, checked_header, read_chunk, ChunkRun, chunk_size, block_length, with_chunk,
  read_chunks, ArchiveRun, with_index, with_entry, read_entry, read_archive, get_archive_data,
  files_of, get_compressed_uint32, or_zero, read_three,
}

length-read_bytes : (n : ℕ) (s : Stream) → length (read_bytes n s).0 ≤ n
unfolding read_bytes
length-read_bytes n s = elim (Bool-cases s.failed) [
  | inl e ↦ rw e (omega arith)
  | inr e ↦ rw e (omega (arith, length-take n (drop s.position s.bytes)))
]

abbrev Sized : ℕ → Outcome (ℕ × List ℕ) × Stream → Type 0
Sized n (ok (next, bytes), s) = length bytes ≡ n
Sized n (r, s) = Unit {0}

checked_header-Sized :
    (id chunk size : ℕ) (r : Outcome (ℕ × ℕ × ℕ) × Stream)
    → Sized size (checked_header id chunk size r)
unfolding read_block
checked_header-Sized id chunk size (ok (file, current, next), s) =
    elim (Bool-cases (not (id == file) || not (chunk == current))) [
      | inl e ↦ rw e tt
      | inr e ↦
          let got = (read_bytes size s).0 in
          rw e (
            omega (
              arith,
              length-append got (replicate (size - length got) 0),
              length-replicate {A = ℕ} (size - length got) 0,
              length-read_bytes size s,
            ))
    ]
checked_header-Sized id chunk size (fail, s) = tt
checked_header-Sized id chunk size (throws, s) = tt
checked_header-Sized id chunk size (undefined, s) = tt

-- A run that ends, and whose output, if it gives one, has n bytes.
abbrev Fills : ℕ → ChunkRun → Type 0
Fills n none = ⊥
Fills n (some (ok output, s)) = length output ≡ n
Fills n (some (r, s)) = Unit {0}

with_chunk-Fills :
    (n size : ℕ) (more : ℕ → List ℕ → Stream → ChunkRun) (r : Outcome (ℕ × List ℕ) × Stream)
    → Sized size r
    → ((next : ℕ) (bytes : List ℕ) (s : Stream) → length bytes ≡ size → Fills n (more next bytes s))
    → Fills n (with_chunk more r)
with_chunk-Fills n size more (ok (next, bytes), s) h k = k next bytes s h
with_chunk-Fills n size more (fail, s) h k = tt
with_chunk-Fills n size more (throws, s) h k = tt
with_chunk-Fills n size more (undefined, s) h k = tt

block_length_pos : (id : ℕ) → 0 < block_length id
block_length_pos id = ground arith

chunk_size_bounds :
    (id remaining : ℕ)
    → 0 < remaining
    → (0 < chunk_size id remaining) × (chunk_size id remaining ≤ remaining)
chunk_size_bounds id remaining h = ground arith

read_chunks-Fills :
    (fuel id remaining block chunk : ℕ) (output : List ℕ) (s : Stream)
    → remaining < fuel
    → Fills (length output + remaining) (read_chunks fuel id remaining block chunk output s)
unfolding read_chunks read_chunk
read_chunks-Fills zero id remaining block chunk output s h = absurd (omega arith)
read_chunks-Fills (suc fuel) id remaining block chunk output s h =
    elim (Bool-cases (remaining == 0)) [
      | inl e ↦ rw e (ground (arith, e))
      | inr e ↦ elim (Bool-cases (block == 0)) [
        | inl f ↦ rw (e, f) tt
        | inr f ↦
            let size = chunk_size id remaining in
            let (lo, hi) = chunk_size_bounds id remaining (ground (arith, e)) in
            rw (e, f)
              (with_chunk-Fills (length output + remaining) size _
                (read_chunk id chunk block size s) (checked_header-Sized id chunk size _)
                (λ next bytes t long.
                  let total : length (output ++ bytes) + (remaining - size)
                      ≡ length output + remaining =
                    omega (arith, length-append output bytes, long, hi) in
                  subst
                    (λ n. Fills n (
                      read_chunks fuel id (remaining - size) next ((chunk + 1) % 2 ^ 16)
                        (output ++ bytes) t))
                    total
                    (read_chunks-Fills fuel id (remaining - size) next ((chunk + 1) % 2 ^ 16)
                      (output ++ bytes) t (omega (arith, lo, hi)))))
      ]
    ]

abbrev IsSmall : ℕ → Type 0
IsSmall v = v < 2 ^ 24

read_three-IsSmall : (s : Stream) → Yields IsSmall (read_three s)
unfolding read_three
read_three-IsSmall s =
    then_do-Yields (λ _. Unit {0}) IsSmall _ (read_value 1 s) (Yields-any (read_value 1 s))
      λ a t _.
        then_do-Yields (λ _. Unit {0}) IsSmall _ (read_value 1 t) (Yields-any (read_value 1 t))
          λ b u _.
            then_do-Yields (λ _. Unit {0}) IsSmall _ (read_value 1 u) (Yields-any (read_value 1 u))
              λ c v _. omega arith

or_zero-IsSmall : (r : Outcome ℕ × Stream) → Yields IsSmall r → Yields IsSmall (or_zero r)
or_zero-IsSmall (ok v, s) h = h
or_zero-IsSmall (fail, s) h = omega arith
or_zero-IsSmall (throws, s) h = tt
or_zero-IsSmall (undefined, s) h = tt

compressed-IsSmall : (s : Stream) → Yields IsSmall (get_compressed_uint32 s)
unfolding get_compressed_uint32
compressed-IsSmall s = or_zero-IsSmall (read_three s) (read_three-IsSmall s)

-- The size that an entry tells has 24 bits.
pub read_entry-IsSmall : (id : ℕ) (s : Stream) → Yields (λ e. IsSmall (e.0)) (read_entry id s)
unfolding read_entry
read_entry-IsSmall id s = elim (Bool-cases (ltb (get_stream_size s) ((id + 1) * 6 % 2 ^ 32))) [
  | inl e ↦ rw e tt
  | inr e ↦
      let s' = seekg (id * 6 % 2 ^ 32) s in
      rw e (
        then_do-Yields IsSmall (λ e. IsSmall (e.0)) _ (get_compressed_uint32 s')
          (compressed-IsSmall s')
          λ size t h.
            then_do-Yields (λ _. Unit {0}) (λ e. IsSmall (e.0)) _ (get_compressed_uint32 t)
              (Yields-any (get_compressed_uint32 t)) λ block u _. h)
]

-- A run that ends; and if it gives an output, that has as many bytes as the archive's entry says.
abbrev pub Answers : Outcome (ℕ × ℕ) → ArchiveRun → Type 0
Answers entry none = ⊥
Answers entry (some (ok output, f)) = (block : ℕ) × (entry ≡ ok (length output, block))
Answers entry (some (fail, f)) = Unit {0}
Answers entry (some (throws, f)) = Unit {0}
Answers entry (some (undefined, f)) = Unit {0}

with_index-Answers :
    (index : Stream) (size block : ℕ) (r : ChunkRun)
    → Fills size r
    → Answers (ok (size, block)) (with_index index r)
with_index-Answers index size block none h = h
with_index-Answers index size block (some (ok output, s)) h =
    (block, ap (λ n. ok (n, block)) (sym h))
with_index-Answers index size block (some (fail, s)) h = tt
with_index-Answers index size block (some (throws, s)) h = tt
with_index-Answers index size block (some (undefined, s)) h = tt

with_entry-Answers :
    (fuel id : ℕ) (blocks : Stream) (r : Outcome (ℕ × ℕ) × Stream)
    → 2 ^ 24 ≤ fuel
    → Yields (λ e. IsSmall (e.0)) r
    → Answers r.0 (with_entry fuel id blocks r)
with_entry-Answers fuel id blocks (ok (size, block), index) h small =
    elim (Bool-cases (block == 0 || ltb (get_stream_size blocks / 520 % 2 ^ 32) block)) [
      | inl e ↦ rw e tt
      | inr e ↦ rw e (
          with_index-Answers index size block (read_chunks fuel id size block 0 [] blocks) (
            subst (λ n. Fills n (read_chunks fuel id size block 0 [] blocks)) {x = 0 + size}
              (omega arith)
              (read_chunks-Fills fuel id size block 0 [] blocks (omega (arith, small)))))
    ]
with_entry-Answers fuel id blocks (fail, index) h small = tt
with_entry-Answers fuel id blocks (throws, index) h small = tt
with_entry-Answers fuel id blocks (undefined, index) h small = tt

-- `Index::GetArchiveData` on two open streams ends within 2 ^ 24 rounds, whatever stands in the files,
-- also where the blocks of an archive go round in a circle; and what it gives has as many bytes as
-- the archive's entry in the index says.
pub get_archive_data-Answers :
    (fuel id : ℕ) (index blocks : Stream)
    → 2 ^ 24 ≤ fuel
    → Answers (read_entry id (clear index)).0 (get_archive_data fuel id (files_of index blocks))
unfolding get_archive_data read_archive
get_archive_data-Answers fuel id index blocks h = elim (Bool-cases (id == 2 ^ 31 - 1)) [
  | inl e ↦ rw e tt
  | inr e ↦ rw e (
      with_entry-Answers fuel id (clear blocks) (read_entry id (clear index)) h
        (read_entry-IsSmall id (clear index)))
]
