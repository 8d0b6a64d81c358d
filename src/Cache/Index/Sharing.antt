-- ===== src/Cache/Index/Sharing.antt =====
-- The indexes of a cache read the same data file through one stream: what a request finds does not
-- hang on the requests before it.
use openrs.Base.{
  ℕ, zero, suc, ◌+◌, ◌-◌, ◌*◌, ◌/◌, ◌%◌, ◌^◌, ◌≡◌, ◌==◌, ◌||◌, refl, ap, ap₂, ◌∙◌, inl, inr, List,
  [], ◌∷◌, ◌++◌, map, ltb, Option, none, some, Bool-cases, Outcome, ok, fail, throws, undefined,
  length,
}
use openrs.Common.Stream.{Stream, clear, get_stream_size}
use openrs.Common.Stream.Read.{opened}
use openrs.Cache.Index.Reads.{On, read_chunk-On, read_entry-On}
use openrs.Cache.Index.{
  read_chunk, ChunkRun, chunk_size, with_chunk, read_chunks, Files, ArchiveRun, answer, with_index,
  with_entry, read_entry, read_archive, get_archive_data, files_of,
}

-- The files of an index are open.
abbrev pub Holds : List ℕ → List ℕ → Files → Type 0
Holds ib db f =
    (index : Stream) × (blocks : Stream) × (f ≡ files_of index blocks)
    × (index.bytes ≡ ib)
    × (blocks.bytes ≡ db)

abbrev LoopOn : List ℕ → ChunkRun → Type 0
LoopOn bytes none = Unit {0}
LoopOn bytes (some r) = On bytes r

with_chunk-LoopOn :
    (bytes : List ℕ) (more : ℕ → List ℕ → Stream → ChunkRun) (r : Outcome (ℕ × List ℕ) × Stream)
    → On bytes r
    → ((next : ℕ) (piece : List ℕ) (s : Stream)
        → s.bytes ≡ bytes
        → LoopOn bytes (more next piece s))
    → LoopOn bytes (with_chunk more r)
with_chunk-LoopOn bytes more (ok (next, piece), s) h k = k next piece s h
with_chunk-LoopOn bytes more (fail, s) h k = h
with_chunk-LoopOn bytes more (throws, s) h k = h
with_chunk-LoopOn bytes more (undefined, s) h k = h

read_chunks-LoopOn :
    (bytes : List ℕ) (fuel id remaining block chunk : ℕ) (output : List ℕ) (s : Stream)
    → s.bytes ≡ bytes
    → LoopOn bytes (read_chunks fuel id remaining block chunk output s)
unfolding read_chunks
read_chunks-LoopOn bytes zero id remaining block chunk output s h = tt
read_chunks-LoopOn bytes (suc fuel) id remaining block chunk output s h =
    let size = chunk_size id remaining in
    elim (Bool-cases (remaining == 0)) [
      | inl e ↦ rw e h
      | inr e ↦ elim (Bool-cases (block == 0)) [
        | inl f ↦ rw (e, f) h
        | inr f ↦
            rw (e, f)
              (with_chunk-LoopOn bytes _ (read_chunk id chunk block size s)
                (read_chunk-On bytes id chunk block size s h)
                λ next piece t ht.
                  read_chunks-LoopOn bytes fuel id (remaining - size) next ((chunk + 1) % 2 ^ 16)
                    (output ++ piece) t ht)
      ]
    ]

abbrev pub RunOn : List ℕ → List ℕ → ArchiveRun → Type 0
RunOn ib db none = Unit {0}
RunOn ib db (some (r, f)) = Holds ib db f

with_index-RunOn :
    (ib db : List ℕ) (index : Stream) (r : ChunkRun)
    → index.bytes ≡ ib
    → LoopOn db r
    → RunOn ib db (with_index index r)
with_index-RunOn ib db index none hi h = tt
with_index-RunOn ib db index (some (r, blocks)) hi h = (index, blocks, refl, hi, h)

with_entry-RunOn :
    (ib db : List ℕ) (fuel id : ℕ) (blocks : Stream) (r : Outcome (ℕ × ℕ) × Stream)
    → blocks.bytes ≡ db
    → On ib r
    → RunOn ib db (with_entry fuel id blocks r)
with_entry-RunOn ib db fuel id blocks (ok (size, block), index) hb hi =
    elim (Bool-cases (block == 0 || ltb (get_stream_size blocks / 520 % 2 ^ 32) block)) [
      | inl e ↦ rw e (index, blocks, refl, hi, hb)
      | inr e ↦ rw e (
          with_index-RunOn ib db index (read_chunks fuel id size block 0 [] blocks) hi
            (read_chunks-LoopOn db fuel id size block 0 [] blocks hb))
    ]
with_entry-RunOn ib db fuel id blocks (fail, index) hb hi = (index, blocks, refl, hi, hb)
with_entry-RunOn ib db fuel id blocks (throws, index) hb hi = (index, blocks, refl, hi, hb)
with_entry-RunOn ib db fuel id blocks (undefined, index) hb hi = (index, blocks, refl, hi, hb)

pub get_archive_data-RunOn :
    (fuel id : ℕ) (index blocks : Stream)
    → RunOn index.bytes blocks.bytes (get_archive_data fuel id (files_of index blocks))
unfolding get_archive_data read_archive
get_archive_data-RunOn fuel id index blocks = elim (Bool-cases (id == 2 ^ 31 - 1)) [
  | inl e ↦ rw e (clear index, clear blocks, refl, refl, refl)
  | inr e ↦ rw e (
      with_entry-RunOn index.bytes blocks.bytes fuel id (clear blocks) (read_entry id (clear index))
        refl (read_entry-On index.bytes id (clear index) refl))
]

-- The places that the streams stand at do not matter.
read_chunks-answer :
    (fuel id size block : ℕ) (index blocks : Stream)
    → answer (with_index index (read_chunks fuel id size block 0 [] (clear blocks)))
      ≡ answer (with_index index (read_chunks fuel id size block 0 [] (opened blocks.bytes 0)))
unfolding read_chunks read_chunk
read_chunks-answer zero id size block index blocks = refl
read_chunks-answer (suc fuel) id size block index blocks = elim (Bool-cases (size == 0)) [
  | inl e ↦ rw e refl
  | inr e ↦ elim (Bool-cases (block == 0)) [ inl f ↦ rw (e, f) refl | inr f ↦ rw (e, f) refl ]
]

with_entry-answer :
    (fuel id : ℕ) (blocks : Stream) (r : Outcome (ℕ × ℕ) × Stream)
    → answer (with_entry fuel id (clear blocks) r)
      ≡ answer (with_entry fuel id (opened blocks.bytes 0) r)
unfolding get_stream_size
with_entry-answer fuel id blocks (ok (size, block), index) =
    elim (Bool-cases (block == 0 || ltb (length blocks.bytes / 520 % 2 ^ 32) block)) [
      | inl e ↦ rw e refl
      | inr e ↦ rw e (read_chunks-answer fuel id size block index blocks)
    ]
with_entry-answer fuel id blocks (fail, index) = refl
with_entry-answer fuel id blocks (throws, index) = refl
with_entry-answer fuel id blocks (undefined, index) = refl

-- The answer on files that were just opened.
abbrev pub fresh_answer : ℕ → List ℕ → List ℕ → ℕ → Option (Outcome (List ℕ))
fresh_answer fuel ib db id =
    answer (get_archive_data fuel id (files_of (opened ib 0) (opened db 0)))

pub fresh_answer_lem :
    (fuel id : ℕ) (index blocks : Stream)
    → answer (get_archive_data fuel id (files_of index blocks))
      ≡ fresh_answer fuel index.bytes blocks.bytes id
unfolding get_archive_data read_archive read_entry
fresh_answer_lem fuel id index blocks = elim (Bool-cases (id == 2 ^ 31 - 1)) [
  | inl e ↦ rw e refl
  | inr e ↦ elim (Bool-cases (ltb (length index.bytes) ((id + 1) * 6 % 2 ^ 32))) [
    | inl f ↦ rw (e, f) refl
    | inr f ↦
        let same : read_entry id (clear index) ≡ read_entry id (opened index.bytes 0) = rw f refl in
        rw e (
          ap (λ r. answer (with_entry fuel id (clear blocks) r)) same
          ∙ with_entry-answer fuel id blocks (read_entry id (opened index.bytes 0)))
  ]
]

abbrev pub after : Files → ArchiveRun → Files
after f none = f
after f (some (r, g)) = g

-- The answers to one request after the other.
unfoldable pub answers : ℕ → List ℕ → Files → List (Option (Outcome (List ℕ)))
unfolding get_archive_data
answers fuel [] f = []
answers fuel (id ∷ ids) f =
    let run = get_archive_data fuel id f in answer run ∷ answers fuel ids (after f run)

pub after-Holds :
    (ib db : List ℕ) (f : Files) (r : ArchiveRun)
    → Holds ib db f
    → RunOn ib db r
    → Holds ib db (after f r)
after-Holds ib db f none h k = h
after-Holds ib db f (some (r, g)) h k = k

-- However many requests are answered from the same two open files, and wherever these leave the
-- positions and the failbits of the streams, each gets what it would get from files just opened.
pub answers-map :
    (fuel : ℕ) (ids : List ℕ) (index blocks : Stream)
    → answers fuel ids (files_of index blocks)
      ≡ map (fresh_answer fuel index.bytes blocks.bytes) ids
unfolding answers
answers-map fuel [] index blocks = refl
answers-map fuel (id ∷ ids) index blocks =
    let f = files_of index blocks in
    let run = get_archive_data fuel id f in
    let (index', blocks', e, ei, eb) =
      after-Holds index.bytes blocks.bytes f run (index, blocks, refl, refl, refl)
        (get_archive_data-RunOn fuel id index blocks) in
    ap₂ (λ r rs. r ∷ rs) (fresh_answer_lem fuel id index blocks)
      (ap (answers fuel ids) e
        ∙ answers-map fuel ids index' blocks'
        ∙ ap₂ (λ ib db. map (fresh_answer fuel ib db) ids) ei eb)
