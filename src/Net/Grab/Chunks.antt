-- ===== src/Net/Grab/Chunks.antt =====
-- The chunks of an answer, and the client that puts them together again.
use openrs.Base.{
  ℕ, ◌+◌, ◌%◌, ◌^◌, ◌<◌, ◌≡◌, refl, ap, sym, ◌∙◌, List, [], ◌∷◌, ◌++◌, ◌==◌, if◌then◌else◌, arith,
  Bool-cases, inl, inr, ok, false, All, length, append-nil, append_assoc, length-append,
}
use openrs.Base.Bytes.{IsByte, le_bytes, be_bytes}
use openrs.Common.Buffer.{Buffer, empty, fresh, append, size}
use openrs.Common.Buffer.Read.{IsValid, ahead, moved, get_byte, moved-IsValid, behind_byte}
use openrs.Net.Grab.{pack_rounds, put_chunked, copy_chunked, pack_cache_data}

-- The bytes that carry `xs` behind `k` others.
pub chunk_bytes : ℕ → List ℕ → List ℕ
chunk_bytes k [] = []
chunk_bytes k (x ∷ xs) =
    let marked = 255 ∷ x ∷ chunk_bytes (k + 2) xs in
    let plain = x ∷ chunk_bytes (k + 1) xs in if k % 512 == 0 then marked else plain

-- The client leaves out each byte at a multiple of 512.
pub unchunk : ℕ → List ℕ → List ℕ
unchunk k [] = []
unchunk k (c ∷ cs) = let rest = unchunk (k + 1) cs in if k % 512 == 0 then rest else c ∷ rest

pub unchunk-chunk_bytes : (k : ℕ) (xs : List ℕ) → unchunk k (chunk_bytes k xs) ≡ xs
unfolding unchunk chunk_bytes
unchunk-chunk_bytes k [] = refl
unchunk-chunk_bytes k (x ∷ xs) = elim (Bool-cases (k % 512 == 0)) [
  | inl e ↦
      let inside : (k + 1) % 512 == 0 ≡ false = ground arith in
      let two : k + 1 + 1 ≡ k + 2 = omega arith in
      rw (e, inside, two, e) (ap (◌∷◌ x) (unchunk-chunk_bytes (k + 2) xs))
  | inr e ↦ rw (e, unchunk, e) (ap (◌∷◌ x) (unchunk-chunk_bytes (k + 1) xs))
]

put_chunked_lem :
    (c : ℕ) (xs : List ℕ) (b : Buffer)
    → c < 256
    → append (chunk_bytes (size (put_chunked c b)) xs) (put_chunked c b)
      ≡ append (chunk_bytes (size b) (c ∷ xs)) b
unfolding put_chunked chunk_bytes le_bytes
put_chunked_lem c xs b h =
    let byte : c % 256 ≡ c = omega arith in
    rw byte (elim (Bool-cases (size b % 512 == 0)) [
      | inl e ↦
          rw
            (
              e,
              length-append (b.bytes ++ 255 ∷ []) (c ∷ []),
              length-append b.bytes (255 ∷ []),
              append_assoc (b.bytes ++ 255 ∷ []) (c ∷ []) _,
              append_assoc b.bytes (255 ∷ []) _,
            )
            (ap (λ k. record b { bytes = b.bytes ++ 255 ∷ c ∷ chunk_bytes k xs })
              {x = size b + 1 + 1} (omega arith))
      | inr e ↦ rw (e, length-append b.bytes (c ∷ []), append_assoc b.bytes (c ∷ []) _)
    ])

-- The loop appends the chunks of the n bytes that it reads.
pub copy_chunked_lem :
    (xs rest : List ℕ) (source output : Buffer)
    → IsValid source
    → All IsByte xs
    → ahead source ≡ xs ++ rest
    → copy_chunked (length xs) source output ≡ ok (append (chunk_bytes (size output) xs) output)
unfolding copy_chunked chunk_bytes
copy_chunked_lem [] rest source output v h e =
    ap ok (ap (λ ys. record output { bytes = ys }) (sym (append-nil output.bytes)))
copy_chunked_lem (x ∷ xs) rest source output v h e = rw (get_byte source x (xs ++ rest) v e) (
    copy_chunked_lem xs rest (moved 1 source) (put_chunked x output)
      (moved-IsValid source x (xs ++ rest) v e) h.1 (behind_byte source x (xs ++ rest) e)
    ∙ ap ok (put_chunked_lem x xs output h.0))

-- `PackCacheData` writes its four header fields and then all of the bytes of the data, which are less than
-- 2 ^ 32, cut into chunks from which the client puts the data together again.
pub unchunk-pack_cache_data :
    (index_id archive_id settings real_length : ℕ) (xs : List ℕ)
    → All IsByte xs
    → length xs < 2 ^ 32
    → let head =
        le_bytes 1 index_id
        ++ be_bytes 4 archive_id
        ++ le_bytes 1 settings
        ++ be_bytes 4 real_length in
      (chunks : List ℕ) × (pack_cache_data index_id archive_id settings real_length (fresh xs) empty
        ≡ ok (fresh (head ++ chunks)))
      × (unchunk (length head) chunks ≡ xs)
unfolding pack_cache_data
unchunk-pack_cache_data index_id archive_id settings real_length xs bytes fits =
    let head =
      le_bytes 1 index_id
      ++ be_bytes 4 archive_id
      ++ le_bytes 1 settings
      ++ be_bytes 4 real_length in
    let valid : IsValid (fresh xs) = record { within = omega arith; fits = omega arith } in
    (
      chunk_bytes (length head) xs,
      ap (λ n. copy_chunked n (fresh xs) (fresh head)) {x = pack_rounds (length xs)} {y = length xs}
            (ground arith)
          ∙ copy_chunked_lem xs [] (fresh xs) (fresh head) valid bytes (sym (append-nil xs)),
      unchunk-chunk_bytes (length head) xs,
    )
