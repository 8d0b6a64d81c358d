-- ===== src/Cache/Index/Layout.antt =====
-- How one block of the data file is laid out, and that a round of `Index::GetArchiveData` finds what
-- it holds.
use openrs.Base.{
  ℕ, ◌+◌, ◌-◌, ◌*◌, ◌/◌, ◌%◌, ◌^◌, ◌<◌, ◌≡◌, Bool, refl, ap, ap₂, ◌∙◌, sym, inl, inr, List, [], ◌∷◌,
  ◌++◌, if◌then◌else◌, Bool-cases, ltb, ok, length, drop, replicate, ==_refl, length-append,
  append_assoc, append-nil, drop-drop, drop-append, arith,
}
use openrs.Base.Bytes.{be_bytes, le_value, be_value-be_bytes, length-be_bytes}
use openrs.Common.Stream.{Stream, read_value_be}
use openrs.Common.Stream.Read.{opened, read_bytes_at, read_value_at, read_value_be_at}
use openrs.Cache.Index.{
  block_length, read_block, checked_header, read_header, read_chunk, is_narrow,
  get_compressed_uint32, read_three,
}

-- An integer of three bytes.
abbrev pub three_bytes : ℕ → List ℕ
three_bytes v = (v / 2 ^ 16 % 256) ∷ (v / 2 ^ 8 % 256) ∷ (v % 256) ∷ []

-- The head of a block. An identifier of more than 16 bits takes four bytes.
abbrev pub file_width : ℕ → ℕ
file_width id = if ltb id 65536 then 2 else 4

pub file_width_lem : (id : ℕ) → id < 2 ^ 31 → file_width id ≡ (if is_narrow id then 2 else 4)
file_width_lem id h = ground arith

-- What the code takes from a block is what a block of 520 bytes has behind its head.
pub room_lem : (id : ℕ) → id < 2 ^ 31 → block_length id ≡ 520 - (file_width id + 2 + 3 + 1)
room_lem id h = ground arith

abbrev pub header_bytes : ℕ → ℕ → ℕ → ℕ → List ℕ
header_bytes id chunk next index =
    be_bytes (file_width id) id ++ (be_bytes 2 chunk ++ (three_bytes next ++ index ∷ []))

pub drop-behind :
    (p n : ℕ) (bytes xs rest : List ℕ)
    → drop p bytes ≡ xs ++ rest
    → length xs ≡ n
    → drop (p + n) bytes ≡ rest
drop-behind p n bytes xs rest e long =
    sym (drop-drop p n bytes) ∙ ap (drop n) e ∙ drop-append xs rest n long

module _ (bytes : List ℕ) (p v : ℕ) (rest : List ℕ) where
  pub three_at :
      drop p bytes ≡ three_bytes v ++ rest
      → v < 2 ^ 24
      → get_compressed_uint32 (opened bytes p) ≡ (ok v, opened bytes (p + 3))
  unfolding get_compressed_uint32 read_three le_value
  three_at e h =
      let a = v / 2 ^ 16 % 256 in
      let b = v / 2 ^ 8 % 256 in
      let c = v % 256 in
      let e1 = drop-behind p 1 bytes (a ∷ []) (b ∷ c ∷ rest) e refl in
      let e2 = drop-behind (p + 1) 1 bytes (b ∷ []) (c ∷ rest) e1 refl in
      rw
        (
          read_value_at bytes (a ∷ []) (b ∷ c ∷ rest) 1 p e refl,
          read_value_at bytes (b ∷ []) (c ∷ rest) 1 (p + 1) e1 refl,
          read_value_at bytes (c ∷ []) rest 1 (p + 1 + 1) e2 refl,
        )
        (ap₂ (λ x y. (ok x, opened bytes y)) (omega arith) (omega arith))

abbrev pub header_length : ℕ → ℕ
header_length id = file_width id + 2 + 3 + 1

-- The identifier at the head of a block, in either width.
file_at :
    (id p : ℕ) (disk rest : List ℕ)
    → drop p disk ≡ be_bytes (file_width id) id ++ rest
    → id < 2 ^ 31
    → (if is_narrow id then read_value_be 2 else read_value_be 4) (opened disk p)
      ≡ (ok id, opened disk (p + file_width id))
file_at id p disk rest there h = elim (Bool-cases (is_narrow id)) [
  | inl e ↦
      let two : file_width id ≡ 2 = file_width_lem id h ∙ ap (λ (b : Bool). if b then 2 else 4) e in
      let there' : drop p disk ≡ be_bytes 2 id ++ rest =
        there ∙ ap (λ w. be_bytes w id ++ rest) two in
      rw (e, read_value_be_at disk (be_bytes 2 id) rest 2 p there' (length-be_bytes 2 id) refl)
        (ap₂ (λ v w. (ok v, opened disk (p + w))) (be_value-be_bytes 2 id (ground (arith, e)))
          (sym two))
  | inr e ↦
      let four : file_width id ≡ 4 =
        file_width_lem id h ∙ ap (λ (b : Bool). if b then 2 else 4) e in
      let there' : drop p disk ≡ be_bytes 4 id ++ rest =
        there ∙ ap (λ w. be_bytes w id ++ rest) four in
      rw (e, read_value_be_at disk (be_bytes 4 id) rest 4 p there' (length-be_bytes 4 id) refl)
        (ap₂ (λ v w. (ok v, opened disk (p + w))) (be_value-be_bytes 4 id (omega arith)) (sym four))
]

module _ (id chunk next index : ℕ) (behind disk : List ℕ) (p : ℕ)
    (there : drop p disk ≡ header_bytes id chunk next index ++ behind) (h : id < 2 ^ 31)
    (hc : chunk < 2 ^ 16) (hn : next < 2 ^ 24) where
  header_at :
      read_header id (opened disk p) ≡ (ok (id, chunk, next), opened disk (p + header_length id))
  unfolding read_header
  header_at =
      let w = file_width id in
      let after_index = index ∷ behind in
      let after_next = three_bytes next ++ after_index in
      let after_chunk = be_bytes 2 chunk ++ after_next in
      let e0 : drop p disk ≡ be_bytes w id ++ after_chunk =
        there
        ∙ append_assoc (be_bytes w id) (be_bytes 2 chunk ++ (three_bytes next ++ index ∷ [])) behind
        ∙ ap (λ x. be_bytes w id ++ x)
            (append_assoc (be_bytes 2 chunk) (three_bytes next ++ index ∷ []) behind) in
      let e1 = drop-behind p w disk (be_bytes w id) after_chunk e0 (length-be_bytes w id) in
      let e2 =
        drop-behind (p + w) 2 disk (be_bytes 2 chunk) after_next e1 (length-be_bytes 2 chunk) in
      let e3 = drop-behind (p + w + 2) 3 disk (three_bytes next) after_index e2 refl in
      let f1 = file_at id p disk after_chunk e0 h in
      let f2 : read_value_be 2 (opened disk (p + w)) ≡ (ok chunk, opened disk (p + w + 2)) =
        read_value_be_at disk (be_bytes 2 chunk) after_next 2 (p + w) e1 (length-be_bytes 2 chunk)
          refl
        ∙ ap (λ v. (ok v, opened disk (p + w + 2))) (be_value-be_bytes 2 chunk (omega arith)) in
      let f3 = three_at disk (p + w + 2) next after_index e2 hn in
      let f4 = read_value_at disk (index ∷ []) behind 1 (p + w + 2 + 3) e3 refl in
      rw (f1, f2, f3, f4)
        (ap (λ n. (ok (id, chunk, next), opened disk n)) {x = p + w + 2 + 3 + 1} (omega arith))

read_block_at :
    (disk piece behind : List ℕ) (p : ℕ)
    → drop p disk ≡ piece ++ behind
    → read_block (length piece) (opened disk p) ≡ (ok piece, opened disk (p + length piece))
unfolding read_block
read_block_at disk piece behind p there =
    let n = length piece in
    ap (λ (r : List ℕ × Stream). (ok (r.0 ++ replicate (n - length (r.0)) 0), r.1))
      (read_bytes_at disk piece behind n p there refl)
    ∙ ap (λ k. (ok (piece ++ replicate k 0), opened disk (p + n))) {x = n - n} {y = 0} (omega arith)
    ∙ ap (λ xs. (ok xs, opened disk (p + n))) (append-nil piece)

checked_at :
    (id chunk next q : ℕ) (disk piece behind : List ℕ)
    → drop q disk ≡ piece ++ behind
    → checked_header id chunk (length piece) (ok (id, chunk, next), opened disk q)
      ≡ (ok (next, piece), opened disk (q + length piece))
checked_at id chunk next q disk piece behind there =
    rw (==_refl id, ==_refl chunk, read_block_at disk piece behind q there) refl

module _ (id chunk block next index : ℕ) (piece behind disk : List ℕ)
    (there : drop (block * 520) disk ≡ header_bytes id chunk next index ++ (piece ++ behind))
    (h : id < 2 ^ 31) (hc : chunk < 2 ^ 16) (hn : next < 2 ^ 24) (hb : block * 520 < 2 ^ 32) where
  length-header_bytes : length (header_bytes id chunk next index) ≡ header_length id
  length-header_bytes = omega (
    arith,
    length-append (be_bytes (file_width id) id)
        (be_bytes 2 chunk ++ (three_bytes next ++ index ∷ [])),
    length-append (be_bytes 2 chunk) (three_bytes next ++ index ∷ []),
    length-be_bytes (file_width id) id,
    length-be_bytes 2 chunk,
  )

  pub chunk_at :
      (p : ℕ)
      → read_chunk id chunk block (length piece) (opened disk p)
        ≡ (ok (next, piece), opened disk (block * 520 + header_length id + length piece))
  unfolding read_chunk
  chunk_at p =
      let n = length piece in
      let q = block * 520 in
      ap (λ x. checked_header id chunk n (read_header id (opened disk x))) {x = q % 2 ^ 32} {y = q}
        (omega arith)
      ∙ ap (checked_header id chunk n)
          (header_at id chunk next index (piece ++ behind) disk q there h hc hn)
      ∙ checked_at id chunk next (q + header_length id) disk piece behind (
          drop-behind q (header_length id) disk (header_bytes id chunk next index) (piece ++ behind)
            there length-header_bytes)
