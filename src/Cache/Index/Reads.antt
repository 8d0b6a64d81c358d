-- ===== src/Cache/Index/Reads.antt =====
-- Reads leave the file as it is.
use openrs.Base.{
  ℕ, ◌+◌, ◌*◌, ◌%◌, ◌^◌, ◌≡◌, ◌==◌, ◌||◌, not, refl, ◌∙◌, inl, inr, List, ltb, if◌then◌else◌,
  Bool-cases, M, Outcome, ok, fail, throws, undefined, then_do, length,
}
use openrs.Common.Stream.{
  Stream, read_bytes, read_raw, read_value, read_value_be, as_value, ordered, seekg,
  get_stream_size, has_order,
}
use openrs.Cache.Index.{
  read_block, read_header, checked_header, read_chunk, is_narrow, read_entry, get_compressed_uint32,
  or_zero, read_three,
}

-- The stream still stands on the same file.
abbrev pub On : {A : Type 0} → List ℕ → Outcome A × Stream → Type 0
On bytes r = r.1.bytes ≡ bytes

pub then_do-On :
    {A B : Type 0} (bytes : List ℕ) (f : A → M Stream B) (r : Outcome A × Stream)
    → On bytes r
    → ((a : A) (s : Stream) → s.bytes ≡ bytes → On bytes (f a s))
    → On bytes (then_do f r)
then_do-On bytes f (ok a, s) h k = k a s h
then_do-On bytes f (fail, s) h k = h
then_do-On bytes f (throws, s) h k = h
then_do-On bytes f (undefined, s) h k = h

pub seekg-bytes : (n : ℕ) (s : Stream) → (seekg n s).bytes ≡ s.bytes
seekg-bytes n s = elim (Bool-cases s.failed) [ inl e ↦ rw e refl | inr e ↦ rw e refl ]

pub read_bytes-bytes : (n : ℕ) (s : Stream) → (read_bytes n s).1.bytes ≡ s.bytes
unfolding read_bytes
read_bytes-bytes n s = elim (Bool-cases s.failed) [ inl e ↦ rw e refl | inr e ↦ rw e refl ]

as_value-On :
    (bytes : List ℕ) (value : List ℕ → ℕ) (r : Outcome (List ℕ) × Stream)
    → On bytes r
    → On bytes (as_value value r)
as_value-On bytes value (ok x, s) h = h
as_value-On bytes value (fail, s) h = h
as_value-On bytes value (throws, s) h = h
as_value-On bytes value (undefined, s) h = h

ordered-On : (bytes : List ℕ) (n : ℕ) (r : Outcome ℕ × Stream) → On bytes r → On bytes (ordered n r)
ordered-On bytes n (ok x, s) h = elim (Bool-cases (has_order n)) [ inl e ↦ rw e h | inr e ↦ rw e h ]
ordered-On bytes n (fail, s) h = h
ordered-On bytes n (throws, s) h = h
ordered-On bytes n (undefined, s) h = h

read_raw-On : (n : ℕ) (s : Stream) → On s.bytes (read_raw n s)
unfolding read_raw
read_raw-On n s = elim (Bool-cases (length ((read_bytes n s).0) == n)) [
  | inl e ↦ rw e (read_bytes-bytes n s)
  | inr e ↦ rw e (read_bytes-bytes n s)
]

pub read_value-On :
    (bytes : List ℕ) (n : ℕ) (s : Stream) → s.bytes ≡ bytes → On bytes (read_value n s)
unfolding read_value
read_value-On bytes n s h = as_value-On bytes _ (read_raw n s) (read_raw-On n s ∙ h)

pub read_value_be-On :
    (bytes : List ℕ) (n : ℕ) (s : Stream) → s.bytes ≡ bytes → On bytes (read_value_be n s)
unfolding read_value_be
read_value_be-On bytes n s h =
    ordered-On bytes n _ (as_value-On bytes _ (read_raw n s) (read_raw-On n s ∙ h))

or_zero-On : (bytes : List ℕ) (r : Outcome ℕ × Stream) → On bytes r → On bytes (or_zero r)
or_zero-On bytes (ok x, s) h = h
or_zero-On bytes (fail, s) h = h
or_zero-On bytes (throws, s) h = h
or_zero-On bytes (undefined, s) h = h

pub compressed-On :
    (bytes : List ℕ) (s : Stream) → s.bytes ≡ bytes → On bytes (get_compressed_uint32 s)
unfolding get_compressed_uint32 read_three
compressed-On bytes s h = or_zero-On bytes (read_three s) (
    then_do-On bytes _ (read_value 1 s) (read_value-On bytes 1 s h) λ a t ht.
      then_do-On bytes _ (read_value 1 t) (read_value-On bytes 1 t ht)
        λ b u hu. then_do-On bytes _ (read_value 1 u) (read_value-On bytes 1 u hu) λ c v hv. hv)

pub read_entry-On :
    (bytes : List ℕ) (id : ℕ) (s : Stream) → s.bytes ≡ bytes → On bytes (read_entry id s)
unfolding read_entry
read_entry-On bytes id s h =
    let place = id * 6 % 2 ^ 32 in
    elim (Bool-cases (ltb (get_stream_size s) ((id + 1) * 6 % 2 ^ 32))) [
      | inl e ↦ rw e h
      | inr e ↦ rw e (
          then_do-On bytes _ (get_compressed_uint32 (seekg place s))
            (compressed-On bytes (seekg place s) (seekg-bytes place s ∙ h))
            λ size t ht.
              then_do-On bytes _ (get_compressed_uint32 t) (compressed-On bytes t ht)
                λ block u hu. hu)
    ]

read_header-On :
    (bytes : List ℕ) (id : ℕ) (s : Stream) → s.bytes ≡ bytes → On bytes (read_header id s)
unfolding read_header
read_header-On bytes id s h =
    then_do-On bytes _ ((if is_narrow id then read_value_be 2 else read_value_be 4) s)
      (elim (Bool-cases (is_narrow id)) [
        | inl e ↦ rw e (read_value_be-On bytes 2 s h)
        | inr e ↦ rw e (read_value_be-On bytes 4 s h)
      ])
      λ file t ht.
        then_do-On bytes _ (read_value_be 2 t) (read_value_be-On bytes 2 t ht) λ chunk u hu.
          then_do-On bytes _ (get_compressed_uint32 u) (compressed-On bytes u hu) λ next v hv.
            then_do-On bytes _ (read_value 1 v) (read_value-On bytes 1 v hv) λ index w hw. hw

checked_header-On :
    (bytes : List ℕ) (id chunk size : ℕ) (r : Outcome (ℕ × ℕ × ℕ) × Stream)
    → On bytes r
    → On bytes (checked_header id chunk size r)
unfolding read_block
checked_header-On bytes id chunk size (ok (file, current, next), s) h =
    elim (Bool-cases (not (id == file) || not (chunk == current))) [
      | inl e ↦ rw e h
      | inr e ↦ rw e (read_bytes-bytes size s ∙ h)
    ]
checked_header-On bytes id chunk size (fail, s) h = h
checked_header-On bytes id chunk size (throws, s) h = h
checked_header-On bytes id chunk size (undefined, s) h = h

pub read_chunk-On :
    (bytes : List ℕ) (id chunk block size : ℕ) (s : Stream)
    → s.bytes ≡ bytes
    → On bytes (read_chunk id chunk block size s)
unfolding read_chunk
read_chunk-On bytes id chunk block size s h = checked_header-On bytes id chunk size _ (
    read_header-On bytes id (seekg (block * 520 % 2 ^ 32) s)
      (seekg-bytes (block * 520 % 2 ^ 32) s ∙ h))
