-- ===== src/Cache/Archive.antt =====
-- cache/src/archive.cpp: an archive behind its compression. Gunzip is a parameter.
use openrs.Base.{
  ℕ, ◌+◌, ◌≤◌, ◌<◌, ◌≡◌, ◌≢◌, refl, ap, ap₂, subst, ◌∙◌, List, [], ◌∷◌, ◌++◌, ◌==◌, ltb,
  if◌then◌else◌, arith, Outcome, ok, fail, throws, undefined, length, take, length-append, false,
  true,
}
use openrs.Base.Bytes.{be_bytes, length-be_bytes}
use openrs.Common.Buffer.{Buffer, fresh, size, size_mod, get_be, seek, seek_set, remaining}
use openrs.Common.Buffer.Read.{ahead, moved, remaining_lem}
use openrs.Common.Buffer.Ahead.{At, At-IsValid, At-moved, At-size, get_be-Consumes}

abbrev pub max_archive_length : ℕ
max_archive_length = 0x01000000

-- `data.at(0)`, of a buffer that is not empty.
abbrev pub first_byte : List ℕ → ℕ
first_byte [] = 0
first_byte (b ∷ bs) = b

-- A length, which is refused above the maximum; every failure throws.
abbrev pub with_length : (ℕ → Buffer → Outcome (List ℕ)) → Outcome ℕ × Buffer → Outcome (List ℕ)
with_length k (ok n, b) = if ltb max_archive_length n then throws else k n b
with_length k (fail, b) = throws
with_length k (throws, b) = throws
with_length k (undefined, b) = undefined

-- `StringSource` reads the compressed bytes behind the second length: beyond the end, that is undefined.
abbrev pub unzip : (List ℕ → Outcome (List ℕ)) → ℕ → ℕ → Buffer → Outcome (List ℕ)
unzip gunzip compressed_length real_length b =
    if ltb (remaining b) compressed_length
    then undefined
    else gunzip (take compressed_length (ahead b))

-- The `switch`.
abbrev pub unpack : (List ℕ → Outcome (List ℕ)) → ℕ → ℕ → Buffer → Outcome (List ℕ)
unpack gunzip compression n b =
    if ltb (remaining b) n
    then throws
    else (if compression == 0
        then ok (ahead b)
        else (if compression == 2 then with_length (unzip gunzip n) (get_be 4 b) else throws))

-- `Archive::Archive`.
unfoldable pub archive : (List ℕ → Outcome (List ℕ)) → Buffer → Outcome (List ℕ)
unfolding get_be seek remaining
archive gunzip b =
    if ltb (size b) 5
    then throws
    else with_length (unpack gunzip (first_byte b.bytes)) (get_be 4 (seek seek_set 1 b))

abbrev stored_bytes : ℕ → ℕ → List ℕ → List ℕ
stored_bytes compression n rest = compression ∷ be_bytes 4 n ++ rest

module _ (gunzip : List ℕ → Outcome (List ℕ)) (compression n : ℕ) (rest : List ℕ)
    (few : n ≤ max_archive_length) (fits : n ≤ length rest)
    (room : length rest + 32 < size_mod) where
  whole : Buffer
  whole = fresh (stored_bytes compression n rest)

  length_there : At (moved 1 whole) (be_bytes 4 n ++ rest)
  unfolding whole
  length_there = record {
    within = omega arith;
    room = omega (arith, length-append (be_bytes 4 n) rest, length-be_bytes 4 n);
    front = refl;
  }

  rest_there : At (moved (length (be_bytes 4 n)) (moved 1 whole)) rest
  rest_there = At-moved (moved 1 whole) (be_bytes 4 n) rest length_there

  archive-unpack :
      archive gunzip whole
      ≡ unpack gunzip compression n (moved (length (be_bytes 4 n)) (moved 1 whole))
  unfolding archive whole
  archive-unpack =
      let long : ltb (size whole) 5 ≡ false =
        ground (arith, length-append (be_bytes 4 n) rest, length-be_bytes 4 n) in
      let short : ltb max_archive_length n ≡ false = ground arith in
      rw
        (
          long,
          (get_be-Consumes 4 n (omega arith) (omega arith) (omega arith)).run (moved 1 whole) rest
              length_there,
          short,
        )
        refl

-- Behind the first length of an archive that is compressed by gzip.
unzip_lem :
    (gunzip : List ℕ → Outcome (List ℕ)) (n real_length : ℕ) (body : List ℕ) (b : Buffer)
    → real_length ≤ max_archive_length
    → At b (be_bytes 4 real_length ++ body)
    → with_length (unzip gunzip n) (get_be 4 b)
      ≡ (if ltb (length body) n then undefined else gunzip (take n body))
unzip_lem gunzip n real_length body b real at =
    let c = moved (length (be_bytes 4 real_length)) b in
    let behind : At c body = At-moved b (be_bytes 4 real_length) body at in
    let left : remaining c ≡ length body =
      omega (arith, remaining_lem c (At-IsValid c body behind), At-size c body behind) in
    let short : ltb max_archive_length real_length ≡ false = ground arith in
    rw
      (
        (get_be-Consumes 4 real_length (omega arith) (omega arith) (omega arith)).run b body at,
        short,
      )
      (ap₂ (λ m xs. if ltb m n then undefined else gunzip (take n xs)) left behind.front)

-- An archive whose first length is no more than what follows it and within the maximum is all that follows
-- the first length where it is not compressed. Where it is compressed by gzip and begins with a
-- second length within the maximum, it is the decompressed bytes behind that; but the first length
-- counts from the second one on, so that up to four bytes behind the end are read where it says so.
-- Any other compression throws.
pub archive_lem :
    (gunzip : List ℕ → Outcome (List ℕ)) (compression n : ℕ) (rest : List ℕ)
    → n ≤ length rest
    → n ≤ max_archive_length
    → length rest + 64 < size_mod
    → let result = archive gunzip (fresh (compression ∷ be_bytes 4 n ++ rest)) in
      (compression ≡ 0 → result ≡ ok rest)
      × ((real_length : ℕ)
          → (body : List ℕ) → compression ≡ 2
          → rest ≡ be_bytes 4 real_length ++ body
          → real_length ≤ max_archive_length
          → result ≡ (if ltb (length body) n then undefined else gunzip (take n body)))
      × (compression ≢ 0 → compression ≢ 2 → result ≡ throws)
unfolding whole
archive_lem gunzip compression n rest hn few room =
    let b =
      moved (length (be_bytes 4 n))
        (moved 1 (whole gunzip compression n rest few hn (omega arith))) in
    let at : At b rest = rest_there gunzip compression n rest few hn (omega arith) in
    let enough : ltb (remaining b) n ≡ false =
      ground (arith, remaining_lem b (At-IsValid b rest at), At-size b rest at) in
    let run = archive-unpack gunzip compression n rest few hn (omega arith) in
    (
      λ e.
          let none_of_it : (compression == 0) ≡ true = ground (arith, e) in
          run ∙ rw (enough, none_of_it) (ap ok at.front),
      λ real_length body e there real.
          let compressed : (compression == 0) ≡ false = ground (arith, e) in
          let gzip : (compression == 2) ≡ true = ground (arith, e) in
          run
          ∙ rw (enough, compressed, gzip)
              (unzip_lem gunzip n real_length body b real (subst (At b) there at)),
      λ e e'.
          let compressed : (compression == 0) ≡ false = ground (arith, e) in
          let no_gzip : (compression == 2) ≡ false = ground (arith, e') in
          run ∙ rw (enough, compressed, no_gzip) refl,
    )
