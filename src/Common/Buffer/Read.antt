-- ===== src/Common/Buffer/Read.antt =====
-- Reading from a buffer: what the getters answer, and where they stop.
use openrs.Base.{
  ℕ, ◌+◌, ◌-◌, ◌^◌, ◌≤◌, ◌<◌, ◌≡◌, refl, ap, ◌∙◌, List, ◌∷◌, ◌++◌, arith, ltb, le→ltb,
  if◌then◌else◌, length, take, drop, length-append, take-append, drop-append, ok, fail, sym,
  drop-drop, ◌*◌, length-drop,
}
use openrs.Base.Bytes.{
  le_value, be_bytes, le_bytes, be_value-be_bytes, length-be_bytes, le_value-le_bytes,
  length-le_bytes,
}
use openrs.Common.Buffer.{Buffer, size, size_mod, get_data, get_be, get_le, remaining}

-- A buffer that exists in memory, read no further than its end.
pub record IsValid (b : Buffer) : Type 0 where
  pub within : b.position ≤ size b
  pub fits : size b + 8 < size_mod

-- `GetData` succeeds exactly where the bytes are there; it never throws.
pub get_data_lem :
    (n : ℕ) (b : Buffer)
    → IsValid b
    → 0 < n
    → n ≤ 8
    → get_data n b ≡ (
        if ltb (size b) (b.position + n)
        then (fail, b)
        else (ok (take n (drop b.position b.bytes)), record b { position = b.position + n }))
unfolding get_data
get_data_lem n b v lo hi = ground arith

-- A buffer read up to `xs`.
abbrev pub at_front : List ℕ → List ℕ → List ℕ → Buffer
at_front pre xs rest = record { bytes = pre ++ (xs ++ rest); position = length pre }

module _ (pre xs rest : List ℕ) (n : ℕ) where
  size-at_front : length xs ≡ n → size (at_front pre xs rest) ≡ length pre + (n + length rest)
  size-at_front e = omega (arith, length-append pre (xs ++ rest), length-append xs rest)

  -- `GetData` gives the n bytes that stand at the position, and moves behind them.
  pub get_data_at :
      length xs ≡ n
      → 0 < n
      → n ≤ 8
      → length pre + (n + length rest) + 8 < size_mod
      → get_data n (at_front pre xs rest)
        ≡ (ok xs, record (at_front pre xs rest) { position = length pre + n })
  get_data_at e lo hi fits =
      let valid : IsValid (at_front pre xs rest) = record {
        within = omega (arith, size-at_front e);
        fits = omega (arith, size-at_front e);
      } in
      get_data_lem n (at_front pre xs rest) valid lo hi
      ∙ rw (
        le→ltb (size (at_front pre xs rest)) (length pre + n) (omega (arith, size-at_front e)),
        drop-append pre (xs ++ rest) (length pre) refl,
        take-append xs rest n e,
      )

module _ (pre rest : List ℕ) (n v : ℕ) where
  -- An integer of one to eight bytes in network order is read back as it was written, whatever
  -- stands around it in a buffer that fits in memory.
  pub get_be_at :
      v < 256 ^ n
      → 0 < n
      → n ≤ 8
      → length pre + (n + length rest) + 8 < size_mod
      → get_be n (at_front pre (be_bytes n v) rest)
        ≡ (ok v, record { bytes = pre ++ (be_bytes n v ++ rest); position = length pre + n })
  unfolding get_be
  get_be_at hv lo hi fits = rw (
    get_data_at pre (be_bytes n v) rest n (length-be_bytes n v) lo hi fits,
    be_value-be_bytes n v hv,
  )

  -- An integer of one to eight bytes in little-endian order is read back as it was written,
  -- whatever stands around it in a buffer that fits in memory.
  pub get_le_at :
      v < 256 ^ n
      → 0 < n
      → n ≤ 8
      → length pre + (n + length rest) + 8 < size_mod
      → get_le n (at_front pre (le_bytes n v) rest)
        ≡ (ok v, record { bytes = pre ++ (le_bytes n v ++ rest); position = length pre + n })
  unfolding get_le
  get_le_at hv lo hi fits = rw (
    get_data_at pre (le_bytes n v) rest n (length-le_bytes n v) lo hi fits,
    le_value-le_bytes n v hv,
  )

-- The bytes that are still to be read.
abbrev pub ahead : Buffer → List ℕ
ahead b = drop b.position b.bytes

abbrev pub moved : ℕ → Buffer → Buffer
moved n b = record b { position = b.position + n }

pub ahead-moved : (n : ℕ) (b : Buffer) → ahead (moved n b) ≡ drop n (ahead b)
ahead-moved n b = sym (drop-drop b.position n b.bytes)

-- `GetData` on a byte that is there.
pub get_byte :
    (b : Buffer) (c : ℕ) (t : List ℕ) → IsValid b → ahead b ≡ c ∷ t → get_le 1 b ≡ (ok c, moved 1 b)
unfolding get_le le_value
get_byte b c t v e =
    let there : b.position + 1 ≤ size b =
      omega (arith, length-drop b.position b.bytes, ap length e) in
    rw (get_data_lem 1 b v (omega arith) (omega arith), le→ltb (size b) (b.position + 1) there, e)
      (ap (λ k. (ok k, moved 1 b)) {x = c + 256 * 0} (omega arith))

pub length-ahead :
    (b : Buffer) (xs : List ℕ) → IsValid b → ahead b ≡ xs → b.position + length xs ≡ size b
length-ahead b xs v e = omega (arith, v.within, length-drop b.position b.bytes, ap length e)

pub moved-IsValid :
    (b : Buffer) (c : ℕ) (t : List ℕ) → IsValid b → ahead b ≡ c ∷ t → IsValid (moved 1 b)
moved-IsValid b c t v e = omega (arith, length-ahead b (c ∷ t) v e)

pub behind_byte : (b : Buffer) (c : ℕ) (t : List ℕ) → ahead b ≡ c ∷ t → ahead (moved 1 b) ≡ t
behind_byte b c t e = ahead-moved 1 b ∙ ap (drop 1) e

pub remaining_lem : (b : Buffer) → IsValid b → remaining b ≡ size b - b.position
unfolding remaining
remaining_lem b v = omega arith
