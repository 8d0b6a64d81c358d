-- ===== src/Common/Stream/Read.antt =====
-- Reads where the bytes are there.
use openrs.Base.{ℕ, ◌+◌, ◌≡◌, List, ◌++◌, false, true, arith, ok, length, drop, take-append}
use openrs.Base.Bytes.{be_value, le_value}
use openrs.Common.Stream.{Stream, read_bytes, read_raw, read_value, read_value_be, has_order}

-- An open file, at a place in it.
abbrev pub opened : List ℕ → ℕ → Stream
opened bytes n = record { bytes = bytes; position = n; failed = false }

module _ (bytes xs rest : List ℕ) (n p : ℕ) (there : drop p bytes ≡ xs ++ rest)
    (long : length xs ≡ n) where
  pub read_bytes_at : read_bytes n (opened bytes p) ≡ (xs, opened bytes (p + n))
  unfolding read_bytes
  read_bytes_at = rw (there, take-append xs rest n long, long) (ground arith)

  pub read_raw_at : read_raw n (opened bytes p) ≡ (ok xs, opened bytes (p + n))
  unfolding read_raw
  read_raw_at = rw (there, take-append xs rest n long, long) (ground arith)

  pub read_value_at : read_value n (opened bytes p) ≡ (ok (le_value xs), opened bytes (p + n))
  unfolding read_value
  read_value_at = rw read_raw_at

  pub read_value_be_at :
      has_order n ≡ true
      → read_value_be n (opened bytes p) ≡ (ok (be_value xs), opened bytes (p + n))
  unfolding read_value_be
  read_value_be_at h = rw (read_raw_at, h)
