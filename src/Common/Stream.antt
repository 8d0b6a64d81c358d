-- ===== src/Common/Stream.antt =====
-- common/include/openrs/common/ifstream.h: binary reads from a file. `std::ifstream` itself is the
-- standard library's; of its state a stream keeps the file's bytes, the position and the failbit.
pub mod Read
use openrs.Base.{
  ℕ, zero, suc, ◌+◌, ◌≤◌, List, [], Bool, true, false, ◌||◌, ◌==◌, ltb, if◌then◌else◌, M, Outcome,
  ok, fail, throws, undefined, length, take, drop,
}
use openrs.Base.Bytes.{le_value, be_value}

pub record Stream : Type 0 where
  pub bytes : List ℕ
  pub position : ℕ
  pub failed : Bool

-- `seekg` to a place counted from the beginning, which does nothing on a stream that has failed, and
-- `clear`.
abbrev pub seekg : ℕ → Stream → Stream
seekg n s = if s.failed then s else record s { position = n }

abbrev pub clear : Stream → Stream
clear s = record s { failed = false }

-- `read` and `gcount`: the bytes that were there. Too few of them set the failbit.
unfoldable pub read_bytes : ℕ → Stream → List ℕ × Stream
read_bytes n s =
    let got = take n (drop s.position s.bytes) in
    if s.failed
    then ([], s)
    else (got, record s { position = s.position + length got; failed = ltb (length got) n })

-- `GetStreamSize`: both positions are -1 on a stream that has failed.
unfoldable pub get_stream_size : Stream → ℕ
get_stream_size s = if s.failed then 0 else length s.bytes

-- `ReadValue` of a type of n bytes, as the bytes that are copied into it.
unfoldable pub read_raw : ℕ → M Stream (List ℕ)
unfolding read_bytes
read_raw n s =
    let (got, s') = read_bytes n s in if length got == n then (ok got, s') else (fail, s')

abbrev pub as_value : (List ℕ → ℕ) → Outcome (List ℕ) × Stream → Outcome ℕ × Stream
as_value value (ok bytes, s) = (ok (value bytes), s)
as_value value (fail, s) = (fail, s)
as_value value (throws, s) = (throws, s)
as_value value (undefined, s) = (undefined, s)

unfoldable pub read_value : ℕ → M Stream ℕ
unfolding read_raw
read_value n s = as_value le_value (read_raw n s)

abbrev pub has_order : ℕ → Bool
has_order n = n == 2 || n == 4 || n == 8

abbrev pub ordered : ℕ → Outcome ℕ × Stream → Outcome ℕ × Stream
ordered n (ok v, s) = if has_order n then (ok v, s) else (fail, s)
ordered n (r, s) = (r, s)

-- `ReadValueBE` and `ReadValueLE`: a type that is not of 2, 4 or 8 bytes is read, and then refused.
unfoldable pub read_value_be : ℕ → M Stream ℕ
unfolding read_raw
read_value_be n s = ordered n (as_value be_value (read_raw n s))

unfoldable pub read_value_le : ℕ → M Stream ℕ
unfolding read_value
read_value_le n s = ordered n (read_value n s)
