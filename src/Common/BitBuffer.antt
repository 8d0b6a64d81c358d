-- ===== src/Common/BitBuffer.antt =====
-- common/include/openrs/common/io/bitbuffer.h: a buffer that is also written bit by bit, the highest bit
-- of a byte first.
pub mod Written
pub mod Slots
use openrs.Base.{
  ℕ, zero, suc, ◌+◌, ◌-◌, ◌*◌, ◌/◌, ◌%◌, ◌^◌, List, ◌++◌, Option, none, some, Bool, ltb, leb, ◌==◌,
  if◌then◌else◌, length, take, replicate, set, get_elem?, M, Outcome, ok, undefined,
}
use openrs.Base.Bits.Fields.{put_field}
use openrs.Common.Buffer.{Buffer, Direction, seek_set, seek_end, seek_cur, empty, size, size_mod}
use openrs.Common.Buffer

-- The position of the bytes is that of the buffer below; the writers of bits do not move it.
pub record BitBuffer : Type 0 where
  pub buffer : Buffer
  pub bit_position : ℕ

abbrev pub new_bit_buffer : BitBuffer
new_bit_buffer = record { buffer = empty; bit_position = 0 }

-- `vector::resize`.
unfoldable pub resize : ℕ → List ℕ → List ℕ
resize n bytes = take n bytes ++ replicate (n - length bytes) 0

-- `PutData(data)` of n bytes: the bit position moves by the number of bytes.
abbrev pub put_data : ℕ → ℕ → BitBuffer → BitBuffer
put_data n v b = record {
  buffer = Buffer.put_data n v b.buffer;
  bit_position = (b.bit_position + n) % size_mod;
}

-- The two assignments to `(*this)[byte_position]`: k bits of the data, those from `shift` on, are put at lo.
-- An index out of range is undefined, and so is a shift by the width of the data or more.
unfoldable pub put_at : ℕ → ℕ → ℕ → ℕ → ℕ → ℕ → List ℕ → Outcome (List ℕ)
unfolding put_field
put_at width k lo shift value byte_position bytes = elim (get_elem? bytes byte_position) [
  | none ↦ undefined
  | some c ↦
      if ltb shift width
      then ok (set bytes byte_position (put_field k lo (value / 2 ^ shift % 2 ^ k) c))
      else undefined
]

-- Behind the loop.
unfoldable pub put_last : ℕ → ℕ → ℕ → ℕ → ℕ → List ℕ → Outcome (List ℕ)
unfolding put_at resize
put_last width num_bits bit_offset byte_position value bytes =
    let grown =
      if leb (length bytes) byte_position
      then resize (if byte_position == 0 then 1 else byte_position) bytes
      else bytes in
    if num_bits == bit_offset
    then put_at width bit_offset 0 0 value byte_position grown
    else put_at width num_bits (bit_offset - num_bits) 0 value byte_position grown

abbrev pub and_then : Outcome (List ℕ) → (List ℕ → Outcome (List ℕ)) → Outcome (List ℕ)
and_then (ok bytes) k = k bytes
and_then r k = r

-- The loop, and what is behind it. Every round takes at least one bit, hence as many rounds as
-- bits are enough.
unfoldable pub put_loop : ℕ → ℕ → ℕ → ℕ → ℕ → ℕ → List ℕ → Outcome (List ℕ)
unfolding put_at put_last resize
put_loop zero width num_bits bit_offset byte_position value bytes =
    put_last width num_bits bit_offset byte_position value bytes
put_loop (suc fuel) width num_bits bit_offset byte_position value bytes =
    let grown = if leb (length bytes) byte_position then resize byte_position bytes else bytes in
    let more =
      and_then (put_at width bit_offset 0 (num_bits - bit_offset) value byte_position grown)
        (put_loop fuel width (num_bits - bit_offset) 8 (byte_position + 1) value) in
    if ltb bit_offset num_bits
    then more
    else put_last width num_bits bit_offset byte_position value bytes

abbrev pub put_back : ℕ → BitBuffer → Outcome (List ℕ) → Outcome (Unit {0}) × BitBuffer
put_back p b (ok bytes) =
    (ok tt, record { buffer = record (b.buffer) { bytes = bytes }; bit_position = p })
put_back p b r = (undefined, record b { bit_position = p })

-- `PutData(num_bits, data)`, of data of so many bits as its type has behind the promotion to an `int`.
unfoldable pub put_bits : ℕ → ℕ → ℕ → M BitBuffer (Unit {0})
unfolding put_loop
put_bits width num_bits value b = put_back ((b.bit_position + num_bits) % size_mod) b (
    put_loop num_bits width num_bits (8 - b.bit_position % 8) (b.bit_position / 8) value
      b.buffer.bytes)

-- `BitBuffer::seek`.
unfoldable pub seek : Direction → ℕ → BitBuffer → BitBuffer
seek seek_set offset b = record b { bit_position = offset }
seek seek_end offset b = record b { bit_position = (size b.buffer + size_mod - offset) % size_mod }
seek seek_cur offset b = record b { bit_position = (b.bit_position + offset) % size_mod }
