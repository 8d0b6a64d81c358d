-- ===== src/Net/Decoder/Frames.antt =====
-- What the decoders make of the frames that a client writes.
use openrs.Base.{
  ℕ, ◌+◌, ◌%◌, ◌<◌, ◌≡◌, refl, List, ◌∷◌, ◌++◌, arith, some, min, length, ok, length-append,
  take-append,
}
use openrs.Base.Int.{pos}
use openrs.Common.Buffer.{Buffer, size_mod, remaining, seek}
use openrs.Common.Buffer.Read.{
  IsValid, ahead, moved, get_byte, length-ahead, moved-IsValid, behind_byte, remaining_lem,
}
use openrs.Net.Packet.{PacketType}
use openrs.Net.Decoder.{
  decode, decode_body, decode_sized, world_decode, world_sized, world_body, take_at_most, find,
  packet_sizes, packet_of, code_mapping, world_code_mapping, take_payload,
}

-- The payload that is there is taken, and the position moves behind it.
take_payload_lem :
    (t : PacketType) (payload rest : List ℕ) (b : Buffer)
    → IsValid b
    → ahead b ≡ payload ++ rest
    → take_payload t (length payload) b ≡ (ok (packet_of t payload), moved (length payload) b)
unfolding seek
take_payload_lem t payload rest b v e =
    let whole : (b.position + length payload) % size_mod ≡ b.position + length payload =
      omega (arith, length-ahead b (payload ++ rest) v e, length-append payload rest) in
    rw (whole, e, take-append payload rest (length payload) refl)

decode_sized_lem :
    (t : PacketType) (payload rest : List ℕ) (b : Buffer)
    → IsValid b
    → ahead b ≡ length payload ∷ payload ++ rest
    → 0 < length payload + length rest
    → decode_sized t b ≡ (ok (packet_of t payload), moved (length payload) (moved 1 b))
unfolding decode_sized
decode_sized_lem t payload rest b v e more =
    let total = length-ahead b (length payload ∷ payload ++ rest) v e in
    rw (get_byte b (length payload) (payload ++ rest) v e, decode_sized)
      (ground (
        arith,
        total,
        length-append payload rest,
        take_payload_lem t payload rest (moved 1 b)
            (moved-IsValid b (length payload) (payload ++ rest) v e)
            (behind_byte b (length payload) (payload ++ rest) e),
      ))

-- From a valid buffer `Decoder::Decode` reads a type byte that it knows, a length byte and that
-- many bytes, whatever follows; but something has to follow the length byte.
pub decode_frame :
    (b : Buffer) (code : ℕ) (t : PacketType) (payload rest : List ℕ)
    → IsValid b
    → find code_mapping code ≡ some t
    → ahead b ≡ code ∷ length payload ∷ payload ++ rest
    → 0 < length payload + length rest
    → decode b ≡ (ok (packet_of t payload), moved (length payload) (moved 1 (moved 1 b)))
unfolding decode decode_body
decode_frame b code t payload rest v known e more =
    let body = length payload ∷ payload ++ rest in
    let total = length-ahead b (code ∷ body) v e in
    let v' = moved-IsValid b code body v e in
    rw (get_byte b code body v e, decode, known)
      (ground (
        arith,
        total,
        remaining_lem (moved 1 b) v',
        decode_sized_lem t payload rest (moved 1 b) v' (behind_byte b code body e) more,
      ))

take_at_most_lem :
    (t : PacketType) (n : ℕ) (payload rest : List ℕ) (b : Buffer)
    → IsValid b
    → ahead b ≡ payload ++ rest
    → min n (length payload + length rest) ≡ length payload
    → take_at_most t n b ≡ (ok (packet_of t payload), moved (length payload) b)
unfolding take_at_most
take_at_most_lem t n payload rest b v e cut =
    let total = length-ahead b (payload ++ rest) v e in
    let n-eq : min n (remaining b) ≡ length payload =
      omega (arith, total, remaining_lem b v, length-append payload rest) in
    rw n-eq (take_payload_lem t payload rest b v e)

-- From a valid buffer `WorldDecoder::Decode` takes behind a code of its own as many bytes as the
-- size table says, or what is left where the input ends before that.
pub world_decode_frame :
    (b : Buffer) (code n : ℕ) (t : PacketType) (payload rest : List ℕ)
    → IsValid b
    → find world_code_mapping code ≡ some t
    → packet_sizes t ≡ some (pos n)
    → ahead b ≡ code ∷ payload ++ rest
    → min n (length payload + length rest) ≡ length payload
    → world_decode b ≡ (ok (packet_of t payload), moved (length payload) (moved 1 b))
unfolding world_decode world_sized world_body
world_decode_frame b code n t payload rest v known sized e cut =
    let body = payload ++ rest in
    rw (get_byte b code body v e, world_decode, known, sized)
      (take_at_most_lem t n payload rest (moved 1 b) (moved-IsValid b code body v e)
        (behind_byte b code body e) cut)
