-- ===== src/Net/Decoder/Progress.antt =====
-- What the decoders do to the input buffer: they only move forward, and never leave the input.
use openrs.Base.{
  ℕ, ◌+◌, ◌-◌, ◌≤◌, ◌<◌, ◌≡◌, ◌⊎◌, inl, inr, refl, ap, [], arith, ltb, leb, Bool-cases, ◌||◌, ◌%◌,
  none, some, min, take, drop, get_elem?, get_elem?-beyond, ◌^◌, Outcome, ok, fail, throws,
  undefined, Option-cases,
}
use openrs.Base.Bytes.{le_value}
use openrs.Base.Int.{pos}
use openrs.Common.Buffer.{Buffer, size, size_mod, fresh, get_le, remaining, seek, seek_cur}
use openrs.Common.Buffer.Read.{IsValid, moved, remaining_lem, get_data_lem}
use openrs.Net.Packet.{
  PacketType, Packet, unknown, grab_cache, screen, ping, afk, finished_loading_region,
  received_packet_count, action_button_1, action_button_2, action_button_3, action_button_4,
  action_button_5, action_button_6, action_button_7, action_button_8, action_button_9,
}
use openrs.Net.Decoder.{
  decode, decode_body, decode_sized, login_decode, login_body, world_decode, world_sized,
  world_body, take_at_most, take_payload, grab_decode, find, packet_sizes, packet_of, code_mapping,
  login_code_mapping, world_code_mapping,
}

-- What a decoder may do with a valid buffer: a packet's payload is the run of bytes before the new
-- position, behind at least `header` bytes; a failure moves forward only, too; nothing throws.
abbrev pub Decoded : ℕ → Buffer → Outcome Packet × Buffer → Type 0
Decoded header b (ok p, b') =
    (b'.bytes ≡ b.bytes)
    × (b'.position ≤ size b)
    × ((n : ℕ) × (b.position + header + n ≤ b'.position)
        × (p.payload ≡ fresh (take n (drop (b'.position - n) b.bytes))))
Decoded header b (fail, b') =
    (b'.bytes ≡ b.bytes) × (b.position ≤ b'.position) × (b'.position ≤ size b)
Decoded header b (throws, b') = ⊥
Decoded header b (undefined, b') = ⊥

-- One byte: it is there and the position moves, or the buffer is at its end.
byte_cases :
    (b : Buffer)
    → IsValid b
    → ((b.position ≡ size b) × (get_le 1 b ≡ (fail, b)))
      ⊎ ((x : ℕ) × (b.position + 1 ≤ size b) × (get_le 1 b ≡ (ok x, moved 1 b)))
unfolding get_le
byte_cases b v = elim (Bool-cases (ltb (size b) (b.position + 1))) [
  | inl e ↦ inl (ground arith, rw (get_data_lem 1 b v (omega arith) (omega arith), e))
  | inr e ↦ inr (
    le_value (take 1 (drop b.position b.bytes)),
    ground arith,
    rw (get_data_lem 1 b v (omega arith) (omega arith), e),
  )
]

moved-IsValid : (b : Buffer) → IsValid b → b.position + 1 ≤ size b → IsValid (moved 1 b)
moved-IsValid b v h = omega arith

behind_byte :
    (header : ℕ) (b : Buffer) (r : Outcome Packet × Buffer)
    → header ≤ 1
    → Decoded 0 (moved 1 b) r
    → Decoded header b r
behind_byte header b (ok p, b') k (e, hi, (n, lo, q)) = (e, hi, (n, omega arith, q))
behind_byte header b (fail, b') k (e, lo, hi) = (e, omega arith, hi)
behind_byte header b (throws, b') k h = h
behind_byte header b (undefined, b') k h = h

-- A packet with no payload, and one with the next n bytes.
no_payload : (t : PacketType) (b : Buffer) → IsValid b → Decoded 0 b (ok (packet_of t []), b)
no_payload t b v = (refl, v.within, (0, omega arith, refl))

next_bytes :
    (t : PacketType) (n : ℕ) (b : Buffer)
    → IsValid b
    → b.position + n ≤ size b
    → Decoded 0 b (take_payload t n b)
unfolding seek
next_bytes t n b v h =
    let whole : (b.position + n) % size_mod ≡ b.position + n = omega arith in
    rw whole (
      refl,
      h,
      (n, omega arith, ap (λ k. fresh (take n (drop k b.bytes))) {x = b.position} (omega arith)),
    )

decode_sized-Decoded : (t : PacketType) (b : Buffer) → IsValid b → Decoded 0 b (decode_sized t b)
unfolding decode_sized
decode_sized-Decoded t b v = elim (byte_cases b v) [
  | inl (e, q) ↦ rw (q, decode_sized) (refl, omega arith, v.within)
  | inr (n, lo, q) ↦
      rw (q, decode_sized)
        (elim (Bool-cases (leb (size b) (b.position + 1) || ltb (size b) (b.position + 1 + n))) [
          | inl e ↦ rw e (refl, omega arith, lo)
          | inr e ↦ rw e (
              behind_byte 0 b (take_payload t n (moved 1 b)) (omega arith)
                (next_bytes t n (moved 1 b) (moved-IsValid b v lo) (ground arith)))
        ])
]

decode_body-Decoded : (t : PacketType) (b : Buffer) → IsValid b → Decoded 0 b (decode_body t b)
unfolding decode_body
decode_body-Decoded t b v = elim (Bool-cases (ltb 0 (remaining b))) [
  | inl e ↦ rw e (decode_sized-Decoded t b v)
  | inr e ↦ rw e (no_payload t b v)
]

-- `Decoder::Decode` of a valid buffer moves only forward and never behind the end, also where it
-- fails; it throws nothing, and the payload of a packet is the run of bytes before the new position.
pub decode-Decoded : (b : Buffer) → IsValid b → Decoded 1 b (decode b)
unfolding decode
decode-Decoded b v = elim (byte_cases b v) [
  | inl (e, q) ↦ rw (q, decode) (refl, omega arith, v.within)
  | inr (code, lo, q) ↦
      rw (q, decode)
        (elim (Option-cases (find code_mapping code)) [
          | inl e ↦ rw e (refl, omega arith, lo)
          | inr (t, e) ↦ rw e (
              behind_byte 1 b (decode_body t (moved 1 b)) (omega arith)
                (decode_body-Decoded t (moved 1 b) (moved-IsValid b v lo)))
        ])
]

login_body-Decoded : (t : PacketType) (b : Buffer) → IsValid b → Decoded 0 b (login_body t b)
unfolding login_body
login_body-Decoded t b v = elim (Bool-cases (leb 1 (remaining b))) [
  | inl e ↦ rw e (next_bytes t (size b - b.position) b v (omega (arith, v.within)))
  | inr e ↦ rw e (no_payload t b v)
]

stepped_back : (b : Buffer) → IsValid b → seek seek_cur (size_mod - 1) (moved 1 b) ≡ b
unfolding seek
stepped_back b v =
    ap (λ p. record b { position = p }) {x = (b.position + 1 + (size_mod - 1)) % size_mod}
      (omega arith)

-- `LoginDecoder::Decode` of a valid buffer moves only forward and never behind the end, also where it
-- fails; it throws nothing, and the payload of a packet is the run of bytes before the new position.
pub login_decode-Decoded : (b : Buffer) → IsValid b → Decoded 1 b (login_decode b)
unfolding login_decode
login_decode-Decoded b v = elim (byte_cases b v) [
  | inl (e, q) ↦ rw (q, login_decode) (refl, omega arith, v.within)
  | inr (code, lo, q) ↦
      rw (q, login_decode)
        (elim (Option-cases (find login_code_mapping code)) [
          | inl e ↦ rw (e, stepped_back b v) (decode-Decoded b v)
          | inr (t, e) ↦ rw e (
              behind_byte 1 b (login_body t (moved 1 b)) (omega arith)
                (login_body-Decoded t (moved 1 b) (moved-IsValid b v lo)))
        ])
]

take_at_most-Decoded :
    (t : PacketType) (n : ℕ) (b : Buffer) → IsValid b → Decoded 0 b (take_at_most t n b)
unfolding take_at_most
take_at_most-Decoded t n b v =
    next_bytes t (min n (remaining b)) b v (omega (arith, remaining_lem b v, v.within))

packet_sizes_pos :
    (t : PacketType) → (packet_sizes t ≡ none) ⊎ ((n : ℕ) × (packet_sizes t ≡ some (pos n)))
unfolding packet_sizes
packet_sizes_pos action_button_3 = inr (8, refl)
packet_sizes_pos action_button_7 = inr (8, refl)
packet_sizes_pos action_button_1 = inr (8, refl)
packet_sizes_pos afk = inr (2, refl)
packet_sizes_pos ping = inr (0, refl)
packet_sizes_pos action_button_9 = inr (8, refl)
packet_sizes_pos finished_loading_region = inr (0, refl)
packet_sizes_pos action_button_8 = inr (8, refl)
packet_sizes_pos received_packet_count = inr (4, refl)
packet_sizes_pos unknown = inr (4, refl)
packet_sizes_pos action_button_4 = inr (8, refl)
packet_sizes_pos action_button_2 = inr (8, refl)
packet_sizes_pos action_button_5 = inr (8, refl)
packet_sizes_pos action_button_6 = inr (8, refl)
packet_sizes_pos screen = inr (6, refl)
packet_sizes_pos _ = inl refl

world_sized-Decoded : (t : PacketType) (b : Buffer) → IsValid b → Decoded 0 b (world_sized t b)
unfolding world_sized world_body
world_sized-Decoded t b v = elim (packet_sizes_pos t) [
  | inl e ↦ rw e (refl, omega arith, v.within)
  | inr (n, e) ↦ rw e (take_at_most-Decoded t n b v)
]

-- `WorldDecoder::Decode` of a valid buffer moves only forward and never behind the end, also where it
-- fails; it throws nothing, and the payload of a packet is the run of bytes before the new position.
pub world_decode-Decoded : (b : Buffer) → IsValid b → Decoded 1 b (world_decode b)
unfolding world_decode
world_decode-Decoded b v = elim (byte_cases b v) [
  | inl (e, q) ↦ rw (q, world_decode) (refl, omega arith, v.within)
  | inr (code, lo, q) ↦
      rw (q, world_decode)
        (elim (Option-cases (find world_code_mapping code)) [
          | inl e ↦ rw (e, stepped_back b v) (decode-Decoded b v)
          | inr (t, e) ↦ rw e (
              behind_byte 1 b (world_sized t (moved 1 b)) (omega arith)
                (world_sized-Decoded t (moved 1 b) (moved-IsValid b v lo)))
        ])
]

-- At the beginning of a valid buffer of six bytes or more, the first at most 7,
-- `GrabDecoder::Decode` takes all of it.
pub grab_decode_whole :
    (b : Buffer) (priority : ℕ)
    → IsValid b
    → b.position ≡ 0
    → 6 ≤ size b
    → get_elem? b.bytes 0 ≡ some priority
    → priority ≤ 7
    → grab_decode b ≡ (ok (packet_of grab_cache b.bytes), record b { position = size b })
unfolding grab_decode seek
grab_decode_whole b priority v e h f le =
    let start : get_elem? b.bytes b.position ≡ some priority = rw e f in
    ground (arith, start, remaining_lem b v)

-- At a later position of a buffer of less than 2 ^ 63 bytes, where six bytes are left and the
-- first of them is at most 7, `GrabDecoder::Decode` takes the whole buffer from its beginning and
-- leaves the position behind the end, and the next call throws.
pub grab_decode_beyond :
    (b : Buffer) (priority : ℕ)
    → size b < 2 ^ 63
    → 0 < b.position
    → b.position + 6 ≤ size b
    → get_elem? b.bytes b.position ≡ some priority
    → priority ≤ 7
    → let after = record b { position = b.position + size b } in
      (grab_decode b ≡ (ok (packet_of grab_cache b.bytes), after))
      × (grab_decode after ≡ (throws, after))
unfolding grab_decode seek remaining
grab_decode_beyond b priority small lo h f le =
    (ground arith, ground (arith, get_elem?-beyond b.bytes (b.position + size b)))
