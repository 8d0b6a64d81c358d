-- ===== src/Net/Decoder.antt =====
-- openrs/{include/openrs,src}/net/codec/decoder/global: the four decoders. Each reads one packet
-- off the session's input buffer, and leaves that buffer where it stopped also when it fails.
pub mod Progress
pub mod Frames
use openrs.Base.{
  ℕ, zero, suc, ◌+◌, ◌-◌, ◌≡◌, List, [], ◌∷◌, ◌++◌, Option, none, some, Bool, true, false, ◌||◌,
  ltb, leb, ◌==◌, if◌then◌else◌, min, length, take, drop, get_elem?, M, Outcome, ok, fail, throws,
  ◌>>=◌, ◌>>◌, return, failing,
}
use openrs.Base.Int.{ℤ, pos, negsuc}
use openrs.Common.Buffer.{Buffer, size, size_mod, fresh, get_le, get_be, remaining, seek, seek_cur}
use openrs.Net.Packet.{
  PacketType, unknown, handshake, login, login_world, login_lobby, grab_cache, screen, ping, afk,
  finished_loading_region, received_packet_count, action_button_1, action_button_2, action_button_3,
  action_button_4, action_button_5, action_button_6, action_button_7, action_button_8,
  action_button_9, Packet,
}

-- `frozen::map::find`.
unfoldable pub find : List (ℕ × PacketType) → ℕ → Option PacketType
find [] code = none
find ((c, t) ∷ rest) code = let later = find rest code in if c == code then some t else later

-- `Decoder::code_mapping_`.
abbrev pub code_mapping : List (ℕ × PacketType)
code_mapping = (15, handshake) ∷ (14, login) ∷ (6, grab_cache) ∷ []

-- `LoginDecoder::code_mapping_`.
abbrev pub login_code_mapping : List (ℕ × PacketType)
login_code_mapping = (16, login_world) ∷ (18, login_world) ∷ (19, login_lobby) ∷ []

-- `WorldDecoder::code_mapping_`.
abbrev pub world_code_mapping : List (ℕ × PacketType)
world_code_mapping =
    (5, action_button_3)
    ∷ (6, action_button_7)
    ∷ (14, action_button_1)
    ∷ (16, afk)
    ∷ (21, ping)
    ∷ (27, action_button_9)
    ∷ (30, finished_loading_region)
    ∷ (32, action_button_8)
    ∷ (33, received_packet_count)
    ∷ (39, unknown)
    ∷ (55, action_button_4)
    ∷ (67, action_button_2)
    ∷ (68, action_button_5)
    ∷ (90, action_button_6)
    ∷ (98, screen)
    ∷ []

-- `WorldDecoder::packet_sizes_`.
unfoldable pub packet_sizes : PacketType → Option ℤ
packet_sizes action_button_3 = some (pos 8)
packet_sizes action_button_7 = some (pos 8)
packet_sizes action_button_1 = some (pos 8)
packet_sizes afk = some (pos 2)
packet_sizes ping = some (pos 0)
packet_sizes action_button_9 = some (pos 8)
packet_sizes finished_loading_region = some (pos 0)
packet_sizes action_button_8 = some (pos 8)
packet_sizes received_packet_count = some (pos 4)
packet_sizes unknown = some (pos 4)
packet_sizes action_button_4 = some (pos 8)
packet_sizes action_button_2 = some (pos 8)
packet_sizes action_button_5 = some (pos 8)
packet_sizes action_button_6 = some (pos 8)
packet_sizes screen = some (pos 6)
packet_sizes _ = none

-- `packet->data.assign(from, to)`: the payload of a new packet has been read up to 0.
abbrev pub packet_of : PacketType → List ℕ → Packet
packet_of t bytes = record { type = t; payload = fresh bytes }

abbrev pub position_of : M Buffer Buffer
position_of b = (ok b, b)

-- `buffer.seek(SEEK_CUR, n)`.
abbrev pub skip : ℕ → M Buffer (Unit {0})
skip n b = (ok tt, seek seek_cur n b)

-- The assign of `[position, position + n)` and the seek behind it.
abbrev pub take_payload : PacketType → ℕ → M Buffer Packet
take_payload t n = do
  b ← position_of
  skip n
  return (packet_of t (take n (drop b.position b.bytes)))

-- `Decoder::Decode` behind the type byte.
unfoldable pub decode_sized : PacketType → M Buffer Packet
decode_sized t = do
  n ← get_le 1
  b ← position_of
  (if leb (size b) b.position || ltb (size b) (b.position + n) then failing else take_payload t n)

unfoldable pub decode_body : PacketType → M Buffer Packet
unfolding decode_sized remaining
decode_body t = do
  b ← position_of
  (if ltb 0 (remaining b) then decode_sized t else return (packet_of t []))

-- What follows a `find`: the branch for `cend()`, and the branch for an entry.
abbrev pub when_found {ℓ} :
    {A : Type ℓ} → Option A → M Buffer Packet → (A → M Buffer Packet) → M Buffer Packet
when_found none missing k = missing
when_found (some a) missing k = k a

-- `Decoder::Decode`.
unfoldable pub decode : M Buffer Packet
unfolding decode_body find
decode = do code ← get_le 1; when_found (find code_mapping code) failing decode_body

-- `GrabDecoder::Decode`. The packet takes the whole container, from its beginning.
unfoldable pub grab_decode : M Buffer Packet
unfolding remaining
grab_decode b = if ltb (remaining b) 6 then (fail, b) else elim (get_elem? b.bytes b.position) [
  | none ↦ (throws, b)
  | some priority ↦
      if ltb 7 priority
      then (fail, b)
      else (ok (packet_of grab_cache b.bytes), seek seek_cur (size b) b)
]

-- `LoginDecoder::Decode` behind a code of its own.
unfoldable pub login_body : PacketType → M Buffer Packet
unfolding remaining
login_body t = do
  b ← position_of
  (if leb 1 (remaining b) then take_payload t (size b - b.position) else return (packet_of t []))

-- `buffer.seek(SEEK_CUR, -1 * sizeof(uint8_t))`.
abbrev pub step_back : M Buffer (Unit {0})
step_back = skip (size_mod - 1)

-- `LoginDecoder::Decode`.
unfoldable pub login_decode : M Buffer Packet
unfolding find login_body decode
login_decode = do
  code ← get_le 1
  when_found (find login_code_mapping code) (step_back >> decode) login_body

-- `WorldDecoder::Decode` from its `switch` over an `int8_t` on. The cases end in no `break`: after
-- -1 the code of -2, -3 and the default runs too, and the last assign stands. A negative size is
-- cast to a `size_t`.
unfoldable pub take_at_most : PacketType → ℕ → M Buffer Packet
unfolding remaining
take_at_most t n = do b ← position_of; take_payload t (min n (remaining b))

unfoldable pub world_body : PacketType → ℤ → M Buffer Packet
unfolding take_at_most
world_body t (pos n) = take_at_most t n
world_body t (negsuc zero) = do
  _ ← get_le 1
  _ ← get_be 2
  _ ← get_be 4
  take_at_most t (size_mod - 1)
world_body t (negsuc (suc zero)) = do _ ← get_be 2; _ ← get_be 4; take_at_most t (size_mod - 2)
world_body t (negsuc (suc (suc zero))) = do _ ← get_be 4; take_at_most t (size_mod - 3)
world_body t (negsuc n) = take_at_most t (size_mod - suc n)

unfoldable pub world_sized : PacketType → M Buffer Packet
unfolding packet_sizes world_body
world_sized t = when_found (packet_sizes t) failing (world_body t)

-- `WorldDecoder::Decode`.
unfoldable pub world_decode : M Buffer Packet
unfolding find world_sized decode
world_decode = do
  code ← get_le 1
  when_found (find world_code_mapping code) (step_back >> decode) world_sized
