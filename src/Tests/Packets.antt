-- ===== src/Tests/Packets.antt =====
-- The theorems on the decoders and the encoders, at small packets.
use openrs.Base.{ℕ, ◌+◌, ◌≡◌, ◌≢◌, refl, List, [], ◌∷◌, ◌++◌, some, ok, throws, replicate, arith}
use openrs.Base.Int.{pos}
use openrs.Common.Buffer.{Buffer, empty, fresh, append, size}
use openrs.Common.Buffer.Read.{IsValid, moved}
use openrs.Net.Packet.{Packet, grab_cache, screen, map_region, message}
use openrs.Net.Decoder.{decode, world_decode, grab_decode, packet_of, packet_sizes, find}
use openrs.Net.Decoder.Progress.{Decoded, decode-Decoded, world_decode-Decoded, grab_decode_beyond}
use openrs.Net.Decoder.Frames.{world_decode_frame}
use openrs.Net.Encoder.{world_encode, uint16, world_code_mapping, type_mapping}
use openrs.Net.Encoder.Client.{client_read}
use openrs.Net.Encoder.RoundTrip.{client_read-world_encode, client_read-overflow}

abbrev two_packets : Buffer
two_packets = fresh (15 ∷ 2 ∷ 7 ∷ 8 ∷ 14 ∷ [])

two_packets-IsValid : IsValid two_packets
two_packets-IsValid = record { within = omega arith; fits = omega arith }

decode-Decoded_example : Decoded 1 two_packets (decode two_packets)
decode-Decoded_example = decode-Decoded two_packets two_packets-IsValid

world_decode-Decoded_example : Decoded 1 two_packets (world_decode two_packets)
world_decode-Decoded_example = world_decode-Decoded two_packets two_packets-IsValid

-- The code 98 of a screen packet, whose payload of six bytes is cut short.
abbrev short_screen : Buffer
short_screen = fresh (98 ∷ 1 ∷ 2 ∷ [])

short_screen-IsValid : IsValid short_screen
short_screen-IsValid = record { within = omega arith; fits = omega arith }

screen_size : packet_sizes screen ≡ some (pos 6)
unfolding packet_sizes
screen_size = refl

world_decode_frame_example :
    world_decode short_screen ≡ (ok (packet_of screen (1 ∷ 2 ∷ [])), moved 2 (moved 1 short_screen))
unfolding find
world_decode_frame_example =
    world_decode_frame short_screen 98 6 screen (1 ∷ 2 ∷ []) [] short_screen-IsValid refl
      screen_size refl refl

abbrev request : Buffer
request = fresh (1 ∷ 2 ∷ 0 ∷ 0 ∷ 0 ∷ 3 ∷ [])

-- The request stands behind the two bytes of another packet.
abbrev later : Buffer
later = record { bytes = 15 ∷ 0 ∷ 1 ∷ 2 ∷ 0 ∷ 0 ∷ 0 ∷ 3 ∷ []; position = 2 }

grab_decode_beyond_example :
    (grab_decode later ≡ (ok (packet_of grab_cache later.bytes), record later { position = 2 + 8 }))
    × (grab_decode (record later { position = 2 + 8 })
        ≡ (throws, record later { position = 2 + 8 }))
grab_decode_beyond_example =
    grab_decode_beyond later 1 (omega arith) (omega arith) (omega arith) refl (omega arith)

abbrev region : Packet
region = record { type = map_region; payload = fresh (1 ∷ 2 ∷ 3 ∷ []) }

client_read-world_encode_example :
    (fr : List ℕ) × (world_encode region empty ≡ (ok tt, append fr empty))
    × (client_read 3 (fr ++ (9 ∷ [])) ≡ some (map_region, 1 ∷ 2 ∷ 3 ∷ [], 9 ∷ []))
unfolding world_code_mapping type_mapping
client_read-world_encode_example =
    client_read-world_encode region empty (9 ∷ []) 42 uint16 refl refl (omega arith)

abbrev long_text : Packet
long_text = record { type = message; payload = fresh (replicate 256 b'a') }

client_read-overflow_example :
    (fr : List ℕ) × (world_encode long_text empty ≡ (ok tt, append fr empty))
    × (client_read (size long_text.payload) (fr ++ [])
        ≢ some (message, long_text.payload.bytes, []))
unfolding world_code_mapping type_mapping
client_read-overflow_example = client_read-overflow long_text empty [] 136 refl refl (omega arith)
