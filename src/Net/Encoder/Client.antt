-- ===== src/Net/Encoder/Client.antt =====
-- What the client reads from the bytes that `WorldEncoder::Encode` appends.
use openrs.Base.{
  ℕ, ◌+◌, ◌-◌, ◌*◌, ◌<◌, ◌≡◌, refl, List, [], ◌∷◌, Option, none, some, ltb, leb, if◌then◌else◌,
  length, take, drop, arith,
}
use openrs.Net.Packet.{
  PacketType, login_details, music_effect, interface_tab, run_energy, interface_window_pane,
  interface_component_setting, map_region, config_2, config_global_2, config_game_bar_private,
  config_file_2, config_game_bar_other, local_player_update, interface_component_animation,
  config_1, config_file_1, interface_hide, player_option, music, interface_component_text, message,
  dynamic_map_region, player_skill, ping, config_global_1, create_tile, item_look,
  custom_packet_161,
}
use openrs.Net.Decoder.{find}
use openrs.Net.Encoder.{PacketHeaderType, k_none, uint8, uint16, world_code_mapping, type_mapping}

-- The client's side of the protocol. An operation code of 128 and more takes two bytes.
unfoldable pub read_second : ℕ → List ℕ → Option (ℕ × List ℕ)
read_second c [] = none
read_second c (d ∷ rest) = some ((c - 128) * 256 + d, rest)

unfoldable pub read_code : List ℕ → Option (ℕ × List ℕ)
unfolding read_second
read_code [] = none
read_code (c ∷ rest) = if ltb c 128 then some (c, rest) else read_second c rest

unfoldable pub split : ℕ → List ℕ → Option (List ℕ × List ℕ)
split n xs = if leb n (length xs) then some (take n xs, drop n xs) else none

-- A packet without a header has a length `n` that the client knows by its type.
unfoldable pub read_payload : PacketHeaderType → ℕ → List ℕ → Option (List ℕ × List ℕ)
unfolding split
read_payload k_none n xs = split n xs
read_payload uint8 n [] = none
read_payload uint8 n (c ∷ xs) = split c xs
read_payload uint16 n [] = none
read_payload uint16 n (c ∷ []) = none
read_payload uint16 n (c ∷ d ∷ xs) = split (c * 256 + d) xs

-- Which packet an operation code of the world server stands for.
client_types : List (ℕ × PacketType)
client_types =
    (2, login_details)
    ∷ (9, music_effect)
    ∷ (14, interface_tab)
    ∷ (25, run_energy)
    ∷ (39, interface_window_pane)
    ∷ (40, interface_component_setting)
    ∷ (42, map_region)
    ∷ (56, config_2)
    ∷ (63, config_global_2)
    ∷ (75, config_game_bar_private)
    ∷ (81, config_file_2)
    ∷ (89, config_game_bar_other)
    ∷ (96, local_player_update)
    ∷ (103, interface_component_animation)
    ∷ (110, config_1)
    ∷ (111, config_file_1)
    ∷ (112, interface_hide)
    ∷ (118, player_option)
    ∷ (129, music)
    ∷ (135, interface_component_text)
    ∷ (136, message)
    ∷ (144, dynamic_map_region)
    ∷ (146, player_skill)
    ∷ (153, ping)
    ∷ (154, config_global_1)
    ∷ (158, create_tile)
    ∷ (159, item_look)
    ∷ (161, custom_packet_161)
    ∷ []

unfoldable pub client_type : ℕ → Option PacketType
unfolding find client_types
client_type code = find client_types code

abbrev pub received : PacketType → Option (List ℕ × List ℕ) → Option (PacketType × List ℕ × List ℕ)
received t none = none
received t (some (payload, rest)) = some (t, payload, rest)

unfoldable pub read_body : Option PacketType → ℕ → List ℕ → Option (PacketType × List ℕ × List ℕ)
unfolding read_payload type_mapping
read_body none n xs = none
read_body (some t) n xs = elim (type_mapping t) [
  | none ↦ none
  | some h ↦ received t (read_payload h n xs)
]

-- One packet off the stream: its type, its payload, and the bytes behind it.
unfoldable pub client_read : ℕ → List ℕ → Option (PacketType × List ℕ × List ℕ)
unfolding read_code client_type read_body
client_read n xs = elim (read_code xs) [
  | none ↦ none
  | some (code, rest) ↦ read_body (client_type code) n rest
]

at_code :
    (c : ℕ) {t : PacketType} {code : ℕ}
    → client_type c ≡ some t
    → c < 255
    → some c ≡ some code
    → (client_type code ≡ some t) × (code < 255)
at_code c {t} {code} e lt q = let same : c ≡ code = cc in rw (← same) (e, lt)

-- The operation codes of the table are bytes, are never 255, and tell the types apart.
pub client_type-code :
    (t : PacketType) (code : ℕ)
    → world_code_mapping t ≡ some code
    → (client_type code ≡ some t) × (code < 255)
unfolding client_type world_code_mapping
client_type-code login_details code e = at_code 2 refl (omega arith) e
client_type-code music_effect code e = at_code 9 refl (omega arith) e
client_type-code interface_tab code e = at_code 14 refl (omega arith) e
client_type-code run_energy code e = at_code 25 refl (omega arith) e
client_type-code interface_window_pane code e = at_code 39 refl (omega arith) e
client_type-code interface_component_setting code e = at_code 40 refl (omega arith) e
client_type-code map_region code e = at_code 42 refl (omega arith) e
client_type-code config_2 code e = at_code 56 refl (omega arith) e
client_type-code config_global_2 code e = at_code 63 refl (omega arith) e
client_type-code config_game_bar_private code e = at_code 75 refl (omega arith) e
client_type-code config_file_2 code e = at_code 81 refl (omega arith) e
client_type-code config_game_bar_other code e = at_code 89 refl (omega arith) e
client_type-code local_player_update code e = at_code 96 refl (omega arith) e
client_type-code interface_component_animation code e = at_code 103 refl (omega arith) e
client_type-code config_1 code e = at_code 110 refl (omega arith) e
client_type-code config_file_1 code e = at_code 111 refl (omega arith) e
client_type-code interface_hide code e = at_code 112 refl (omega arith) e
client_type-code player_option code e = at_code 118 refl (omega arith) e
client_type-code music code e = at_code 129 refl (omega arith) e
client_type-code interface_component_text code e = at_code 135 refl (omega arith) e
client_type-code message code e = at_code 136 refl (omega arith) e
client_type-code dynamic_map_region code e = at_code 144 refl (omega arith) e
client_type-code player_skill code e = at_code 146 refl (omega arith) e
client_type-code ping code e = at_code 153 refl (omega arith) e
client_type-code config_global_1 code e = at_code 154 refl (omega arith) e
client_type-code create_tile code e = at_code 158 refl (omega arith) e
client_type-code item_look code e = at_code 159 refl (omega arith) e
client_type-code custom_packet_161 code e = at_code 161 refl (omega arith) e
client_type-code _ code e = cc

-- Every type with an operation code has a header type.
pub type_mapping-code :
    (t : PacketType) (code : ℕ)
    → world_code_mapping t ≡ some code
    → (h : PacketHeaderType) × (type_mapping t ≡ some h)
unfolding world_code_mapping type_mapping
type_mapping-code login_details code e = (uint8, refl)
type_mapping-code music_effect code e = (k_none, refl)
type_mapping-code interface_tab code e = (k_none, refl)
type_mapping-code run_energy code e = (k_none, refl)
type_mapping-code interface_window_pane code e = (k_none, refl)
type_mapping-code interface_component_setting code e = (k_none, refl)
type_mapping-code map_region code e = (uint16, refl)
type_mapping-code config_2 code e = (k_none, refl)
type_mapping-code config_global_2 code e = (k_none, refl)
type_mapping-code config_game_bar_private code e = (k_none, refl)
type_mapping-code config_file_2 code e = (k_none, refl)
type_mapping-code config_game_bar_other code e = (k_none, refl)
type_mapping-code local_player_update code e = (uint16, refl)
type_mapping-code interface_component_animation code e = (k_none, refl)
type_mapping-code config_1 code e = (k_none, refl)
type_mapping-code config_file_1 code e = (k_none, refl)
type_mapping-code interface_hide code e = (k_none, refl)
type_mapping-code player_option code e = (uint8, refl)
type_mapping-code music code e = (k_none, refl)
type_mapping-code interface_component_text code e = (uint16, refl)
type_mapping-code message code e = (uint8, refl)
type_mapping-code dynamic_map_region code e = (uint16, refl)
type_mapping-code player_skill code e = (k_none, refl)
type_mapping-code ping code e = (k_none, refl)
type_mapping-code config_global_1 code e = (k_none, refl)
type_mapping-code create_tile code e = (k_none, refl)
type_mapping-code item_look code e = (k_none, refl)
type_mapping-code custom_packet_161 code e = (k_none, refl)
type_mapping-code _ code e = cc
