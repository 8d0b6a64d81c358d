-- ===== src/Net/Encoder.antt =====
-- openrs/{include/openrs,src}/net/codec/encoder/global: the four encoders. Each appends one packet
-- to a buffer; `fail` leaves the buffer as it was.
pub mod Client
pub mod RoundTrip
use openrs.Base.{
  ℕ, ◌+◌, ◌/◌, ◌%◌, List, [], ◌∷◌, Option, none, some, leb, ◌==◌, if◌then◌else◌, M, Outcome, ok,
  fail, undefined,
}
use openrs.Common.Buffer.{Buffer, size, append, put_data, put_data_be}
use openrs.Net.Packet.{
  PacketType, client_outdated, start_up, grab_cache, error_session, error_invalid_login,
  error_invalid_login_server, login_details, music_effect, interface_tab, run_energy,
  interface_window_pane, interface_component_setting, map_region, config_2, config_global_2,
  config_game_bar_private, config_file_2, config_game_bar_other, local_player_update,
  interface_component_animation, config_1, config_file_1, interface_hide, player_option, music,
  interface_component_text, message, dynamic_map_region, player_skill, ping, config_global_1,
  create_tile, item_look, custom_packet_161, Packet, op_code_none,
}

-- `Encoder::code_mapping_`, and below those of its subclasses.
unfoldable pub code_mapping : PacketType → Option ℕ
code_mapping client_outdated = some 6
code_mapping _ = none

unfoldable pub grab_code_mapping : PacketType → Option ℕ
grab_code_mapping start_up = some 0
grab_code_mapping grab_cache = some op_code_none
grab_code_mapping _ = none

unfoldable pub login_code_mapping : PacketType → Option ℕ
login_code_mapping start_up = some 0
login_code_mapping error_session = some 10
login_code_mapping error_invalid_login = some 3
login_code_mapping error_invalid_login_server = some 20
login_code_mapping _ = none

unfoldable pub world_code_mapping : PacketType → Option ℕ
world_code_mapping login_details = some 2
world_code_mapping music_effect = some 9
world_code_mapping interface_tab = some 14
world_code_mapping run_energy = some 25
world_code_mapping interface_window_pane = some 39
world_code_mapping interface_component_setting = some 40
world_code_mapping map_region = some 42
world_code_mapping config_2 = some 56
world_code_mapping config_global_2 = some 63
world_code_mapping config_game_bar_private = some 75
world_code_mapping config_file_2 = some 81
world_code_mapping config_game_bar_other = some 89
world_code_mapping local_player_update = some 96
world_code_mapping interface_component_animation = some 103
world_code_mapping config_1 = some 110
world_code_mapping config_file_1 = some 111
world_code_mapping interface_hide = some 112
world_code_mapping player_option = some 118
world_code_mapping music = some 129
world_code_mapping interface_component_text = some 135
world_code_mapping message = some 136
world_code_mapping dynamic_map_region = some 144
world_code_mapping player_skill = some 146
world_code_mapping ping = some 153
world_code_mapping config_global_1 = some 154
world_code_mapping create_tile = some 158
world_code_mapping item_look = some 159
world_code_mapping custom_packet_161 = some 161
world_code_mapping _ = none

pub data PacketHeaderType : Type 0 where
  k_none uint8 uint16 : PacketHeaderType

-- `WorldEncoder::type_mapping_`.
unfoldable pub type_mapping : PacketType → Option PacketHeaderType
type_mapping login_details = some uint8
type_mapping music_effect = some k_none
type_mapping interface_tab = some k_none
type_mapping run_energy = some k_none
type_mapping interface_window_pane = some k_none
type_mapping interface_component_setting = some k_none
type_mapping map_region = some uint16
type_mapping config_2 = some k_none
type_mapping config_global_2 = some k_none
type_mapping config_game_bar_private = some k_none
type_mapping config_file_2 = some k_none
type_mapping config_game_bar_other = some k_none
type_mapping local_player_update = some uint16
type_mapping interface_component_animation = some k_none
type_mapping config_1 = some k_none
type_mapping config_file_1 = some k_none
type_mapping interface_hide = some k_none
type_mapping player_option = some uint8
type_mapping music = some k_none
type_mapping interface_component_text = some uint16
type_mapping message = some uint8
type_mapping dynamic_map_region = some uint16
type_mapping player_skill = some k_none
type_mapping ping = some k_none
type_mapping config_global_1 = some k_none
type_mapping create_tile = some k_none
type_mapping item_look = some k_none
type_mapping custom_packet_161 = some k_none
type_mapping _ = none

abbrev pub put_payload : Packet → Buffer → Buffer
put_payload p b = if size p.payload == 0 then b else append p.payload.bytes b

-- The common end of `Encoder`, `GrabEncoder` and `LoginEncoder`.
unfoldable pub put_code : ℕ → Packet → Buffer → Buffer
put_code code p b = put_payload p (if code == op_code_none then b else append (code ∷ []) b)

abbrev pub encode_found : Option ℕ → Packet → M Buffer (Unit {0}) → M Buffer (Unit {0})
encode_found none p other b = other b
encode_found (some code) p other b = (ok tt, put_code code p b)

-- `Encoder::Encode`.
unfoldable pub encode : Packet → M Buffer (Unit {0})
unfolding code_mapping put_code
encode p = encode_found (code_mapping p.type) p (λ b. (fail, b))

-- `GrabEncoder::Encode`.
unfoldable pub grab_encode : Packet → M Buffer (Unit {0})
unfolding grab_code_mapping put_code encode
grab_encode p = encode_found (grab_code_mapping p.type) p (encode p)

-- `LoginEncoder::Encode`.
unfoldable pub login_encode : Packet → M Buffer (Unit {0})
unfolding login_code_mapping put_code encode
login_encode p = encode_found (login_code_mapping p.type) p (encode p)

-- The operation code of `WorldEncoder::Encode`: a `uint8_t`, so the shifted part is 0.
unfoldable pub put_op_code : ℕ → Buffer → Buffer
unfolding put_data
put_op_code code b =
    if code == op_code_none
    then b
    else (if leb 128 code
        then put_data 1 code (put_data 1 (code / 256 % 256 + 128) b)
        else put_data 1 code b)

unfoldable pub put_header : PacketHeaderType → ℕ → Buffer → Buffer
unfolding put_data_be
put_header k_none n b = b
put_header uint8 n b = put_data_be 1 n b
put_header uint16 n b = put_data_be 2 n b

-- The iterator that `type_mapping_.find` gives is used unchecked, behind the operation code.
unfoldable pub world_encode_typed : Option PacketHeaderType → ℕ → Packet → M Buffer (Unit {0})
unfolding put_op_code put_header
world_encode_typed none code p b = (undefined, put_op_code code b)
world_encode_typed (some header) code p b =
    (ok tt, put_payload p (put_header header (size p.payload) (put_op_code code b)))

abbrev pub world_encode_found : Option ℕ → Packet → M Buffer (Unit {0})
world_encode_found none p b = encode p b
world_encode_found (some code) p b = world_encode_typed (type_mapping p.type) code p b

-- `WorldEncoder::Encode`.
unfoldable pub world_encode : Packet → M Buffer (Unit {0})
unfolding world_code_mapping type_mapping world_encode_typed encode
world_encode p = world_encode_found (world_code_mapping p.type) p
