-- ===== src/Net/Packet.antt =====
-- openrs/include/openrs/net/codec/packet.h.
use openrs.Base.{ℕ}
use openrs.Common.Buffer.{Buffer}

pub data PacketType : Type 0 where
  unknown handshake login login_world login_lobby client_outdated start_up grab_cache : PacketType
  server_shutting_down error_session error_invalid_login error_invalid_login_server : PacketType
  login_details interface_window_pane interface_tab interface_component_animation : PacketType
  interface_component_text interface_component_setting interface_hide : PacketType
  config_1 config_2 config_global_1 config_global_2 config_file_1 config_file_2 : PacketType
  config_game_bar_private config_game_bar_other map_region dynamic_map_region : PacketType
  local_player_update screen ping afk finished_loading_region received_packet_count : PacketType
  run_energy player_option item_look custom_packet_161 message create_tile music : PacketType
  music_effect player_skill action_button_1 action_button_2 action_button_3 : PacketType
  action_button_4 action_button_5 action_button_6 action_button_7 action_button_8 : PacketType
  action_button_9 : PacketType

-- `PacketOpCode::kNone`.
abbrev pub op_code_none : ℕ
op_code_none = 255

pub record Packet : Type 0 where
  pub type : PacketType
  pub payload : Buffer
