-- ===== src/Manager/Config.antt =====
-- openrs/{include/openrs,src}/manager/configmanager.{h,cpp}: the variables that a client is sent. Reading
-- and writing the configuration files is not modelled.
pub mod Read
use openrs.Base.{ℕ, ◌-◌, ◌%◌, ◌^◌, Bool, ltb, if◌then◌else◌, M, ◌>>◌, ◌▷◌}
use openrs.Common.Buffer.{
  Buffer, empty, put_data, put_data_le, put_data_vbe, put_shifted_neg_data_le,
  put_shifted_pos_data_le, put_shifted_pos_data_be,
}
use openrs.Net.Packet.{
  Packet, config_1, config_2, config_global_1, config_global_2, config_file_1, config_file_2,
  config_game_bar_other, config_game_bar_private,
}
use openrs.Net.Session.{Session, send}

pub data ConfigGlobal : Type 0 where
  combat_mode k823 : ConfigGlobal

pub data ConfigFile : Type 0 where
  hit_points : ConfigFile

pub data Config : Type 0 where
  k281 clan_status assist_status filter_status k1159 k1160 friend_chat_status : Config

-- The values of the enumerations.
unfoldable pub config_global_id : ConfigGlobal → ℕ
config_global_id combat_mode = 616
config_global_id k823 = 823

unfoldable pub config_file_id : ConfigFile → ℕ
config_file_id hit_points = 7198

unfoldable pub config_id : Config → ℕ
config_id k281 = 281
config_id clan_status = 1054
config_id assist_status = 1055
config_id filter_status = 1056
config_id k1159 = 1159
config_id k1160 = 1160
config_id friend_chat_status = 2159

-- `-1 * value` as a `uint8_t`.
abbrev pub negated : ℕ → ℕ
negated value = (2 ^ 8 - value % 2 ^ 8) % 2 ^ 8

unfoldable pub send_game_bar_stages_other : M Session (Unit {0})
unfolding put_shifted_neg_data_le put_data
send_game_bar_stages_other = send (record {
  type = config_game_bar_other;
  payload = empty ▷ put_shifted_neg_data_le 1 0 ▷ put_data 1 0;
})

unfoldable pub send_game_bar_stages_private : M Session (Unit {0})
unfolding put_data
send_game_bar_stages_private =
    send (record { type = config_game_bar_private; payload = empty ▷ put_data 1 0 })

unfoldable pub send_config_1 : Config → ℕ → M Session (Unit {0})
unfolding put_shifted_pos_data_le config_id
send_config_1 id value = send (record {
  type = config_1;
  payload = empty ▷ put_shifted_pos_data_le 2 (config_id id) ▷ put_shifted_pos_data_le 1 value;
})

unfoldable pub send_config_2 : Config → ℕ → M Session (Unit {0})
unfolding put_shifted_pos_data_be put_data_le config_id
send_config_2 id value = send (record {
  type = config_2;
  payload = empty ▷ put_shifted_pos_data_be 2 (config_id id) ▷ put_data_le 4 value;
})

unfoldable pub send_global_config_1 : ConfigGlobal → ℕ → M Session (Unit {0})
unfolding put_shifted_pos_data_be put_data config_global_id
send_global_config_1 id value = send (record {
  type = config_global_1;
  payload = empty ▷ put_data 1 (negated value) ▷ put_shifted_pos_data_be 2 (config_global_id id);
})

unfoldable pub send_global_config_2 : ConfigGlobal → ℕ → M Session (Unit {0})
unfolding put_shifted_pos_data_be put_data config_global_id
send_global_config_2 id value = send (record {
  type = config_global_2;
  payload = empty ▷ put_shifted_pos_data_be 2 (config_global_id id) ▷ put_data 4 value;
})

unfoldable pub send_file_config_1 : ConfigFile → ℕ → M Session (Unit {0})
unfolding put_shifted_pos_data_be put_data config_file_id
send_file_config_1 id value = send (record {
  type = config_file_1;
  payload = empty ▷ put_shifted_pos_data_be 2 (config_file_id id) ▷ put_data 1 (negated value);
})

unfoldable pub send_file_config_2 : ConfigFile → ℕ → M Session (Unit {0})
unfolding put_shifted_pos_data_be put_data_vbe config_file_id
send_file_config_2 id value = send (record {
  type = config_file_2;
  payload = empty ▷ put_data_vbe 4 value ▷ put_shifted_pos_data_be 2 (config_file_id id);
})

-- The value is a `uint32_t`.
unfoldable pub send_config : Config → ℕ → M Session (Unit {0})
send_config id value = if ltb 255 value then send_config_2 id value else send_config_1 id value

unfoldable pub send_global_config : ConfigGlobal → ℕ → M Session (Unit {0})
send_global_config id value =
    if ltb 255 value then send_global_config_2 id value else send_global_config_1 id value

-- The value is passed as a `uint8_t`.
unfoldable pub send_file_config : ConfigFile → ℕ → M Session (Unit {0})
send_file_config id value =
    let byte = value % 2 ^ 8 in
    if ltb 255 byte then send_file_config_2 id byte else send_file_config_1 id byte

unfoldable pub send_game_bar_stages : M Session (Unit {0})
send_game_bar_stages = do
  send_config clan_status 0
  send_config assist_status 0
  send_config filter_status 0
  send_config friend_chat_status 0
  send_game_bar_stages_other
  send_game_bar_stages_private
