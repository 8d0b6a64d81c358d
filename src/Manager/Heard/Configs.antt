-- ===== src/Manager/Heard/Configs.antt =====
-- What the client hears of the variables.
use openrs.Base.{ℕ, ◌≡◌, refl, [], ◌∷◌, ◌++◌, ltb, ◌%◌, ◌^◌, false, arith, List}
use openrs.Base.Bytes.{le_bytes, be_bytes}
use openrs.Common.Buffer.{shift_positive}
use openrs.Net.Packet.{
  config_1, config_2, config_global_1, config_file_1, config_game_bar_other,
  config_game_bar_private,
}
use openrs.Net.Encoder.{k_none, world_code_mapping, type_mapping}
use openrs.Net.Encoder.RoundTrip.Stream.{Said, client_size}
use openrs.Manager.Config.{
  Config, ConfigGlobal, ConfigFile, negated, config_id, config_global_id, config_file_id,
  send_config, send_config_1, send_config_2, send_global_config_1, send_file_config,
  send_file_config_1, send_game_bar_stages, send_game_bar_stages_other,
  send_game_bar_stages_private,
}
use openrs.Manager.Heard.{Speaks, send-Speaks, then-Speaks}
use openrs.Manager.Heard.Wire.{variable_byte, file_byte}

pub config_1-Speaks :
    (id : Config) (value : ℕ)
    → Speaks (send_config_1 id value) (
        (
          config_1,
          le_bytes 2 (shift_positive 2 (config_id id) 128)
              ++ le_bytes 1 (shift_positive 1 value 128),
        )
        ∷ [])
unfolding send_config_1 le_bytes world_code_mapping type_mapping client_size
config_1-Speaks id value = send-Speaks _ 110 k_none refl refl refl

pub config_2-Speaks :
    (id : Config) (value : ℕ)
    → Speaks
        (send_config_2 id value)
        ((config_2, be_bytes 2 (shift_positive 2 (config_id id) 128) ++ le_bytes 4 value) ∷ [])
unfolding send_config_2 le_bytes be_bytes world_code_mapping type_mapping client_size
config_2-Speaks id value = send-Speaks _ 56 k_none refl refl refl

pub global_config_1-Speaks :
    (id : ConfigGlobal) (value : ℕ)
    → Speaks (send_global_config_1 id value) (
        (
          config_global_1,
          le_bytes 1 (negated value) ++ be_bytes 2 (shift_positive 2 (config_global_id id) 128),
        )
        ∷ [])
unfolding send_global_config_1 le_bytes be_bytes world_code_mapping type_mapping client_size
global_config_1-Speaks id value = send-Speaks _ 154 k_none refl refl refl

file_config_1-Speaks :
    (id : ConfigFile) (value : ℕ)
    → Speaks (send_file_config_1 id value) (
        (
          config_file_1,
          be_bytes 2 (shift_positive 2 (config_file_id id) 128) ++ le_bytes 1 (negated value),
        )
        ∷ [])
unfolding send_file_config_1 le_bytes be_bytes world_code_mapping type_mapping client_size
file_config_1-Speaks id value = send-Speaks _ 111 k_none refl refl refl

other-Speaks : Speaks send_game_bar_stages_other ((config_game_bar_other, 128 ∷ 0 ∷ []) ∷ [])
unfolding send_game_bar_stages_other le_bytes world_code_mapping type_mapping client_size
other-Speaks = send-Speaks _ 89 k_none refl refl refl

private-Speaks : Speaks send_game_bar_stages_private ((config_game_bar_private, 0 ∷ []) ∷ [])
unfolding send_game_bar_stages_private le_bytes world_code_mapping type_mapping client_size
private-Speaks = send-Speaks _ 75 k_none refl refl refl

-- The four states and the two stages of the bar.
abbrev pub game_bar : List Said
game_bar =
    variable_byte 1054 0
    ∷ variable_byte 1055 0
    ∷ variable_byte 1056 0
    ∷ variable_byte 2159 0
    ∷ (config_game_bar_other, 128 ∷ 0 ∷ [])
    ∷ (config_game_bar_private, 0 ∷ [])
    ∷ []

pub send_game_bar_stages-Speaks : Speaks send_game_bar_stages game_bar
unfolding send_game_bar_stages send_config config_id shift_positive le_bytes be_bytes
send_game_bar_stages-Speaks = then-Speaks (config_1-Speaks Config.clan_status 0) (
    then-Speaks (config_1-Speaks Config.assist_status 0) (
      then-Speaks (config_1-Speaks Config.filter_status 0) (
        then-Speaks (config_1-Speaks Config.friend_chat_status 0)
          (then-Speaks other-Speaks private-Speaks))))

-- The value is a byte by then.
pub send_file_config-small :
    (id : ConfigFile) (value : ℕ)
    → send_file_config id value ≡ send_file_config_1 id (value % 2 ^ 8)
unfolding send_file_config
send_file_config-small id value =
    let small : ltb 255 (value % 2 ^ 8) ≡ false = ground arith in rw small refl

pub hit_points-Speaks :
    (value : ℕ)
    → Speaks
        (send_file_config ConfigFile.hit_points value)
        (file_byte 7198 (negated (value % 2 ^ 8) % 256) ∷ [])
unfolding config_file_id shift_positive le_bytes be_bytes
hit_points-Speaks value =
    rw (send_file_config-small ConfigFile.hit_points value)
      (file_config_1-Speaks ConfigFile.hit_points (value % 2 ^ 8))
