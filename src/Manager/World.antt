-- ===== src/Manager/World.antt =====
-- openrs/{include/openrs,src}/manager/worldmanager.{h,cpp}: what the players of a world are sent.
pub mod Map
pub mod Regions
pub mod Start
pub mod Moves
pub mod Events
use openrs.Base.{
  ℕ, ◌+◌, ◌-◌, ◌*◌, ◌/◌, ◌%◌, ◌^◌, List, [], ◌∷◌, ◌++◌, Option, none, some, Bool, if◌then◌else◌,
  bit_or, M, Outcome, ok, fail, throws, undefined, throwing, ◌▷◌, get_elem?, ◌>>◌,
}
use openrs.Common.Buffer.{
  Buffer, empty, put_data, put_data_be, put_string, put_smart_be, put_shifted_neg_data_be,
  put_shifted_neg_data_le, put_shifted_pos_data_be, put_shifted_pos_data_le,
}
use openrs.Game.WorldTile.{WorldTile, tile_hash, get_local_x, get_local_y, get_local}
use openrs.Game.World.{Players, find}
use openrs.Game.Player.{Player, tile}
use openrs.Game.Skills.{Skill, get_skill_experience, get_skill_level}
use openrs.Net.Packet.{
  run_energy, item_look, custom_packet_161, message, create_tile, music, music_effect, player_skill,
}
use openrs.Net.Session.{Session, send}
use openrs.Manager.Config.{negated, send_file_config, hit_points, send_global_config, combat_mode}

-- The worlds and the sessions by their indices; of a session there is a weak pointer, which may have
-- expired. What the configuration gives: the keys of the map regions in the configuration of the
-- cache 718, if that was read, the name of the server, and where its source is. `gain` is the
-- floating-point part of the level of a skill.
pub record WorldManager : Type 0 where
  pub worlds : Players (Players Player)
  pub sessions : Players (Option Session)
  pub map_archive_keys : Option (ℕ → Option (List ℕ))
  pub server_name : List ℕ
  pub source_url : List ℕ
  pub gain : ℕ → ℕ

abbrev pub map_sizes : List ℕ
map_sizes = 104 ∷ 120 ∷ 136 ∷ 168 ∷ 72 ∷ []

-- `MAP_SIZES[map_size] >> 4`, of which a `uint8_t` is passed on.
unfoldable pub map_chunks : ℕ → Option ℕ
map_chunks map_size = elim (get_elem? map_sizes map_size) [
  | none ↦ none
  | some n ↦ some (n / 2 ^ 4 % 2 ^ 8)
]

unfoldable pub send_run_energy : Player → M Session (Unit {0})
unfolding put_data
send_run_energy player =
    send (record { type = run_energy; payload = empty ▷ put_data 1 player.run_energy })

-- The hit points are a `uint32_t`, and passed as a `uint8_t`.
unfoldable pub send_player_hit_points : Player → M Session (Unit {0})
send_player_hit_points player = send_file_config hit_points player.hit_points

unfoldable pub send_item_look : Player → M Session (Unit {0})
unfolding put_data
send_item_look player = send (record {
  type = item_look;
  payload = empty ▷ put_data 1 (if player.old_items_look then 1 else 0);
})

unfoldable pub custom_flag : Player → ℕ
custom_flag player =
    let shift : ℕ = if player.is_shift_drop then bit_or 0 1 else 0 in
    let drag : ℕ = if player.is_slow_drag then bit_or shift 2 else shift in
    if player.is_zoom then bit_or drag 4 else drag

unfoldable pub send_custom_161 : Player → M Session (Unit {0})
unfolding custom_flag put_data
send_custom_161 player =
    send (record { type = custom_packet_161; payload = empty ▷ put_data 1 (custom_flag player) })

-- `MessageType::kDefault`.
abbrev pub default_message : ℕ
default_message = 0

unfoldable pub send_message : Player → ℕ → List ℕ → M Session (Unit {0})
unfolding put_smart_be put_data_be put_string tile_hash
send_message player type text = send (record {
  type = message;
  payload =
      empty
      ▷ put_smart_be 2 type
      ▷ put_data_be 4 (tile_hash (tile player))
      ▷ put_data_be 1 1
      ▷ put_string player.username
      ▷ put_string text;
})

unfoldable pub send_create_world_tile : Player → WorldTile → M Session (Unit {0})
unfolding map_chunks get_local put_shifted_pos_data_be put_data_be put_shifted_neg_data_be
send_create_world_tile player t s = elim (map_chunks (tile player).map_size) [
  | none ↦ (undefined, s)
  | some n ↦
      send
        (record {
          type = create_tile;
          payload =
              empty
              ▷ put_shifted_pos_data_be 1 (get_local_y t (tile player) n % 2 ^ 8)
              ▷ put_data_be 1 (negated t.position_z)
              ▷ put_shifted_neg_data_be 1 (get_local_x t (tile player) n % 2 ^ 8);
        })
        s
]

unfoldable pub send_music : ℕ → ℕ → ℕ → M Session (Unit {0})
unfolding put_data_be put_shifted_pos_data_le
send_music music_id delay volume = send (record {
  type = music;
  payload =
      empty
      ▷ put_data_be 1 delay
      ▷ put_shifted_pos_data_le 2 music_id
      ▷ put_shifted_pos_data_le 1 volume;
})

unfoldable pub send_music_effect : ℕ → ℕ → M Session (Unit {0})
unfolding put_shifted_neg_data_le put_data put_data_be
send_music_effect music_id volume = send (record {
  type = music_effect;
  payload =
      empty
      ▷ put_shifted_neg_data_le 1 volume
      ▷ put_data 1 0
      ▷ put_data 1 0
      ▷ put_data 1 0
      ▷ put_data_be 2 music_id;
})

-- `World::IsMultiCombatArea`, which is still to be written in the source.
abbrev pub is_multi_combat_area : Players Player → WorldTile → Bool
is_multi_combat_area players t = Bool.false

unfoldable pub send_multi_combat_area : WorldManager → Player → M Session (Unit {0})
unfolding find
send_multi_combat_area manager player = elim (find 1 manager.worlds) [
  | none ↦ throwing
  | some players ↦
      if is_multi_combat_area players (tile player)
      then send_global_config combat_mode 1
      else send_global_config combat_mode 0
]

-- The values of `Skills::Skill`.
unfoldable pub skill_id : Skill → ℕ
skill_id Skill.attack = 0
skill_id Skill.defence = 1
skill_id Skill.strength = 2
skill_id Skill.hit_points = 3
skill_id Skill.range = 4
skill_id Skill.prayer = 5
skill_id Skill.magic = 6
skill_id Skill.cooking = 7
skill_id Skill.wood_cuting = 8
skill_id Skill.fletching = 9
skill_id Skill.fishing = 10
skill_id Skill.fire_making = 11
skill_id Skill.crafting = 12
skill_id Skill.smithing = 13
skill_id Skill.mining = 14
skill_id Skill.herb_lore = 15
skill_id Skill.agility = 16
skill_id Skill.thieving = 17
skill_id Skill.slayer = 18
skill_id Skill.farming = 19
skill_id Skill.rune_crafting = 20
skill_id Skill.construction = 22
skill_id Skill.hunter = 21
skill_id Skill.summoning = 23
skill_id Skill.dungeoneering = 24
skill_id Skill.last = 25

unfoldable pub send_player_skill : WorldManager → Player → Skill → M Session (Unit {0})
unfolding skill_id get_skill_experience get_skill_level put_shifted_neg_data_be put_data_be
    put_shifted_pos_data_be
send_player_skill manager player skill = send (record {
  type = player_skill;
  payload =
      empty
      ▷ put_shifted_neg_data_be 1 (skill_id skill)
      ▷ put_data_be 4 (get_skill_experience player.skills skill)
      ▷ put_shifted_pos_data_be 1 (get_skill_level manager.gain player.skills skill);
})
