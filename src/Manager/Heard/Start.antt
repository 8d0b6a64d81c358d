-- ===== src/Manager/Heard/Start.antt =====
-- What the client hears when its player enters the world.
pub mod Map
use openrs.Base.{
  Bool, true, false, bit_or, ℕ, suc, ◌+◌, ◌-◌, ◌*◌, ◌/◌, ◌^◌, ◌%◌, ◌≡◌, ◌≤◌, ◌<◌, refl, ap, ◌∙◌,
  List, [], ◌∷◌, ◌++◌, some, length, length-append, arith, M, ◌>>◌, sym, append-nil, append_assoc,
  ok, map, subst, if◌then◌else◌,
}
use openrs.Base.Bytes.{le_bytes, be_bytes}
use openrs.Common.Buffer.{
  Buffer, size, put_string, put_data, put_smart_be, shift_positive, shift_negative,
}
use openrs.Game.WorldTile.{tile_hash}
use openrs.Game.World.{Players, find}
use openrs.Game.Player.{Player, tile}
use openrs.Game.Skills.{Skill, get_skill_experience, get_skill_level, get_skill_level-bounds}
use openrs.Net.Packet.{run_energy, item_look, custom_packet_161, message, player_skill}
use openrs.Net.Encoder.{k_none, uint8, world_code_mapping, type_mapping}
use openrs.Net.Encoder.RoundTrip.Stream.{Said, client_size, hear}
use openrs.Net.Session.{Session}
use openrs.Manager.Config.{
  Config, ConfigGlobal, send_config, config_id, send_global_config, config_global_id, negated,
}
use openrs.Manager.World.{
  WorldManager, send_run_energy, send_player_hit_points, send_item_look, send_custom_161,
  custom_flag, send_message, send_multi_combat_area, send_player_skill, skill_id,
}
use openrs.Manager.World.Start.{
  send_skills, send_start, all_skills, welcome_text, license_text, source_text,
}
use openrs.Manager.Interface.{is_resizable}
use openrs.Manager.Heard.{Speaks, Says, send-Speaks, ◌▸◌}
use openrs.Manager.Heard.Configs.{
  config_1-Speaks, config_2-Speaks, global_config_1-Speaks, hit_points-Speaks, game_bar,
  send_game_bar_stages-Speaks,
}
use openrs.Manager.Heard.Wire.{
  text_bytes, told, skill, file_byte, global_byte, variable_word, variable_byte,
}
use openrs.Manager.Heard.Interfaces.Screens.{screen_packets, send_interfaces-Speaks}

put_string-text_bytes :
    (text : List ℕ) (b : Buffer)
    → put_string text b ≡ record b { bytes = b.bytes ++ text_bytes text }
unfolding put_string put_data le_bytes
put_string-text_bytes [] b = refl
put_string-text_bytes (c ∷ text) b =
    put_string-text_bytes text (put_data 1 c b)
    ∙ ap (λ xs. record b { bytes = xs }) (append_assoc b.bytes (c % 256 ∷ []) (text_bytes text))

length-text_bytes : (text : List ℕ) → length (text_bytes text) ≡ length text + 1
length-text_bytes [] = refl
length-text_bytes (c ∷ text) = omega (arith, length-text_bytes text)

energy-Speaks :
    (player : Player)
    → Speaks (send_run_energy player) ((run_energy, (player.run_energy % 256) ∷ []) ∷ [])
unfolding send_run_energy le_bytes world_code_mapping type_mapping client_size
energy-Speaks player = send-Speaks _ 25 k_none refl refl refl

look-Speaks :
    (player : Player)
    → Speaks
        (send_item_look player)
        ((item_look, ((if player.old_items_look then 1 else 0) % 256) ∷ []) ∷ [])
unfolding send_item_look le_bytes world_code_mapping type_mapping client_size
look-Speaks player = send-Speaks _ 159 k_none refl refl refl

-- The three flags as the digits of a number.
abbrev flags : Bool → Bool → Bool → ℕ
flags shift drag zoom = (if shift then 1 else 0) + (if drag then 2 else 0) + (if zoom then 4 else 0)

custom_flag_lem :
    (player : Player)
    → custom_flag player % 256 ≡ flags player.is_shift_drop player.is_slow_drag player.is_zoom
unfolding custom_flag
custom_flag_lem player = or_of_flags player.is_shift_drop player.is_slow_drag player.is_zoom
  where
    or_of_flags :
        (a b c : Bool)
        → (let shift : ℕ = if a then bit_or 0 1 else 0 in
            let drag : ℕ = if b then bit_or shift 2 else shift in
            (if c then bit_or drag 4 else drag) % 256)
          ≡ flags a b c
    or_of_flags true true true = refl
    or_of_flags true true false = refl
    or_of_flags true false true = refl
    or_of_flags true false false = refl
    or_of_flags false true true = refl
    or_of_flags false true false = refl
    or_of_flags false false true = refl
    or_of_flags false false false = refl

custom-Speaks :
    (player : Player)
    → Speaks (send_custom_161 player) (
        (custom_packet_161, flags player.is_shift_drop player.is_slow_drag player.is_zoom ∷ [])
        ∷ [])
unfolding send_custom_161 le_bytes world_code_mapping type_mapping client_size
custom-Speaks player = rw (← custom_flag_lem player) (send-Speaks _ 161 k_none refl refl refl)

message-Speaks :
    (player : Player) (text : List ℕ)
    → length player.username + length text ≤ 247
    → Speaks (send_message player 0 text) (told (tile_hash (tile player)) player.username text ∷ [])
unfolding send_message put_smart_be be_bytes world_code_mapping type_mapping
message-Speaks player text h =
    let name = player.username in
    let head = 0 ∷ be_bytes 4 (tile_hash (tile player)) ++ 1 ∷ [] in
    rw (put_string-text_bytes name _, put_string-text_bytes text _)
      (send-Speaks _ 136 uint8 refl refl (
        omega (
          arith,
          length-append (text_bytes name) (text_bytes text),
          length-text_bytes name,
          length-text_bytes text,
        )))

combat_area-Speaks :
    (manager : WorldManager) (player : Player) (players : Players Player)
    → find 1 manager.worlds ≡ some players
    → Speaks (send_multi_combat_area manager player) (global_byte 616 0 ∷ [])
unfolding send_multi_combat_area send_global_config config_global_id shift_positive le_bytes
    be_bytes
combat_area-Speaks manager player players e =
    rw (send_multi_combat_area, e) (global_config_1-Speaks ConfigGlobal.combat_mode 0)

-- The packet of a skill with its number.
abbrev pub skill_packet : WorldManager → Player → ℕ → Skill → Said
skill_packet manager player number s =
    skill number (get_skill_experience player.skills s)
      (get_skill_level manager.gain player.skills s)

raised_level : (v : ℕ) → v ≤ 99 → shift_positive 1 v 128 / 256 ^ 0 % 256 ≡ v + 128
unfolding shift_positive
raised_level v h = omega arith

skill-Speaks :
    (manager : WorldManager) (player : Player) (number : ℕ) (s : Skill)
    → shift_negative 1 (skill_id s) 128 / 256 ^ 0 % 256 ≡ 128 - number
    → Speaks (send_player_skill manager player s) (skill_packet manager player number s ∷ [])
unfolding send_player_skill be_bytes world_code_mapping type_mapping client_size
skill-Speaks manager player number s e =
    let level = get_skill_level manager.gain player.skills s in
    let (low, high) = get_skill_level-bounds manager.gain player.skills s in
    rw (← e, ← raised_level level high) (send-Speaks _ 146 k_none refl refl refl)

-- The skills by their numbers.
abbrev pub skill_packets : WorldManager → Player → List Said
skill_packets manager player =
    skill_packet manager player 0 Skill.attack
    ∷ skill_packet manager player 1 Skill.defence
    ∷ skill_packet manager player 2 Skill.strength
    ∷ skill_packet manager player 3 Skill.hit_points
    ∷ skill_packet manager player 4 Skill.range
    ∷ skill_packet manager player 5 Skill.prayer
    ∷ skill_packet manager player 6 Skill.magic
    ∷ skill_packet manager player 7 Skill.cooking
    ∷ skill_packet manager player 8 Skill.wood_cuting
    ∷ skill_packet manager player 9 Skill.fletching
    ∷ skill_packet manager player 10 Skill.fishing
    ∷ skill_packet manager player 11 Skill.fire_making
    ∷ skill_packet manager player 12 Skill.crafting
    ∷ skill_packet manager player 13 Skill.smithing
    ∷ skill_packet manager player 14 Skill.mining
    ∷ skill_packet manager player 15 Skill.herb_lore
    ∷ skill_packet manager player 16 Skill.agility
    ∷ skill_packet manager player 17 Skill.thieving
    ∷ skill_packet manager player 18 Skill.slayer
    ∷ skill_packet manager player 19 Skill.farming
    ∷ skill_packet manager player 20 Skill.rune_crafting
    ∷ skill_packet manager player 21 Skill.hunter
    ∷ skill_packet manager player 22 Skill.construction
    ∷ skill_packet manager player 23 Skill.summoning
    ∷ skill_packet manager player 24 Skill.dungeoneering
    ∷ []

nothing-Speaks : Speaks (λ s. (ok tt, s)) []
unfolding hear
nothing-Speaks = record {
  run = λ s e. record {
    bytes = [];
    sent =
        ap (λ xs. (ok tt, record s { buffer_output = record (s.buffer_output) { bytes = xs } }))
          (sym (append-nil s.buffer_output.bytes));
    heard = λ rest. refl;
  };
}

skills-Speaks :
    (manager : WorldManager) (player : Player)
    → Speaks (send_skills manager player all_skills) (skill_packets manager player)
unfolding send_skills skill_id shift_negative
skills-Speaks manager player =
    skill-Speaks manager player 0 Skill.attack refl
    ▸ skill-Speaks manager player 1 Skill.defence refl
    ▸ skill-Speaks manager player 2 Skill.strength refl
    ▸ skill-Speaks manager player 3 Skill.hit_points refl
    ▸ skill-Speaks manager player 4 Skill.range refl
    ▸ skill-Speaks manager player 5 Skill.prayer refl
    ▸ skill-Speaks manager player 6 Skill.magic refl
    ▸ skill-Speaks manager player 7 Skill.cooking refl
    ▸ skill-Speaks manager player 8 Skill.wood_cuting refl
    ▸ skill-Speaks manager player 9 Skill.fletching refl
    ▸ skill-Speaks manager player 10 Skill.fishing refl
    ▸ skill-Speaks manager player 11 Skill.fire_making refl
    ▸ skill-Speaks manager player 12 Skill.crafting refl
    ▸ skill-Speaks manager player 13 Skill.smithing refl
    ▸ skill-Speaks manager player 14 Skill.mining refl
    ▸ skill-Speaks manager player 15 Skill.herb_lore refl
    ▸ skill-Speaks manager player 16 Skill.agility refl
    ▸ skill-Speaks manager player 17 Skill.thieving refl
    ▸ skill-Speaks manager player 18 Skill.slayer refl
    ▸ skill-Speaks manager player 19 Skill.farming refl
    ▸ skill-Speaks manager player 20 Skill.rune_crafting refl
    ▸ skill-Speaks manager player 21 Skill.hunter refl
    ▸ skill-Speaks manager player 22 Skill.construction refl
    ▸ skill-Speaks manager player 23 Skill.summoning refl
    ▸ skill-Speaks manager player 24 Skill.dungeoneering refl
    ▸ nothing-Speaks

-- What follows the map and the interfaces.
pub closing_packets : WorldManager → Player → List Said
closing_packets manager player =
    (run_energy, (player.run_energy % 256) ∷ [])
      ∷ file_byte 7198 (negated (player.hit_points % 2 ^ 8) % 256)
      ∷ (item_look, ((if player.old_items_look then 1 else 0) % 256) ∷ [])
      ∷ (custom_packet_161, flags player.is_shift_drop player.is_slow_drag player.is_zoom ∷ [])
      ∷ told (tile_hash (tile player)) player.username (welcome_text ++ manager.server_name)
      ∷ told (tile_hash (tile player)) player.username
          (manager.server_name ++ (license_text ++ (manager.source_url ++ source_text)))
      ∷ global_byte 616 0
      ∷ variable_word 281 1000
      ∷ variable_byte 1159 1
      ∷ variable_word 1160 (2 ^ 32 - 1)
      ∷ game_bar
    ++ skill_packets manager player

-- The messages have room in their packets: 11 and 82 bytes are fixed text.
pub record Short (manager : WorldManager) (player : Player) : Type 0 where
  pub welcome : length player.username + length manager.server_name ≤ 236
  pub license :
      length player.username + length manager.server_name + length manager.source_url ≤ 165

license-length :
    (name url : List ℕ)
    → length (name ++ (license_text ++ (url ++ source_text))) ≡ length name + length url + 82
license-length name url = omega (
  arith,
  length-append name (license_text ++ (url ++ source_text)),
  length-append license_text (url ++ source_text),
  length-append url source_text,
)

pub send_start-Speaks :
    (manager : WorldManager) (player : Player) (players : Players Player)
    → find 1 manager.worlds ≡ some players
    → Short manager player
    → Speaks
        (send_start manager player)
        (screen_packets (is_resizable player) ++ closing_packets manager player)
unfolding send_start closing_packets send_player_hit_points send_config config_id shift_positive
    le_bytes be_bytes
send_start-Speaks manager player players e h =
    send_interfaces-Speaks player
    ▸ energy-Speaks player
    ▸ hit_points-Speaks player.hit_points
    ▸ look-Speaks player
    ▸ custom-Speaks player
    ▸ message-Speaks player (welcome_text ++ manager.server_name)
        (omega (arith, h.welcome, length-append welcome_text manager.server_name))
    ▸ message-Speaks player _
        (omega (arith, h.license, license-length manager.server_name manager.source_url))
    ▸ combat_area-Speaks manager player players e
    ▸ config_2-Speaks Config.k281 1000
    ▸ config_1-Speaks Config.k1159 1
    ▸ config_2-Speaks Config.k1160 (2 ^ 32 - 1)
    ▸ send_game_bar_stages-Speaks
    ▸ skills-Speaks manager player
