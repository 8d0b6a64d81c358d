-- ===== src/Manager/World/Start.antt =====
-- openrs/src/manager/worldmanager.cpp, `StartPlayer`: all that a player is sent on entering the world.
use openrs.Base.{ℕ, ◌-◌, ◌^◌, List, [], ◌∷◌, ◌++◌, true, M, ok, ◌>>=◌, ◌>>◌, return}
use openrs.Game.Player.{Player}
use openrs.Game.Skills.{Skill}
use openrs.Net.Session.{Session}
use openrs.Manager.Config.{send_config, k281, k1159, k1160, send_game_bar_stages}
use openrs.Manager.Interface.Book.{send_interfaces}
use openrs.Manager.World.{
  WorldManager, send_run_energy, send_player_hit_points, send_item_look, send_custom_161,
  send_message, default_message, send_multi_combat_area, send_player_skill,
}
use openrs.Manager.World.Map.{send_map}

-- "Welcome to ".
abbrev pub welcome_text : List ℕ
welcome_text = 87 ∷ 101 ∷ 108 ∷ 99 ∷ 111 ∷ 109 ∷ 101 ∷ 32 ∷ 116 ∷ 111 ∷ 32 ∷ []

-- " is distributed under the GNU AGPL license. Please visit " and " to view the source code."
abbrev pub license_text : List ℕ
license_text =
    32 ∷ 105 ∷ 115 ∷ 32 ∷ 100 ∷ 105 ∷ 115 ∷ 116 ∷ 114 ∷ 105 ∷ 98 ∷ 117 ∷ 116 ∷ 101 ∷ 100 ∷ 32 ∷ 117
    ∷ 110 ∷ 100 ∷ 101 ∷ 114 ∷ 32 ∷ 116 ∷ 104 ∷ 101 ∷ 32 ∷ 71 ∷ 78 ∷ 85 ∷ 32 ∷ 65 ∷ 71 ∷ 80 ∷ 76 ∷ 32
    ∷ 108 ∷ 105 ∷ 99 ∷ 101 ∷ 110 ∷ 115 ∷ 101 ∷ 46 ∷ 32 ∷ 80 ∷ 108 ∷ 101 ∷ 97 ∷ 115 ∷ 101 ∷ 32 ∷ 118
    ∷ 105 ∷ 115 ∷ 105 ∷ 116 ∷ 32 ∷ []

abbrev pub source_text : List ℕ
source_text =
    32 ∷ 116 ∷ 111 ∷ 32 ∷ 118 ∷ 105 ∷ 101 ∷ 119 ∷ 32 ∷ 116 ∷ 104 ∷ 101 ∷ 32 ∷ 115 ∷ 111 ∷ 117 ∷ 114
    ∷ 99 ∷ 101 ∷ 32 ∷ 99 ∷ 111 ∷ 100 ∷ 101 ∷ 46 ∷ []

-- The skills by their values, from 0 up to `kLast`.
abbrev pub all_skills : List Skill
all_skills =
    Skill.attack ∷ Skill.defence ∷ Skill.strength ∷ Skill.hit_points ∷ Skill.range ∷ Skill.prayer
    ∷ Skill.magic ∷ Skill.cooking ∷ Skill.wood_cuting ∷ Skill.fletching ∷ Skill.fishing
    ∷ Skill.fire_making ∷ Skill.crafting ∷ Skill.smithing ∷ Skill.mining ∷ Skill.herb_lore
    ∷ Skill.agility ∷ Skill.thieving ∷ Skill.slayer ∷ Skill.farming ∷ Skill.rune_crafting
    ∷ Skill.hunter ∷ Skill.construction ∷ Skill.summoning ∷ Skill.dungeoneering ∷ []

unfoldable pub send_skills : WorldManager → Player → List Skill → M Session (Unit {0})
send_skills manager player [] s = (ok tt, s)
send_skills manager player (skill ∷ skills) s =
    (do send_player_skill manager player skill; send_skills manager player skills) s

-- What `StartPlayer` sends behind the map; -1 is a `uint32_t`.
unfoldable pub send_start : WorldManager → Player → M Session (Unit {0})
send_start manager player = do
  send_interfaces player
  send_run_energy player
  send_player_hit_points player
  send_item_look player
  send_custom_161 player
  send_message player default_message (welcome_text ++ manager.server_name)
  send_message player default_message
      (manager.server_name ++ (license_text ++ (manager.source_url ++ source_text)))
  send_multi_combat_area manager player
  send_config k281 1000
  send_config k1159 1
  send_config k1160 (2 ^ 32 - 1)
  send_game_bar_stages
  send_skills manager player all_skills

-- `StartPlayer`: the player that it leaves.
unfoldable pub start_player : WorldManager → Player → M Session Player
start_player manager player = do
  drawn ← send_map manager player true
  send_start manager drawn
  return drawn
