-- ===== src/Manager/Appearance.antt =====
-- openrs/src/manager/appearancemanager.cpp: the block that shows a player to a client.
pub mod Block
use openrs.Base.{ℕ, ◌+◌, ◌-◌, ◌%◌, ◌^◌, Bool, if◌then◌else◌, set, ◌▷◌}
use openrs.Common.Buffer.{Buffer, size, put_data, put_data_be, put_string}
use openrs.Game.Player.{Player, has_skull}
use openrs.Game.Skills.{get_combat_level}
use openrs.Game.Appearance.{
  get_appearance_look, get_appearance_colour, hair, beard, torso, legs, boots, skin, arms, forearms,
}

-- What follows the length, up to the name.
unfoldable pub put_looks : Player → Buffer → Buffer
unfolding put_data put_data_be has_skull get_appearance_look get_appearance_colour
put_looks player b =
    b
    ▷ put_data 1 0
    ▷ put_data 1 (if has_skull player then 0 else 255)
    ▷ put_data 1 255
    ▷ put_data 1 0
    ▷ put_data 1 0
    ▷ put_data 1 0
    ▷ put_data 1 0
    ▷ put_data 1 0
    ▷ put_data_be 2 (256 + get_appearance_look torso player.appearance)
    ▷ put_data 1 0
    ▷ put_data_be 2 (256 + get_appearance_look arms player.appearance)
    ▷ put_data_be 2 (256 + get_appearance_look legs player.appearance)
    ▷ put_data_be 2 (256 + get_appearance_look forearms player.appearance)
    ▷ put_data_be 2 (256 + get_appearance_look boots player.appearance)
    ▷ put_data_be 2 (256 + get_appearance_look beard player.appearance)
    ▷ put_data 1 0
    ▷ put_data_be 2 0
    ▷ put_data 1 (get_appearance_colour hair player.appearance)
    ▷ put_data 1 (get_appearance_colour torso player.appearance)
    ▷ put_data 1 (get_appearance_colour legs player.appearance)
    ▷ put_data 1 (get_appearance_colour boots player.appearance)
    ▷ put_data 1 (get_appearance_colour skin player.appearance)
    ▷ put_data 1 0
    ▷ put_data 1 0
    ▷ put_data 1 0
    ▷ put_data 1 0
    ▷ put_data 1 0
    ▷ put_data_be 2 0

-- The length is 0 at first, and written when the block is complete.
unfoldable pub get_player_appearance : Player → Buffer → Buffer
unfolding put_looks put_string put_data
get_player_appearance player b =
    let begun = put_data 1 0 b in
    let starting_offset = size begun in
    let filled =
      begun
      ▷ put_looks player
      ▷ put_string player.username
      ▷ put_data 1 (get_combat_level player.skills)
      ▷ put_data 1 (get_combat_level player.skills)
      ▷ put_data 1 255
      ▷ put_data 1 0 in
    record filled {
      bytes = set filled.bytes (starting_offset - 1) ((size filled - starting_offset) % 2 ^ 8);
    }
