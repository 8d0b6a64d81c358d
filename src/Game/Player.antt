-- ===== src/Game/Player.antt =====
-- game/include/openrs/game/player.h: a player, without what a password is made of.
use openrs.Base.{ℕ, ◌^◌, List, [], Bool, true, false, not, ◌&&◌, ◌==◌, ltb}
use openrs.Game.WorldTile.{WorldTile}
use openrs.Game.Entity.{Entity, new_entity, graphics_of, set_next_graphics}
use openrs.Game.Appearance.{Appearance}
use openrs.Game.Skills.{Skills}

-- The columns of the model (an `int` is kept as its 32 bits), the parts of the bases, and the members.
pub record Player : Type 0 where
  pub id : ℕ
  pub username : List ℕ
  pub skull_time_left : ℕ
  pub entity : Entity
  pub appearance : Appearance
  pub skills : Skills
  pub display_mode : ℕ
  pub screen_width : ℕ
  pub screen_height : ℕ
  pub force_next_map_load_refresh : Bool
  pub run_energy : ℕ
  pub hit_points : ℕ
  pub old_items_look : Bool
  pub is_shift_drop : Bool
  pub is_slow_drag : Bool
  pub is_zoom : Bool
  pub update_movement_type : Bool
  pub is_running : Bool

abbrev pub tile : Player → WorldTile
tile p = p.entity.tile

-- `Player::Player()`.
unfoldable pub new_player : Player
unfolding new_entity set_next_graphics
new_player = record {
  id = 0;
  username = [];
  skull_time_left = 0;
  entity = set_next_graphics (graphics_of 188) new_entity;
  appearance = record {
    look_hair = 0;
    look_beard = 0;
    look_torso = 0;
    look_legs = 0;
    look_shoes = 0;
    look_arms = 0;
    look_forearms = 0;
    colour_hair = 0;
    colour_torso = 0;
    colour_legs = 0;
    colour_shoes = 0;
    colour_skin = 0;
  };
  skills = record { skill_attack = 0 };
  display_mode = 0;
  screen_width = 0;
  screen_height = 0;
  force_next_map_load_refresh = false;
  run_energy = 0;
  hit_points = 100;
  old_items_look = false;
  is_shift_drop = false;
  is_slow_drag = false;
  is_zoom = false;
  update_movement_type = true;
  is_running = true;
}

-- `HasSkull`: the time left is a signed number.
unfoldable pub has_skull : Player → Bool
has_skull p = not (p.skull_time_left == 0) && ltb p.skull_time_left (2 ^ 31)

-- `set_display_mode`, `set_screen_width` and `set_screen_height`.
abbrev pub set_screen : ℕ → ℕ → ℕ → Player → Player
set_screen mode width height p = record p {
  display_mode = mode;
  screen_width = width;
  screen_height = height;
}

abbrev pub set_force_next_map_load_refresh : Bool → Player → Player
set_force_next_map_load_refresh refresh p = record p { force_next_map_load_refresh = refresh }
