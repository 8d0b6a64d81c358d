-- ===== src/Tests/Games.antt =====
-- The theorems on the world, its tiles and its entities, at small inputs.
use openrs.Base.{◌+◌, ◌≡◌, ◌&&◌, ◌==◌, leb, refl, [], ◌∷◌, some, arith}
use openrs.Game.WorldTile.{
  WorldTile, IsTile, within_distance, within_distance_lem, distance_of, region_id, get_map_regions,
  get_map_regions-Mem,
}
use openrs.Game.Entity.{
  graphics_of, new_entity, set_next_graphics, IsPacked, set_next_graphics-IsPacked,
}
use openrs.Game.World.{find, add_player, remove_player}
use openrs.Game.World.Slots.{numbered, add_player-behind_removed}
use openrs.Game.Appearance.{Appearance}
use mathlib.Core.List.{Memᴰ}

abbrev lumbridge : WorldTile
lumbridge = record { position_x = 3222; position_y = 3218; position_z = 0; map_size = 0 }

abbrev castle : WorldTile
castle = record { position_x = 3208; position_y = 3213; position_z = 0; map_size = 0 }

lumbridge-IsTile : IsTile lumbridge
lumbridge-IsTile = record { x_fits = omega arith; y_fits = omega arith }

castle-IsTile : IsTile castle
castle-IsTile = record { x_fits = omega arith; y_fits = omega arith }

within_distance_lem_example :
    within_distance lumbridge castle 14
    ≡ ((0 == 0) && leb (distance_of 3222 3208) 14 && leb (distance_of 3218 3213) 14)
within_distance_lem_example = within_distance_lem lumbridge castle 14 lumbridge-IsTile castle-IsTile

get_map_regions-Mem_example : Memᴰ (region_id castle) (get_map_regions 6 lumbridge)
get_map_regions-Mem_example =
    get_map_regions-Mem 6 lumbridge castle (omega arith) lumbridge-IsTile castle-IsTile
      (omega arith) (omega arith)

new_entity-IsPacked : IsPacked new_entity.graphics
unfolding new_entity
new_entity-IsPacked = (λ _. refl, λ _. refl, λ _. refl)

set_next_graphics-IsPacked_example :
    IsPacked (set_next_graphics (graphics_of 86) new_entity).graphics
set_next_graphics-IsPacked_example =
    set_next_graphics-IsPacked (graphics_of 86) new_entity new_entity-IsPacked

data Name : Type 0 where
  ann bob cid dan : Name

add_player-behind_removed_example :
    (add_player dan (remove_player 1 (numbered 0 (ann ∷ bob ∷ cid ∷ [])))
      ≡ (1 + 1, remove_player 1 (numbered 0 (ann ∷ bob ∷ cid ∷ []))))
    × (find (1 + 1) (remove_player 1 (numbered 0 (ann ∷ bob ∷ cid ∷ []))) ≡ some cid)
add_player-behind_removed_example =
    add_player-behind_removed dan bob cid (ann ∷ []) [] (omega arith)

abbrev plain : Appearance
plain = record {
  look_hair = 0;
  look_beard = 0;
  look_torso = 0;
  look_legs = 0;
  look_shoes = 0;
  look_arms = 0;
  look_forearms = 0;
  colour_hair = 0;
  colour_torso = 0;
  colour_legs = 0;
  colour_shoes = 0;
  colour_skin = 0;
}
