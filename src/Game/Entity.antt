-- ===== src/Game/Entity.antt =====
-- game/{include/openrs/game/entity.h,include/openrs/game/graphics.h,src/entity.cpp}: the graphics
-- that an entity shows next.
use openrs.Base.{
  ℕ, ◌-◌, ◌*◌, ◌%◌, ◌^◌, ◌≡◌, Bool, not, ◌&&◌, ◌||◌, ◌==◌, if◌then◌else◌, bit_and, bit_or, arith,
}
use openrs.Game.WorldTile.{WorldTile}

pub record Graphics : Type 0 where
  pub id : ℕ
  pub height : ℕ
  pub speed : ℕ
  pub rotation : ℕ

-- The constructor from an identifier, and the one without an argument.
abbrev pub graphics_of : ℕ → Graphics
graphics_of id = record { id = id; height = 0; speed = 0; rotation = 0 }

-- `operator==` with a number, and with other graphics.
abbrev pub is_id : Graphics → ℕ → Bool
is_id g id = g.id == id

unfoldable pub same : Graphics → Graphics → Bool
same g h = g.id == h.id && g.height == h.height && g.speed == h.speed && g.rotation == h.rotation

unfoldable pub get_settings_hash : Graphics → ℕ
get_settings_hash g = bit_or (bit_and g.speed 0xFFFF) (g.height * 2 ^ 16 % 2 ^ 32)

unfoldable pub get_settings_hash_2 : Graphics → ℕ
get_settings_hash_2 g = bit_and g.rotation 0x7

pub data Direction : Type 0 where
  north east south west : Direction

-- The four slots of `graphics_`.
pub record Slots : Type 0 where
  pub first : Graphics
  pub second : Graphics
  pub third : Graphics
  pub fourth : Graphics

pub record Entity : Type 0 where
  pub tile : WorldTile
  pub direction : Direction
  pub graphics : Slots
  pub face_entity_last : ℕ
  pub face_entity_next : ℕ

-- `Entity::Entity()`; -1 and -2 as `uint32_t`.
unfoldable pub new_entity : Entity
new_entity = record {
  tile = record { position_x = 0; position_y = 0; position_z = 0; map_size = 0 };
  direction = north;
  graphics = record {
    first = graphics_of 0;
    second = graphics_of 0;
    third = graphics_of 0;
    fourth = graphics_of 0;
  };
  face_entity_last = 2 ^ 32 - 1;
  face_entity_next = 2 ^ 32 - 2;
}

-- `std::find` over the slots.
unfoldable pub holds : Graphics → Slots → Bool
unfolding same
holds g s = same s.first g || same s.second g || same s.third g || same s.fourth g

-- The two parts of `SetNextGraphics`: a zero goes into the last slot in use, and anything else into
-- the first free one.
unfoldable pub reset_slot : Graphics → Slots → Slots
reset_slot g s =
    if not (is_id s.fourth 0)
    then record s { fourth = g }
    else (if not (is_id s.third 0)
        then record s { third = g }
        else (if not (is_id s.second 0) then record s { second = g } else record s { first = g }))

unfoldable pub fill_slot : Graphics → Slots → Slots
fill_slot g s =
    if is_id s.first 0
    then record s { first = g }
    else (if is_id s.second 0
        then record s { second = g }
        else (if is_id s.third 0 then record s { third = g } else record s { fourth = g }))

-- `Entity::SetNextGraphics`.
unfoldable pub set_next_graphics : Graphics → Entity → Entity
unfolding reset_slot fill_slot holds
set_next_graphics g e =
    if is_id g 0
    then record e { graphics = reset_slot g e.graphics }
    else (if holds g e.graphics then e else record e { graphics = fill_slot g e.graphics })

-- The slots that show something come first.
abbrev pub IsPacked : Slots → Type 0
IsPacked s =
    ((s.first.id ≡ 0) → s.second.id ≡ 0)
    × ((s.second.id ≡ 0) → s.third.id ≡ 0)
    × ((s.third.id ≡ 0) → s.fourth.id ≡ 0)

-- Setting graphics keeps the slots packed: what shows something stands before what is free.
pub set_next_graphics-IsPacked :
    (g : Graphics) (e : Entity) → IsPacked e.graphics → IsPacked (set_next_graphics g e).graphics
unfolding set_next_graphics reset_slot fill_slot
set_next_graphics-IsPacked g e (p, q, r) = (ground arith, ground arith, ground arith)
