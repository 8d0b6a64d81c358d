-- ===== src/Game/WorldTile.antt =====
-- game/{include/openrs/game/worldtile.h,src/worldtile.cpp}: positions, their hashes, and the map
-- regions around one.
use openrs.Base.{
  ℕ, zero, suc, ◌+◌, ◌-◌, ◌*◌, ◌/◌, ◌%◌, ◌^◌, ◌≤◌, ◌<◌, ◌≡◌, ap, subst, ◌∙◌, List, [], ◌∷◌, ◌++◌,
  Bool, false, not, ◌&&◌, ◌==◌, ltb, leb, if◌then◌else◌, arith,
}
use mathlib.Core.List.{Memᴰ}
use mathlib.Core.List.Memᴰ

-- The positions are `int`, of which the 32 bits are kept; `map_size_` is a `uint8_t`.
pub record WorldTile : Type 0 where
  pub position_x : ℕ
  pub position_y : ℕ
  pub position_z : ℕ
  pub map_size : ℕ

-- `>>` of an `int`, which puts copies of the sign in front, as a `uint32_t`.
abbrev pub shift_right : ℕ → ℕ → ℕ
shift_right k v = if ltb v (2 ^ 31) then v / 2 ^ k else (v + (2 ^ k - 1) * 2 ^ 32) / 2 ^ k

abbrev pub chunk_x : WorldTile → ℕ
chunk_x t = shift_right 3 t.position_x

abbrev pub chunk_y : WorldTile → ℕ
chunk_y t = shift_right 3 t.position_y

abbrev pub region_x : WorldTile → ℕ
region_x t = shift_right 6 t.position_x

abbrev pub region_y : WorldTile → ℕ
region_y t = shift_right 6 t.position_y

unfoldable pub region_id : WorldTile → ℕ
region_id t = (region_x t * 2 ^ 8 + region_y t) % 2 ^ 32

unfoldable pub region_hash : WorldTile → ℕ
region_hash t = (region_y t + region_x t * 2 ^ 8 + t.position_z * 2 ^ 16) % 2 ^ 32

unfoldable pub tile_hash : WorldTile → ℕ
tile_hash t = (t.position_y + t.position_x * 2 ^ 14 + t.position_z * 2 ^ 28) % 2 ^ 32

-- `std::abs(static_cast<int32_t>(a - b))` on `uint32_t`.
unfoldable pub delta : ℕ → ℕ → ℕ
delta a b = let d = (a + 2 ^ 32 - b) % 2 ^ 32 in if ltb d (2 ^ 31) then d else 2 ^ 32 - d

-- `WithinDistance`.
unfoldable pub within_distance : WorldTile → WorldTile → ℕ → Bool
unfolding delta
within_distance t point distance =
    if not (t.position_z == point.position_z)
    then false
    else (leb (delta point.position_x t.position_x) distance
        && leb (delta point.position_y t.position_y) distance)

-- `GetLocalX` and `GetLocalY`: the differences of `uint32_t` wrap.
unfoldable pub get_local : ℕ → ℕ → ℕ → ℕ
get_local own chunk map_size =
    (own + 2 ^ 32 - (8 * ((chunk + 2 ^ 32 - map_size) % 2 ^ 32)) % 2 ^ 32) % 2 ^ 32

abbrev pub get_local_x : WorldTile → WorldTile → ℕ → ℕ
get_local_x t near map_size = get_local t.position_x (chunk_x near) map_size

abbrev pub get_local_y : WorldTile → WorldTile → ℕ → ℕ
get_local_y t near map_size = get_local t.position_y (chunk_y near) map_size

-- The bounds of the loops, in chunks; the sum is a `uint32_t`.
abbrev pub min_chunk : ℕ → ℕ → ℕ
min_chunk chunk map_size = if ltb chunk map_size then 0 else chunk - map_size

abbrev pub max_chunk : ℕ → ℕ → ℕ
max_chunk chunk map_size = (chunk + map_size) % 2 ^ 32

-- `for (y = y₀; n more; ++y)`, with the region of each round put on the output.
unfoldable pub column : ℕ → ℕ → ℕ → List ℕ
column x y zero = []
column x y (suc n) = (y + x * 2 ^ 8) % 2 ^ 32 ∷ column x (y + 1) n

unfoldable pub columns : ℕ → ℕ → ℕ → ℕ → List ℕ
unfolding column
columns x y zero m = []
columns x y (suc n) m = column x y m ++ columns (x + 1) y n m

-- `GetMapRegions`.
unfoldable pub get_map_regions : ℕ → WorldTile → List ℕ
unfolding columns
get_map_regions map_size t =
    let min_x = min_chunk (chunk_x t) map_size / 8 in
    let min_y = min_chunk (chunk_y t) map_size / 8 in
    let max_x = max_chunk (chunk_x t) map_size / 8 in
    let max_y = max_chunk (chunk_y t) map_size / 8 in
    columns min_x min_y (max_x + 1 - min_x) (max_y + 1 - min_y)

-- The coordinates are not negative.
pub record IsTile (t : WorldTile) : Type 0 where
  pub x_fits : t.position_x < 2 ^ 31
  pub y_fits : t.position_y < 2 ^ 31

-- The distance of two coordinates, as numbers.
abbrev pub distance_of : ℕ → ℕ → ℕ
distance_of a b = (a - b) + (b - a)

pub delta_lem : (a b : ℕ) → a < 2 ^ 31 → b < 2 ^ 31 → delta a b ≡ distance_of a b
unfolding delta
delta_lem a b ha hb = ground arith

-- Of tiles with coordinates that are not negative, `WithinDistance` says whether they are on one plane
-- and no coordinate differs by more than the distance.
pub within_distance_lem :
    (t point : WorldTile) (distance : ℕ)
    → IsTile t
    → IsTile point
    → within_distance t point distance ≡ (
        (t.position_z == point.position_z)
        && leb (distance_of t.position_x point.position_x) distance
        && leb (distance_of t.position_y point.position_y) distance)
unfolding within_distance
within_distance_lem t point distance v w =
    let dx : delta point.position_x t.position_x ≡ distance_of t.position_x point.position_x =
      delta_lem point.position_x t.position_x w.x_fits v.x_fits ∙ omega arith in
    let dy : delta point.position_y t.position_y ≡ distance_of t.position_y point.position_y =
      delta_lem point.position_y t.position_y w.y_fits v.y_fits ∙ omega arith in
    rw (dx, dy) (ground arith)

column-Mem : (x y n k : ℕ) → k < n → Memᴰ ((y + k + x * 2 ^ 8) % 2 ^ 32) (column x y n)
unfolding column
column-Mem x y zero k h = absurd (omega arith)
column-Mem x y (suc n) zero h =
    Memᴰ.head (ap (λ i. (i + x * 2 ^ 8) % 2 ^ 32) {x = y + 0} (omega arith))
column-Mem x y (suc n) (suc k) h = Memᴰ.tail (
    subst (λ r. Memᴰ r (column x (y + 1) n))
      (ap (λ i. (i + x * 2 ^ 8) % 2 ^ 32) {x = y + 1 + k} (omega arith))
      (column-Mem x (y + 1) n k (omega arith)))

columns-Mem :
    (x y n m j k : ℕ) → j < n → k < m → Memᴰ ((y + k + (x + j) * 2 ^ 8) % 2 ^ 32) (columns x y n m)
unfolding columns
columns-Mem x y zero m j k h g = absurd (omega arith)
columns-Mem x y (suc n) m zero k h g = Memᴰ.append_left (columns (x + 1) y n m) (
    subst (λ i. Memᴰ ((y + k + i * 2 ^ 8) % 2 ^ 32) (column x y m)) {x = x} (omega arith)
      (column-Mem x y m k g))
columns-Mem x y (suc n) m (suc j) k h g = Memᴰ.append_right (column x y m) (
    subst (λ i. Memᴰ ((y + k + i * 2 ^ 8) % 2 ^ 32) (columns (x + 1) y n m)) {x = x + 1 + j}
      (omega arith) (columns-Mem (x + 1) y n m j k (omega arith) g))

-- The region of a tile is that of its chunk.
region_of_chunk : (v : ℕ) → v < 2 ^ 31 → shift_right 6 v ≡ shift_right 3 v / 8
region_of_chunk v h = ground arith

chunk_lt : (v : ℕ) → v < 2 ^ 31 → shift_right 3 v < 2 ^ 28
chunk_lt v h = ground arith

-- `GetMapRegions` gives the region of every tile that is no more than the map size, in chunks, away,
-- where the coordinates of both are not negative; the map size is a byte.
pub get_map_regions-Mem :
    (map_size : ℕ) (t point : WorldTile)
    → map_size < 256
    → IsTile t
    → IsTile point
    → distance_of (chunk_x t) (chunk_x point) ≤ map_size
    → distance_of (chunk_y t) (chunk_y point) ≤ map_size
    → Memᴰ (region_id point) (get_map_regions map_size t)
unfolding get_map_regions region_id
get_map_regions-Mem map_size t point byte v w hx hy =
    let rx = region_of_chunk point.position_x w.x_fits in
    let ry = region_of_chunk point.position_y w.y_fits in
    let bx = chunk_lt t.position_x v.x_fits in
    let by = chunk_lt t.position_y v.y_fits in
    let min_x = min_chunk (chunk_x t) map_size / 8 in
    let min_y = min_chunk (chunk_y t) map_size / 8 in
    let max_x = max_chunk (chunk_x t) map_size / 8 in
    let max_y = max_chunk (chunk_y t) map_size / 8 in
    let lo_x : min_x ≤ region_x point = ground (arith, rx) in
    let lo_y : min_y ≤ region_y point = ground (arith, ry) in
    let hi_x : region_x point ≤ max_x = omega (arith, rx) in
    let hi_y : region_y point ≤ max_y = omega (arith, ry) in
    subst (λ r. Memᴰ r (columns min_x min_y (max_x + 1 - min_x) (max_y + 1 - min_y)))
      {x = (min_y + (region_y point - min_y) + (min_x + (region_x point - min_x)) * 2 ^ 8) % 2 ^ 32}
      (ap (λ n. n % 2 ^ 32) {y = region_x point * 2 ^ 8 + region_y point} (omega arith))
      (columns-Mem min_x min_y (max_x + 1 - min_x) (max_y + 1 - min_y) (region_x point - min_x)
        (region_y point - min_y) (omega arith) (omega arith))
