-- ===== src/Game/Dynamic.antt =====
-- game/src/worldtile.cpp, `GetDynamicMapRegions`: the chunks around a tile, on all four planes, as the
-- client and as the server number them.
use openrs.Base.{
  ℕ, zero, suc, ◌+◌, ◌-◌, ◌*◌, ◌/◌, ◌%◌, ◌^◌, ◌≡◌, ◌∙◌, List, [], ◌∷◌, ◌++◌, ◌==◌, ◌||◌,
  if◌then◌else◌, bit_or, Bool-cases, inl, inr, arith, length, length-append,
}
use native.Mathlib.Nat.{suc-mul}
use openrs.Game.WorldTile.{WorldTile, chunk_x, chunk_y, min_chunk, max_chunk}

-- What the two outputs hold: the list for the client, and the values that were put into the set of
-- the real regions, in the order in which they were.
pub record Regions : Type 0 where
  pub output_client : List ℕ
  pub output_real : List ℕ

unfoldable pub real_region_id : ℕ → ℕ → ℕ
real_region_id x y = (y / 8 + x / 8 * 2 ^ 8) % 2 ^ 32

-- `(kRotation << 1) | (plane << 24) | (x << 14) | (y << 3)`, the rotation being 0.
unfoldable pub client_region_id : ℕ → ℕ → ℕ → ℕ
client_region_id plane x y =
    bit_or (bit_or (bit_or 0 (plane * 2 ^ 24 % 2 ^ 32)) (x * 2 ^ 14 % 2 ^ 32)) (y * 2 ^ 3 % 2 ^ 32)

-- The body of the three loops.
unfoldable pub put_region : ℕ → ℕ → ℕ → Regions → Regions
unfolding client_region_id real_region_id
put_region plane x y r =
    if x == 0 || y == 0 then record r { output_client = r.output_client ++ 0 ∷ [] } else record {
      output_client = r.output_client ++ client_region_id plane x y ∷ [];
      output_real = r.output_real ++ real_region_id x y ∷ [];
    }

-- `for (y = …; n more; ++y)`, and the two loops around it.
unfoldable pub dynamic_column : ℕ → ℕ → ℕ → ℕ → Regions → Regions
unfolding put_region
dynamic_column plane x y zero r = r
dynamic_column plane x y (suc n) r = dynamic_column plane x (y + 1) n (put_region plane x y r)

unfoldable pub dynamic_columns : ℕ → ℕ → ℕ → ℕ → ℕ → Regions → Regions
unfolding dynamic_column
dynamic_columns plane x y zero m r = r
dynamic_columns plane x y (suc n) m r =
    dynamic_columns plane (x + 1) y n m (dynamic_column plane x y m r)

unfoldable pub dynamic_planes : ℕ → ℕ → ℕ → ℕ → ℕ → ℕ → Regions → Regions
unfolding dynamic_columns
dynamic_planes plane zero x y n m r = r
dynamic_planes plane (suc planes) x y n m r =
    dynamic_planes (plane + 1) planes x y n m (dynamic_columns plane x y n m r)

-- `GetDynamicMapRegions`, on outputs that may hold something already. At a last chunk of 2 ^ 32 - 1 the
-- loops would not end.
unfoldable pub get_dynamic_map_regions : ℕ → WorldTile → Regions → Regions
unfolding dynamic_planes
get_dynamic_map_regions map_size t r =
    let min_x = min_chunk (chunk_x t) map_size in
    let min_y = min_chunk (chunk_y t) map_size in
    dynamic_planes 0 4 min_x min_y (max_chunk (chunk_x t) map_size + 1 - min_x)
      (max_chunk (chunk_y t) map_size + 1 - min_y) r

put_region-length :
    (plane x y : ℕ) (r : Regions)
    → length (put_region plane x y r).output_client ≡ length r.output_client + 1
unfolding put_region
put_region-length plane x y r = elim (Bool-cases (x == 0 || y == 0)) [
  | inl e ↦ rw e (length-append r.output_client (0 ∷ []))
  | inr e ↦ rw e (length-append r.output_client (client_region_id plane x y ∷ []))
]

dynamic_column-length :
    (plane x y n : ℕ) (r : Regions)
    → length (dynamic_column plane x y n r).output_client ≡ length r.output_client + n
unfolding dynamic_column
dynamic_column-length plane x y zero r = omega arith
dynamic_column-length plane x y (suc n) r =
    dynamic_column-length plane x (y + 1) n (put_region plane x y r)
    ∙ omega (arith, put_region-length plane x y r)

dynamic_columns-length :
    (plane x y n m : ℕ) (r : Regions)
    → length (dynamic_columns plane x y n m r).output_client ≡ length r.output_client + n * m
unfolding dynamic_columns
dynamic_columns-length plane x y zero m r = omega arith
dynamic_columns-length plane x y (suc n) m r =
    dynamic_columns-length plane (x + 1) y n m (dynamic_column plane x y m r)
    ∙ rw (dynamic_column-length plane x y m r, suc-mul n m) (omega arith)

dynamic_planes-length :
    (plane planes x y n m : ℕ) (r : Regions)
    → length (dynamic_planes plane planes x y n m r).output_client
      ≡ length r.output_client + planes * (n * m)
unfolding dynamic_planes
dynamic_planes-length plane zero x y n m r = omega arith
dynamic_planes-length plane (suc planes) x y n m r =
    dynamic_planes-length (plane + 1) planes x y n m (dynamic_columns plane x y n m r)
    ∙ rw (dynamic_columns-length plane x y n m r, suc-mul planes (n * m)) (omega arith)

-- The chunks on one side of a tile, itself, and those on the other side, as far as there are any.
abbrev pub chunks_around : ℕ → ℕ → ℕ
chunks_around chunk map_size = (chunk + map_size) % 2 ^ 32 + 1 - (chunk - map_size)

-- `GetDynamicMapRegions` adds to the client's list one identifier for each plane and each chunk that
-- is no more than the map size away, whether there is such a region or not.
pub get_dynamic_map_regions-length :
    (map_size : ℕ) (t : WorldTile) (r : Regions)
    → length (get_dynamic_map_regions map_size t r).output_client
      ≡ length r.output_client
        + 4 * (chunks_around (chunk_x t) map_size * chunks_around (chunk_y t) map_size)
unfolding get_dynamic_map_regions
get_dynamic_map_regions-length map_size t r =
    let low : (chunk : ℕ) → min_chunk chunk map_size ≡ chunk - map_size = λ chunk. ground arith in
    rw (low (chunk_x t), low (chunk_y t))
      (dynamic_planes-length 0 4 (chunk_x t - map_size) (chunk_y t - map_size)
        (chunks_around (chunk_x t) map_size) (chunks_around (chunk_y t) map_size) r)
