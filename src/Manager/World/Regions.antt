-- ===== src/Manager/World/Regions.antt =====
-- Where `GetLocalPlayerUpdate` puts the regions of the other players.
pub mod Beyond
use openrs.Base.{
  ℕ, ◌+◌, ◌*◌, ◌%◌, ◌^◌, ◌≤◌, ◌<◌, ◌≡◌, inl, inr, refl, ap, ◌∙◌, List, [], ◌∷◌, some, true, false,
  ◌==◌, Bool-cases, length, ok, throws, undefined, then_do, arith, Outcome, fail, ltb,
}
use openrs.Common.Buffer.{size, seek_set}
use openrs.Common.BitBuffer.{BitBuffer, new_bit_buffer, put_bits, seek, resize}
use openrs.Common.BitBuffer.Written.{Wrote}
use openrs.Common.BitBuffer.Slots.{
  read_bits, read_bits-Wrote, read_bits-elsewhere, put_bits-Wrote, put_bits_beyond, length-resize,
}
use openrs.Game.WorldTile.{tile_hash, region_hash}
use openrs.Game.World.{Players, find}
use openrs.Game.World.Slots.{Ascending}
use openrs.Game.Player.{Player, tile}
use openrs.Manager.World.{WorldManager}
use openrs.Manager.World.Map.{
  put_regions, put_players, get_local_player_update, update_size, resized,
}

-- Every player but the own one has one of the 2046 places.
abbrev pub Placed : ℕ → Players Player → Type 0
Placed own [] = Unit {0}
Placed own ((index, other) ∷ players) = ((index == own) ≡ false → index < 2046) × Placed own players

-- The regions of the players stand in their places, and what is below those is as before.
record RegionsWritten (own lower : ℕ) (players : Players Player) (before after : List ℕ)
    : Type 0 where
  same_size : length after ≡ length before
  below : (m q : ℕ) → q + m ≤ 30 + 18 * lower → read_bits m q after ≡ read_bits m q before
  places :
      (j : ℕ)
      → (other : Player) → find j players ≡ some other
      → (j == own) ≡ false
      → read_bits 18 (30 + 18 * j) after ≡ region_hash (tile other) % 2 ^ 18

abbrev with_bytes : List ℕ → BitBuffer → ℕ → BitBuffer
with_bytes bytes b p = record { buffer = record (b.buffer) { bytes = bytes }; bit_position = p }

put_regions_own :
    (own index : ℕ) (other : Player) (players : Players Player) (b : BitBuffer)
    → (index == own) ≡ true
    → put_regions own ((index, other) ∷ players) b ≡ put_regions own players b
unfolding put_regions
put_regions_own own index other players b e = rw e refl

put_regions_other :
    (own index : ℕ) (other : Player) (players : Players Player) (b : BitBuffer)
    → (index == own) ≡ false
    → put_regions own ((index, other) ∷ players) b
      ≡ then_do
          (λ _. put_regions own players)
          (put_bits 32 18 (region_hash (tile other)) (seek seek_set ((30 + 18 * index) % 2 ^ 32) b))
unfolding put_regions
put_regions_other own index other players b e = rw e refl

put_regions_nil : (own : ℕ) (b : BitBuffer) → put_regions own [] b ≡ (ok tt, b)
unfolding put_regions
put_regions_nil own b = refl

seek_place :
    (index : ℕ) (b : BitBuffer)
    → index < 2 ^ 27
    → seek seek_set ((30 + 18 * index) % 2 ^ 32) b ≡ with_bytes b.buffer.bytes b (30 + 18 * index)
unfolding seek
seek_place index b h =
    ap (λ p. with_bytes b.buffer.bytes b p) {x = (30 + 18 * index) % 2 ^ 32} {y = 30 + 18 * index}
      (omega arith)

-- One round for a player at an index other than the own one.
put_regions_put :
    (own index : ℕ) (other : Player) (players : Players Player) (b : BitBuffer)
    → (index == own) ≡ false
    → index < 2 ^ 27
    → put_regions own ((index, other) ∷ players) b
      ≡ then_do
          (λ _. put_regions own players)
          (put_bits 32 18
            (region_hash (tile other))
            (with_bytes b.buffer.bytes b (30 + 18 * index)))
put_regions_put own index other players b e small =
    put_regions_other own index other players b e
    ∙ ap (λ c. then_do (λ _. put_regions own players) (put_bits 32 18 (region_hash (tile other)) c))
        (seek_place index b small)

find_head :
    (j index : ℕ) (o other : Player) (players : Players Player)
    → find j ((index, other) ∷ players) ≡ some o
    → (j == index) ≡ true
    → other ≡ o
unfolding find
find_head j index o other players found e = ground (arith, found, e)

find_tail :
    (j index : ℕ) (o other : Player) (players : Players Player)
    → find j ((index, other) ∷ players) ≡ some o
    → (j == index) ≡ false
    → find j players ≡ some o
unfolding find
find_tail j index o other players found e = ground (arith, found, e)

find_none : (j : ℕ) (o : Player) → find j [] ≡ some o → ⊥
unfolding find
find_none j o e = cc

written_own :
    (own lower index : ℕ) (other : Player) (players : Players Player) (before after : List ℕ)
    → (index == own) ≡ true
    → lower ≤ index
    → RegionsWritten own (index + 1) players before after
    → RegionsWritten own lower ((index, other) ∷ players) before after
written_own own lower index other players before after e low w = record {
  same_size = w.same_size;
  below = λ m q le. w.below m q (omega (arith, low));
  places = λ j o found other_one. elim (Bool-cases (j == index)) [
    | inl same ↦ absurd (ground (arith, e, same, other_one))
    | inr differ ↦ w.places j o (find_tail j index o other players found differ) other_one
  ];
}

written_put :
    (own lower index : ℕ) (other : Player) (players : Players Player) (before mid after : List ℕ)
    → lower ≤ index
    → Wrote (30 + 18 * index) 18 (region_hash (tile other)) before mid
    → RegionsWritten own (index + 1) players mid after
    → RegionsWritten own lower ((index, other) ∷ players) before after
written_put own lower index other players before mid after low w1 w2 = record {
  same_size = w2.same_size ∙ w1.same_size;
  below = λ m q le.
      w2.below m q (omega (arith, low)) ∙ read_bits-elsewhere w1 m q (inl (omega (arith, low)));
  places = λ j o found other_one. elim (Bool-cases (j == index)) [
    | inl same ↦
        let eq : j ≡ index = ground (arith, same) in
        let who : other ≡ o = find_head j index o other players found same in
        ap (λ i. read_bits 18 (30 + 18 * i) after) eq
        ∙ w2.below 18 (30 + 18 * index) (omega arith)
        ∙ read_bits-Wrote w1
        ∙ ap (λ (t : Player). region_hash (tile t) % 2 ^ 18) who
    | inr differ ↦ w2.places j o (find_tail j index o other players found differ) other_one
  ];
}

put_regions-Written :
    (own lower : ℕ) (players : Players Player) (b : BitBuffer)
    → Ascending lower players
    → Placed own players
    → size b.buffer ≡ update_size
    → (after : List ℕ) × (p : ℕ) × (put_regions own players b ≡ (ok tt, with_bytes after b p))
      × RegionsWritten own lower players b.buffer.bytes after
put_regions-Written own lower [] b asc placed room = (
  b.buffer.bytes,
  b.bit_position,
  put_regions_nil own b,
  record {
    same_size = refl;
    below = λ m q h. refl;
    places = λ j other e h. absurd (find_none j other e);
  },
)
put_regions-Written own lower ((index, other) ∷ players) b (low, asc) (fits, placed) room =
    elim (Bool-cases (index == own)) [
      | inl e ↦
          let (after, p, h, w) = put_regions-Written own (index + 1) players b asc placed room in
          (
            after,
            p,
            put_regions_own own index other players b e ∙ h,
            written_own own lower index other players b.buffer.bytes after e low w,
          )
      | inr e ↦
          let small : index < 2046 = fits e in
          let (mid, h1, w1) =
            put_bits-Wrote 32 18 (region_hash (tile other))
              (with_bytes b.buffer.bytes b (30 + 18 * index)) (omega arith) (omega arith)
              (omega (arith, room)) (omega (arith, room)) in
          let (after, p, h2, w2) =
            put_regions-Written own (index + 1) players (with_bytes mid b (30 + 18 * index + 18))
              asc placed (omega (arith, w1.same_size, room)) in
          (
            after,
            p,
            put_regions_put own index other players b e (omega arith)
                ∙ ap (then_do (λ _. put_regions own players)) h1
                ∙ h2,
            written_put own lower index other players b.buffer.bytes mid after low w1 w2,
          )
    ]

-- The buffer behind the first call of `PutData`.
abbrev drawn : ℕ → Player → Outcome (Unit {0}) × BitBuffer
drawn own player =
    put_bits 32 30 (tile_hash (tile player)) (with_bytes (resize update_size []) new_bit_buffer 0)

get_local_player_update-found :
    (manager : WorldManager) (world own : ℕ) (player : Player) (players : Players Player)
    → find world manager.worlds ≡ some players
    → get_local_player_update manager world own player new_bit_buffer
      ≡ then_do (λ _. put_regions own players) (drawn own player)
unfolding get_local_player_update put_players resized
get_local_player_update-found manager world own player players e =
    rw (get_local_player_update, e) refl

-- `GetLocalPlayerUpdate` makes a buffer of 4608 bytes. The client reads from its first 30 bits the hash of
-- the player's tile, and from the 18 bits at 30 + 18 * j the region of the player j, for every
-- other player j of the world. The players ascend by their indices, and but for the own one the
-- indices are below 2046.
pub get_local_player_update_lem :
    (manager : WorldManager) (world own : ℕ) (player : Player) (players : Players Player)
    → find world manager.worlds ≡ some players
    → Ascending 0 players
    → Placed own players
    → let (r, c) = get_local_player_update manager world own player new_bit_buffer in
      (r ≡ ok tt)
      × (size c.buffer ≡ 4608)
      × (read_bits 30 0 c.buffer.bytes ≡ tile_hash (tile player) % 2 ^ 30)
      × ((j : ℕ)
          → (other : Player) → find j players ≡ some other
          → (j == own) ≡ false
          → read_bits 18 (30 + 18 * j) c.buffer.bytes ≡ region_hash (tile other) % 2 ^ 18)
get_local_player_update_lem manager world own player players e asc placed =
    let long = length-resize update_size [] (omega arith) in
    let (mid, h1, w1) =
      put_bits-Wrote 32 30 (tile_hash (tile player))
        (with_bytes (resize update_size []) new_bit_buffer 0) (omega arith) (omega arith)
        (omega (arith, long)) (omega (arith, long)) in
    let (after, p, h2, w2) =
      put_regions-Written own 0 players (with_bytes mid new_bit_buffer 30) asc placed
        (w1.same_size ∙ long) in
    rw
      (get_local_player_update-found manager world own player players e
        ∙ ap (then_do (λ _. put_regions own players)) h1
        ∙ h2)
      (
        refl,
        w2.same_size ∙ w1.same_size ∙ long,
        w2.below 30 0 (omega arith) ∙ read_bits-Wrote w1,
        w2.places,
      )
