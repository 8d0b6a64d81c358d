-- ===== src/Manager/World/Regions/Beyond.antt =====
-- `GetLocalPlayerUpdate` where a player has no place in its buffer.
use openrs.Base.{
  ℕ, ◌+◌, ◌*◌, ◌^◌, ◌≤◌, ◌<◌, ◌≡◌, inl, inr, refl, ap, ◌∙◌, [], ◌∷◌, some, false, ◌==◌, Bool-cases,
  ok, throws, undefined, then_do, arith, Outcome, fail, ltb,
}
use openrs.Common.Buffer.{size}
use openrs.Common.BitBuffer.{BitBuffer, new_bit_buffer, put_bits, resize}
use openrs.Common.BitBuffer.Slots.{put_bits-Wrote, put_bits_beyond, length-resize}
use openrs.Game.WorldTile.{tile_hash, region_hash}
use openrs.Game.World.{Players, find}
use openrs.Game.Player.{Player, tile}
use openrs.Manager.World.{WorldManager}
use openrs.Manager.World.Regions.{
  with_bytes, put_regions_own, put_regions_put, find_tail, find_none, get_local_player_update-found,
}
use openrs.Manager.World.Map.{put_regions, get_local_player_update, update_size}

-- The indices of the players are below 2 ^ 27.
abbrev pub Numbered : Players Player → Type 0
Numbered [] = Unit {0}
Numbered ((index, other) ∷ players) = (index < 2 ^ 27) × Numbered players

put_regions_beyond :
    (own j : ℕ) (far : Player) (players : Players Player) (b : BitBuffer)
    → Numbered players
    → find j players ≡ some far
    → (j == own) ≡ false
    → 2046 ≤ j
    → size b.buffer ≡ update_size
    → (put_regions own players b).0 ≡ undefined
put_regions_beyond own j far [] b numbered found other_one over room =
    absurd (find_none j far found)
put_regions_beyond own j far ((index, other) ∷ players) b (small, numbered) found other_one over
      room =
    elim (Bool-cases (index == own)) [
      | inl e ↦
          let differ : (j == index) ≡ false = ground (arith, e, other_one) in
          ap (λ r. r.0) (put_regions_own own index other players b e)
          ∙ put_regions_beyond own j far players b numbered
              (find_tail j index far other players found differ) other_one over room
      | inr e ↦
          let step = ap (λ r. r.0) (put_regions_put own index other players b e small) in
          elim (Bool-cases (ltb index 2046)) [
            | inl f ↦
                let fits : index < 2046 = ground (arith, f) in
                let (mid, h1, w1) =
                  put_bits-Wrote 32 18 (region_hash (tile other))
                    (with_bytes b.buffer.bytes b (30 + 18 * index)) (omega arith) (omega arith)
                    (omega (arith, room)) (omega (arith, room)) in
                step
                ∙ ap (λ r. (then_do (λ _. put_regions own players) r).0) h1
                ∙ put_regions_beyond own j far players (with_bytes mid b (30 + 18 * index + 18))
                    numbered
                    (find_tail j index far other players found (ground (arith, over, fits)))
                    other_one over (omega (arith, w1.same_size, room))
            | inr f ↦
                let high : 2046 ≤ index = ground (arith, f) in
                step
                ∙ undefined_first (λ _. put_regions own players)
                    (put_bits 32 18 (region_hash (tile other))
                      (with_bytes b.buffer.bytes b (30 + 18 * index)))
                    (put_bits_beyond 32 18 (region_hash (tile other))
                      (with_bytes b.buffer.bytes b (30 + 18 * index)) (omega arith)
                      (omega (arith, room)) (omega (arith, room, high)))
          ]
    ]
  where
    undefined_first :
        (f : Unit {0} → BitBuffer → Outcome (Unit {0}) × BitBuffer)
        (r : Outcome (Unit {0}) × BitBuffer)
        → r.0 ≡ undefined
        → (then_do f r).0 ≡ undefined
    undefined_first f (ok u, b) e = absurd cc
    undefined_first f (fail, b) e = absurd cc
    undefined_first f (throws, b) e = absurd cc
    undefined_first f (undefined, b) e = refl

-- With another player at an index of 2046 or more `GetLocalPlayerUpdate` is undefined: the place of that
-- player does not fit the buffer. The indices are below 2 ^ 27.
pub get_local_player_update_beyond :
    (manager : WorldManager) (world own j : ℕ) (player far : Player) (players : Players Player)
    → find world manager.worlds ≡ some players
    → Numbered players
    → find j players ≡ some far
    → (j == own) ≡ false
    → 2046 ≤ j
    → (get_local_player_update manager world own player new_bit_buffer).0 ≡ undefined
get_local_player_update_beyond manager world own j player far players e numbered found other_one
      over =
    let long = length-resize update_size [] (omega arith) in
    let (mid, h1, w1) =
      put_bits-Wrote 32 30 (tile_hash (tile player))
        (with_bytes (resize update_size []) new_bit_buffer 0) (omega arith) (omega arith)
        (omega (arith, long)) (omega (arith, long)) in
    ap (λ r. r.0)
      (get_local_player_update-found manager world own player players e
        ∙ ap (then_do (λ _. put_regions own players)) h1)
    ∙ put_regions_beyond own j far players (with_bytes mid new_bit_buffer 30) numbered found
        other_one over (w1.same_size ∙ long)
