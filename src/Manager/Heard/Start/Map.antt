-- ===== src/Manager/Heard/Start/Map.antt =====
-- The packet with the map, and all that the client hears of `StartPlayer`.
use openrs.Base.{
  ℕ, ◌+◌, ◌*◌, ◌≡◌, ◌≤◌, refl, ap, ◌∙◌, List, [], ◌∷◌, ◌++◌, Option, none, some, false, true,
  Option-cases, inl, inr, length, length-append, arith, M, Outcome, ok, then_do, ◌>>◌,
}
use openrs.Base.Bytes.{be_bytes, le_bytes, length-be_bytes}
use openrs.Common.Buffer.{Buffer, size, put_data_be, put_shifted_neg_data_be}
use openrs.Common.Buffer
use openrs.Manager.Config.{negated}
use openrs.Game.WorldTile.{tile_hash, chunk_x, chunk_y}
use openrs.Common.BitBuffer.{BitBuffer, new_bit_buffer, put_data}
use openrs.Game.World.{Players, find}
use openrs.Game.World.Slots.{Ascending}
use openrs.Game.Player.{Player, tile, set_force_next_map_load_refresh}
use openrs.Net.Packet.{Packet, map_region}
use openrs.Net.Encoder.{uint16, world_code_mapping, type_mapping}
use openrs.Net.Encoder.RoundTrip.Stream.{hear}
use openrs.Net.Session.{Session, world, send_bytes}
use openrs.Manager.World.{WorldManager, custom_flag}
use openrs.Manager.World.Map.{
  put_words, put_keys, put_all_keys, map_regions, put_map_region, send_map_region, send_map,
  get_local_player_update, send_built, put_regions_around, on_bits, on_buffer, of_flag,
  with_regions,
}
use openrs.Manager.World.Regions.{Placed, get_local_player_update_lem}
use openrs.Manager.World.Start.{start_player, send_start}
use openrs.Manager.Heard.{Says, send-Speaks, Says-append}
use openrs.Manager.Heard.Interfaces.Screens.{screen_packets}
use openrs.Manager.Interface.{is_resizable}
use openrs.Manager.Heard.Start.{Short, closing_packets, send_start-Speaks}

size-put_words : (ks : List ℕ) (b : Buffer) → size (put_words ks b) ≡ size b + 4 * length ks
unfolding put_words put_data_be
size-put_words [] b = omega arith
size-put_words (k ∷ ks) b =
    size-put_words ks (put_data_be 4 k b)
    ∙ omega (arith, length-append b.bytes (be_bytes 4 k), length-be_bytes 4 k)

-- The keys of a region are four words.
abbrev pub FourWords : (ℕ → Option (List ℕ)) → Type 0
FourWords keys = (region : ℕ) (ks : List ℕ) → keys region ≡ some ks → length ks ≡ 4

put_keys-none :
    (keys : ℕ → Option (List ℕ)) (region : ℕ) (regions : List ℕ) (b : Buffer)
    → keys region ≡ none
    → put_keys keys (region ∷ regions) b ≡ put_keys keys regions (put_words (0 ∷ 0 ∷ 0 ∷ 0 ∷ []) b)
unfolding put_keys
put_keys-none keys region regions b e = rw (put_keys, e) refl

put_keys-some :
    (keys : ℕ → Option (List ℕ)) (region : ℕ) (regions ks : List ℕ) (b : Buffer)
    → keys region ≡ some ks
    → put_keys keys (region ∷ regions) b ≡ put_keys keys regions (put_words ks b)
unfolding put_keys
put_keys-some keys region regions ks b e = rw (put_keys, e) refl

put_keys-nil : (keys : ℕ → Option (List ℕ)) (b : Buffer) → put_keys keys [] b ≡ b
unfolding put_keys
put_keys-nil keys b = refl

size-put_keys :
    (keys : ℕ → Option (List ℕ)) (regions : List ℕ) (b : Buffer)
    → FourWords keys
    → size (put_keys keys regions b) ≡ size b + 16 * length regions
size-put_keys keys [] b four = omega (arith, ap size (put_keys-nil keys b))
size-put_keys keys (region ∷ regions) b four = elim (Option-cases (keys region)) [
  | inl e ↦
      ap size (put_keys-none keys region regions b e)
      ∙ size-put_keys keys regions (put_words (0 ∷ 0 ∷ 0 ∷ 0 ∷ []) b) four
      ∙ omega (arith, size-put_words (0 ∷ 0 ∷ 0 ∷ 0 ∷ []) b)
  | inr (ks, e) ↦
      ap size (put_keys-some keys region regions ks b e)
      ∙ size-put_keys keys regions (put_words ks b) four
      ∙ omega (arith, size-put_words ks b, four region ks e)
]

-- What the server knows of the world and of the regions around the player.
pub record Ready (manager : WorldManager) (own : ℕ) (player : Player) : Type 0 where
  pub players : Players Player
  pub keys : ℕ → Option (List ℕ)
  pub regions : List ℕ
  pub in_world : find 1 manager.worlds ≡ some players
  pub ascending : Ascending 0 players
  pub placed : Placed own players
  pub configured : manager.map_archive_keys ≡ some keys
  pub four_words : FourWords keys
  pub around : map_regions player ≡ some regions
  pub not_many : length regions ≤ 3800

put_all_keys-some :
    (manager : WorldManager) (keys : ℕ → Option (List ℕ)) (regions : List ℕ) (b : BitBuffer)
    → manager.map_archive_keys ≡ some keys
    → put_all_keys manager regions b ≡ (ok tt, record b { buffer = put_keys keys regions b.buffer })
unfolding put_all_keys
put_all_keys-some manager keys regions b e = rw (put_all_keys, e) refl

abbrev with_six : WorldManager → Player → BitBuffer → Outcome (Unit {0}) × BitBuffer
with_six manager player b =
    (do
      on_bits (put_data 1 (negated (tile player).map_size))
      on_buffer (put_shifted_neg_data_be 1 (of_flag player.force_next_map_load_refresh))
      on_buffer (put_data_be 2 (chunk_x (tile player)))
      on_buffer (put_data_be 2 (chunk_y (tile player))))
      b

with_six-size :
    (manager : WorldManager) (player : Player) (b : BitBuffer)
    → size (with_six manager player b).1.buffer ≡ size b.buffer + 6
unfolding put_shifted_neg_data_be put_data_be Buffer.put_data be_bytes le_bytes
with_six-size manager player b = simp length-append (omega arith)

put_regions_around-size :
    (manager : WorldManager) (own : ℕ) (player : Player) (h : Ready manager own player)
    (b : BitBuffer)
    → (c : BitBuffer) × (put_regions_around manager player b ≡ (ok tt, c))
      × (size c.buffer ≡ size b.buffer + 6 + 16 * length h.regions)
unfolding put_regions_around
put_regions_around-size manager own player h b =
    let six = (with_six manager player b).1 in
    let none_yet = record six { buffer = put_keys h.keys [] six.buffer } in
    let c = record none_yet { buffer = put_keys h.keys h.regions none_yet.buffer } in
    (
      c,
      ap (then_do (λ _. with_regions (map_regions player) (put_all_keys manager)))
            (put_all_keys-some manager h.keys [] six h.configured)
          ∙ ap (λ o. with_regions o (put_all_keys manager) none_yet) h.around
          ∙ put_all_keys-some manager h.keys h.regions none_yet h.configured,
      size-put_keys h.keys h.regions none_yet.buffer h.four_words
          ∙ omega (arith, ap size (put_keys-nil h.keys six.buffer), with_six-size manager player b),
    )

put_map_region-size :
    (manager : WorldManager) (own : ℕ) (player : Player) (h : Ready manager own player)
    → (b : BitBuffer) × (put_map_region manager own player true new_bit_buffer ≡ (ok tt, b))
      × (size b.buffer ≡ 4614 + 16 * length h.regions)
unfolding put_map_region
put_map_region-size manager own player h =
    let q = get_local_player_update manager 1 own player new_bit_buffer in
    let (done, long, _, _) =
      get_local_player_update_lem manager 1 own player h.players h.in_world h.ascending h.placed in
    let (c, e, large) = put_regions_around-size manager own player h q.1 in
    (
      c,
      ap (λ o. then_do (λ _. put_regions_around manager player) (o, q.1)) done ∙ e,
      omega (arith, large, long),
    )

map_region-Says :
    (manager : WorldManager) (player : Player) (s : Session) (b : BitBuffer) (n : ℕ)
    → s.encoder ≡ world
    → put_map_region manager s.player_index player true new_bit_buffer ≡ (ok tt, b)
    → size b.buffer ≡ 4614 + 16 * n
    → n ≤ 3800
    → Says s (send_map_region manager player true s) ((map_region, b.buffer.bytes) ∷ [])
unfolding send_map_region world_code_mapping type_mapping
map_region-Says manager player s b n e built large h =
    let p : Packet = record { type = map_region; payload = b.buffer } in
    let said = (send-Speaks p 42 uint16 refl refl (omega (arith, large, h))).run s e in
    record {
      bytes = said.bytes;
      sent = ap (λ r. send_built map_region r s) built ∙ said.sent;
      heard = said.heard;
    }

-- On entering the world, the client of a session of the world is sent packets that it takes apart, one
-- after another, as these, whatever follows them: the map, with what `SendMapRegion` puts into its
-- payload; the window and the tabs of the mode of the player's screen, each with its interface, the
-- unlocked slots, the timer and the options; the run energy, the hit points, the looks of the items
-- and the flags of the player; the welcome and the license as messages of the player; the variables;
-- and the 25 skills, each with its number, experience and level. `StartPlayer` succeeds, and the
-- player that it leaves asks for no other map. The world 1 and the configuration of the cache are
-- there, with four words for each key, the players of the world ascend by their indices, and the
-- others have indices below 2046, the map size is one of the five and gives no more than 3800
-- regions, and the texts have room in their packets.
pub start_player-hear :
    (manager : WorldManager) (player : Player) (s : Session)
    → s.encoder ≡ world
    → (h : Ready manager s.player_index player) → Short manager player
    → (area : BitBuffer) × (put_map_region manager s.player_index player true new_bit_buffer
        ≡ (ok tt, area))
      × (size area.buffer ≡ 4614 + 16 * length h.regions)
      × (let packets =
            (map_region, area.buffer.bytes)
            ∷ (screen_packets (is_resizable player) ++ closing_packets manager player) in
          (bytes : List ℕ) × (start_player manager player s
            ≡ (ok (set_force_next_map_load_refresh false player), send_bytes bytes s))
          × ((rest : List ℕ) → hear (length packets) (bytes ++ rest) ≡ some (packets, rest)))
unfolding start_player send_map is_resizable closing_packets custom_flag tile_hash
start_player-hear manager player s e h short =
    let drawn = set_force_next_map_load_refresh false player in
    let (area, built, large) = put_map_region-size manager s.player_index player h in
    let a = map_region-Says manager player s area (length h.regions) e built large h.not_many in
    let b =
      (send_start-Speaks manager drawn h.players h.in_world
          (record { welcome = short.welcome; license = short.license })).run
        (send_bytes a.bytes s) e in
    let c = Says-append a b in
    let finish : Player → M Session Player =
      λ d t. then_do (λ _ u. (ok d, u)) (send_start manager d t) in
    (
      area,
      built,
      large,
      (
        c.bytes,
        ap (λ r. then_do finish (then_do (λ _ u. (ok drawn, u)) r)) a.sent
            ∙ ap (then_do (λ _ u. (ok drawn, u))) c.sent,
        c.heard,
      ),
    )
