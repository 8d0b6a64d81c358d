-- ===== src/Manager/World/Map.antt =====
-- openrs/src/manager/worldmanager.cpp: the packets with the map around a player, which are written bit by
-- bit in their first part.
use openrs.Base.{
  ℕ, zero, suc, ◌+◌, ◌*◌, ◌/◌, ◌%◌, ◌^◌, List, [], ◌∷◌, ◌++◌, Option, none, some, Bool, true, false,
  if◌then◌else◌, ◌==◌, M, Outcome, ok, fail, throws, undefined, throwing, ◌>>◌, return,
}
use openrs.Base.Bits.{bit}
use openrs.Common.Buffer.{
  Buffer, seek_set, put_data_be, put_data_le, put_shifted_neg_data_be, put_shifted_pos_data_le,
}
use openrs.Common.Buffer.BitSet.{put_bit_set_be}
use openrs.Common.BitBuffer.{BitBuffer, new_bit_buffer, resize, put_data, put_bits, seek}
use openrs.Game.WorldTile.{tile_hash, region_hash, chunk_x, chunk_y, get_map_regions}
use openrs.Game.Dynamic.{Regions, get_dynamic_map_regions}
use openrs.Game.World.{Players, find, insert}
use openrs.Game.Player.{Player, tile, set_force_next_map_load_refresh}
use openrs.Net.Packet.{PacketType, map_region, dynamic_map_region}
use openrs.Net.Session.{Session, send}
use openrs.Manager.Config.{negated}
use openrs.Manager.World.{WorldManager, map_chunks}

-- What the class inherits from `Buffer` works on the bytes alone.
abbrev pub on_buffer : (Buffer → Buffer) → M BitBuffer (Unit {0})
on_buffer f b = (ok tt, record b { buffer = f b.buffer })

abbrev pub below : M Buffer (Unit {0}) → M BitBuffer (Unit {0})
below m b = ((m b.buffer).0, record b { buffer = (m b.buffer).1 })

abbrev pub on_bits : (BitBuffer → BitBuffer) → M BitBuffer (Unit {0})
on_bits f b = (ok tt, f b)

unfoldable pub resized : ℕ → Buffer → Buffer
unfolding resize
resized n b = record b { bytes = resize n b.bytes }

-- The loop over the other players; 30 + 18 * index is a `uint32_t`.
unfoldable pub put_regions : ℕ → Players Player → M BitBuffer (Unit {0})
put_regions player_index [] b = (ok tt, b)
put_regions player_index ((index, other) ∷ players) b =
    if index == player_index
    then put_regions player_index players b
    else (do
      on_bits (seek seek_set ((30 + 18 * index) % 2 ^ 32))
      put_bits 32 18 (region_hash (tile other))
      put_regions player_index players)
        b

abbrev pub update_size : ℕ
update_size = (30 + 2046 * 18 + 7) / 8

unfoldable pub put_players : ℕ → Player → Players Player → M BitBuffer (Unit {0})
put_players player_index player players = do
  on_buffer (resized update_size)
  put_bits 32 30 (tile_hash (tile player))
  put_regions player_index players

-- `GetLocalPlayerUpdate`; `at` throws where the world is missing, behind the first 30 bits.
unfoldable pub get_local_player_update : WorldManager → ℕ → ℕ → Player → M BitBuffer (Unit {0})
unfolding find
get_local_player_update manager world player_index player = elim (find world manager.worlds) [
  | none ↦ do on_buffer (resized update_size); put_bits 32 30 (tile_hash (tile player)); throwing
  | some players ↦ put_players player_index player players
]

unfoldable pub put_words : List ℕ → Buffer → Buffer
unfolding put_data_be
put_words [] b = b
put_words (k ∷ ks) b = put_words ks (put_data_be 4 k b)

-- The loop over the regions: their keys, or four zeros.
unfoldable pub put_keys : (ℕ → Option (List ℕ)) → List ℕ → Buffer → Buffer
unfolding put_words
put_keys keys [] b = b
put_keys keys (region ∷ regions) b = elim (keys region) [
  | none ↦ put_keys keys regions (put_words (0 ∷ 0 ∷ 0 ∷ 0 ∷ []) b)
  | some ks ↦ put_keys keys regions (put_words ks b)
]

-- `cache_config().at(718)` throws where that was not read.
unfoldable pub put_all_keys : WorldManager → List ℕ → M BitBuffer (Unit {0})
unfolding put_keys
put_all_keys manager regions b = elim manager.map_archive_keys [
  | none ↦ (throws, b)
  | some keys ↦ on_buffer (put_keys keys regions) b
]

abbrev pub of_flag : Bool → ℕ
of_flag flag = if flag then 1 else 0

abbrev pub when : Bool → M BitBuffer (Unit {0}) → M BitBuffer (Unit {0})
when t m b = if t then m b else (ok tt, b)

-- The regions around the player, for which its map size is looked up.
unfoldable pub map_regions : Player → Option (List ℕ)
unfolding map_chunks get_map_regions
map_regions player = elim (map_chunks (tile player).map_size) [
  | none ↦ none
  | some n ↦ some (get_map_regions n (tile player))
]

abbrev pub with_regions :
    {A : Type 0} → Option A → (A → M BitBuffer (Unit {0})) → M BitBuffer (Unit {0})
with_regions none k b = (undefined, b)
with_regions (some regions) k b = k regions b

-- The payload of `SendMapRegion` behind the other players. The configuration is looked up before the map
-- size.
unfoldable pub put_regions_around : WorldManager → Player → M BitBuffer (Unit {0})
unfolding put_shifted_neg_data_be put_data_be
put_regions_around manager player = do
  on_bits (put_data 1 (negated (tile player).map_size))
  on_buffer (put_shifted_neg_data_be 1 (of_flag player.force_next_map_load_refresh))
  on_buffer (put_data_be 2 (chunk_x (tile player)))
  on_buffer (put_data_be 2 (chunk_y (tile player)))
  put_all_keys manager []
  with_regions (map_regions player) (put_all_keys manager)

unfoldable pub put_map_region : WorldManager → ℕ → Player → Bool → M BitBuffer (Unit {0})
put_map_region manager player_index player update = do
  when update (get_local_player_update manager 1 player_index player)
  put_regions_around manager player

-- A packet from a buffer, if it was completed.
abbrev pub send_built : PacketType → Outcome (Unit {0}) × BitBuffer → M Session (Unit {0})
send_built type (ok u, b) s = send (record { type = type; payload = b.buffer }) s
send_built type (fail, b) s = (fail, s)
send_built type (throws, b) s = (throws, s)
send_built type (undefined, b) s = (undefined, s)

unfoldable pub send_map_region : WorldManager → Player → Bool → M Session (Unit {0})
send_map_region manager player update s =
    send_built map_region (put_map_region manager s.player_index player update new_bit_buffer) s

-- Eighteen digits of a number, the lowest one first.
unfoldable pub low_digits : ℕ → ℕ → List Bool
unfolding bit
low_digits zero v = []
low_digits (suc n) v = (v % 2 == 1) ∷ low_digits n (v / 2)

unfoldable pub region_flags : List ℕ → List Bool
unfolding low_digits
region_flags [] = []
region_flags (region ∷ regions) =
    let rest = region_flags regions in
    if region == 0 then false ∷ rest else true ∷ low_digits 18 region ++ rest

-- The elements of a `std::set`, into which the values were put one after another.
unfoldable pub in_order : List ℕ → Players (Unit {0}) → Players (Unit {0})
unfolding insert
in_order [] set = set
in_order (v ∷ vs) set = in_order vs (insert v tt set)

abbrev pub keys_of : Players (Unit {0}) → List ℕ
keys_of [] = []
keys_of ((k, _) ∷ set) = k ∷ keys_of set

unfoldable pub dynamic_regions : Player → Option Regions
unfolding map_chunks get_dynamic_map_regions
dynamic_regions player = elim (map_chunks (tile player).map_size) [
  | none ↦ none
  | some n ↦
      some
        (get_dynamic_map_regions n (tile player) (record { output_client = []; output_real = [] }))
]

abbrev pub put_dynamic : WorldManager → Regions → M BitBuffer (Unit {0})
put_dynamic manager regions = do
  below (put_bit_set_be (region_flags regions.output_client))
  put_all_keys manager (keys_of (in_order regions.output_real []))

unfoldable pub put_dynamic_map_region : WorldManager → ℕ → Player → Bool → M BitBuffer (Unit {0})
unfolding get_local_player_update put_shifted_neg_data_be put_data_le put_shifted_pos_data_le
    dynamic_regions put_bit_set_be region_flags in_order put_all_keys
put_dynamic_map_region manager player_index player update = do
  when update (get_local_player_update manager 1 player_index player)
  on_buffer (put_shifted_neg_data_be 1 2)
  on_buffer (put_data_le 2 (chunk_y (tile player)))
  on_buffer (put_shifted_pos_data_le 2 (chunk_x (tile player)))
  on_buffer (put_shifted_neg_data_be 1 (of_flag player.force_next_map_load_refresh))
  on_bits (put_data 1 (negated (tile player).map_size))
  with_regions (dynamic_regions player) (put_dynamic manager)

unfoldable pub send_dynamic_map_region : WorldManager → Player → Bool → M Session (Unit {0})
send_dynamic_map_region manager player update s =
    send_built dynamic_map_region
      (put_dynamic_map_region manager s.player_index player update new_bit_buffer) s

-- `SendMap`, whose first branch is never taken; the player that it leaves.
unfoldable pub send_map : WorldManager → Player → Bool → M Session Player
send_map manager player update = do
  if false
      then send_dynamic_map_region manager player update
      else send_map_region manager player update
  return (set_force_next_map_load_refresh false player)
