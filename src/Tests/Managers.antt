-- ===== src/Tests/Managers.antt =====
-- The theorems on bits, on the variables and on entering the world, at concrete inputs.
use openrs.Base.{
  ℕ, ◌+◌, ◌-◌, ◌*◌, ◌==◌, ◌%◌, ◌^◌, ◌≤◌, ◌≡◌, ◌⊎◌, refl, List, [], ◌∷◌, ◌++◌, none, some, Bool,
  true, false, replicate, get_elem?, length, ok, undefined, arith,
}
use openrs.Common.Buffer.{fresh, size, append, empty}
use openrs.Common.Buffer.BitSet.{put_bit_set_be, packed_size, digit}
use openrs.Common.Buffer.BitSet.Packs.{put_bit_set_be_lem}
use openrs.Common.BitBuffer.{BitBuffer, new_bit_buffer, put_bits}
use openrs.Common.BitBuffer.Written.{bit_at}
use openrs.Common.BitBuffer.Slots.{read_bits, put_bits_lem, put_bits_beyond}
use openrs.Game.WorldTile.{tile_hash, region_hash, get_map_regions}
use openrs.Game.World.{Players, find}
use openrs.Game.Player.{Player, new_player, tile, set_force_next_map_load_refresh}
use openrs.Net.Packet.{Packet, map_region}
use openrs.Net.Encoder.{uint8}
use openrs.Net.Encoder.Client.{read_payload}
use openrs.Net.Encoder.RoundTrip.Stream.{hear}
use openrs.Net.Session.{Session, new_session, set_stage, world, send, send_bytes}
use openrs.Manager.Config.{Config, config_id, send_config}
use openrs.Manager.Config.Read.{client_config, send_config-read}
use openrs.Manager.Appearance.{get_player_appearance}
use openrs.Manager.Appearance.Block.{get_player_appearance-block}
use openrs.Manager.World.{WorldManager, map_chunks}
use openrs.Manager.World.Map.{put_map_region, map_regions, get_local_player_update}
use openrs.Manager.World.Regions.{get_local_player_update_lem}
use openrs.Manager.World.Regions.Beyond.{get_local_player_update_beyond}
use openrs.Manager.World.Start.{start_player}
use openrs.Manager.World.Moves.{put_world_blocks, send_local_player_update}
use openrs.Manager.World.Moves.Updates.{everyone, marks, send_local_player_update_lem}
use openrs.Net.Encoder.{uint16}
use openrs.Net.Encoder.RoundTrip.{frame}
use openrs.Manager.Interface.{is_resizable}
use openrs.Manager.Heard.Interfaces.Screens.{screen_packets}
use openrs.Manager.Heard.Start.{closing_packets}
use openrs.Manager.Heard.Start.Map.{Ready, start_player-hear}

-- Eight bytes, to be written from bit 30 on.
abbrev at_thirty : BitBuffer
at_thirty = record { buffer = fresh (replicate 8 0); bit_position = 30 }

put_bits_lem_example :
    let (r, c) = put_bits 32 18 0x2abcd at_thirty in
    (r ≡ ok tt)
    × (c.bit_position ≡ 30 + 18)
    × (size c.buffer ≡ 8)
    × (read_bits 18 30 c.buffer.bytes ≡ 0x2abcd % 2 ^ 18)
    × ((m q : ℕ)
        → (q + m ≤ 30) ⊎ (30 + 18 ≤ q)
        → read_bits m q c.buffer.bytes ≡ read_bits m q (replicate 8 0))
put_bits_lem_example =
    put_bits_lem 32 18 0x2abcd at_thirty (omega arith) (omega arith) (omega arith) (omega arith)

-- One byte, which is full.
abbrev full : BitBuffer
full = record { buffer = fresh (204 ∷ []); bit_position = 8 }

put_bits_beyond_example : (put_bits 32 1 1 full).0 ≡ undefined
put_bits_beyond_example = put_bits_beyond 32 1 1 full (omega arith) (omega arith) (omega arith)

abbrev nine_flags : List Bool
nine_flags = true ∷ false ∷ true ∷ true ∷ false ∷ false ∷ false ∷ false ∷ true ∷ []

put_bit_set_be_lem_example :
    (packed : List ℕ) × (put_bit_set_be nine_flags empty ≡ (ok tt, append packed empty))
    × (length packed ≡ packed_size nine_flags)
    × ((j : ℕ) (x : Bool) → get_elem? nine_flags j ≡ some x → bit_at j packed ≡ digit x)
put_bit_set_be_lem_example = put_bit_set_be_lem nine_flags empty (omega arith)

-- Minus one as a `uint32_t`.
send_config-read_example :
    (p : Packet) × (send_config Config.k1160 (2 ^ 32 - 1) ≡ send p)
    × (client_config p.type p.payload.bytes ≡ some (config_id Config.k1160, 2 ^ 32 - 1))
send_config-read_example = send_config-read Config.k1160 (2 ^ 32 - 1) (omega arith)

-- A player of the name "zezima" at some place.
abbrev standing : ℕ → ℕ → Player → Player
standing x y p = record p {
  username = 122 ∷ 101 ∷ 122 ∷ 105 ∷ 109 ∷ 97 ∷ [];
  entity = record (p.entity) {
    tile = record { position_x = x; position_y = y; position_z = 0; map_size = 0 };
  };
}

zezima : Player
zezima = standing 3087 3496 new_player

durial : Player
durial = standing 3200 3400 new_player

get_player_appearance-block_example :
    (block : List ℕ) × (get_player_appearance zezima empty ≡ append (length block ∷ block) empty)
    × (length block ≡ 47)
    × ((rest : List ℕ) → read_payload uint8 0 (length block ∷ (block ++ rest)) ≡ some (block, rest))
unfolding zezima
get_player_appearance-block_example = get_player_appearance-block zezima empty (omega arith)

-- Two players, the second one at an index that some others have left behind.
two_players : Players Player
two_players = (0, zezima) ∷ (5, durial) ∷ []

manager_of : Players Player → WorldManager
manager_of players = record {
  worlds = (1, players) ∷ [];
  sessions = [];
  map_archive_keys = some (λ region. none);
  server_name = 79 ∷ 112 ∷ 101 ∷ 110 ∷ 82 ∷ 83 ∷ [];
  source_url = [];
  gain = λ level. level + 300;
}

get_local_player_update_lem_example :
    let (r, c) = get_local_player_update (manager_of two_players) 1 0 zezima new_bit_buffer in
    (r ≡ ok tt)
    × (size c.buffer ≡ 4608)
    × (read_bits 30 0 c.buffer.bytes ≡ tile_hash (tile zezima) % 2 ^ 30)
    × ((j : ℕ)
        → (other : Player) → find j two_players ≡ some other
        → (j == 0) ≡ false
        → read_bits 18 (30 + 18 * j) c.buffer.bytes ≡ region_hash (tile other) % 2 ^ 18)
unfolding manager_of two_players find
get_local_player_update_lem_example =
    get_local_player_update_lem (manager_of two_players) 1 0 zezima two_players refl
      (omega arith, (omega arith, tt)) ((λ e. omega arith), ((λ e. omega arith), tt))

far_players : Players Player
far_players = (0, zezima) ∷ (2046, durial) ∷ []

get_local_player_update_beyond_example :
    (get_local_player_update (manager_of far_players) 1 0 zezima new_bit_buffer).0 ≡ undefined
unfolding manager_of far_players find
get_local_player_update_beyond_example =
    get_local_player_update_beyond (manager_of far_players) 1 0 2046 zezima durial far_players refl
      (omega arith, (omega arith, tt)) refl refl (omega arith)

entered : Session
entered = record (set_stage world new_session) { player_world = 1; player_index = 0 }

three_players : Players Player
three_players = (0, zezima) ∷ (1, durial) ∷ (2, durial) ∷ []

send_local_player_update_lem_example :
    let all = everyone (manager_of two_players).worlds in
    let blocks = (put_world_blocks (manager_of two_players).worlds empty).bytes in
    (length all ≤ 2
      → send_local_player_update (manager_of two_players) entered
        ≡ (ok tt, send_bytes (frame uint16 96 (marks (length all) ++ blocks)) entered))
    × (3 ≤ length all
        → send_local_player_update (manager_of two_players) entered ≡ (undefined, entered))
unfolding entered
send_local_player_update_lem_example =
    send_local_player_update_lem (manager_of two_players) entered refl

zezima-Ready : Ready (manager_of two_players) entered.player_index zezima
unfolding manager_of two_players zezima entered find map_regions map_chunks get_map_regions
zezima-Ready = record {
  players = two_players;
  keys = λ region. none;
  regions = get_map_regions 6 (tile zezima);
  in_world = refl;
  ascending = (omega arith, (omega arith, tt));
  placed = ((λ e. omega arith), ((λ e. omega arith), tt));
  configured = refl;
  four_words = λ region ks e. absurd cc;
  around = refl;
  not_many = omega arith;
}

start_player-hear_example :
    (area : BitBuffer) × (put_map_region
        (manager_of two_players)
        entered.player_index
        zezima
        true
        new_bit_buffer
      ≡ (ok tt, area))
    × (size area.buffer ≡ 4614 + 16 * length zezima-Ready.regions)
    × (let packets =
          (map_region, area.buffer.bytes)
          ∷ (screen_packets (is_resizable zezima)
              ++ closing_packets (manager_of two_players) zezima) in
        (bytes : List ℕ) × (start_player (manager_of two_players) zezima entered
          ≡ (ok (set_force_next_map_load_refresh false zezima), send_bytes bytes entered))
        × ((rest : List ℕ) → hear (length packets) (bytes ++ rest) ≡ some (packets, rest)))
unfolding manager_of zezima entered
start_player-hear_example =
    start_player-hear (manager_of two_players) zezima entered refl zezima-Ready
      (record { welcome = omega arith; license = omega arith })
