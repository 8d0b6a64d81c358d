-- ===== src/Manager/World/Moves.antt =====
-- openrs/src/manager/worldmanager.cpp: `SendLocalPlayerUpdate`, and what the others are told
-- when an entity moves.
pub mod Updates
use openrs.Base.{
  ℕ, ◌+◌, ◌-◌, ◌*◌, ◌/◌, ◌%◌, ◌^◌, List, [], ◌∷◌, ◌++◌, Option, none, some, Bool, true, false, not,
  ◌&&◌, ◌==◌, leb, if◌then◌else◌, bit_or, M, Outcome, ok, fail, throws, undefined, ◌>>=◌, ◌>>◌, ◌▷◌,
  return,
}
use openrs.Common.Buffer.{
  Buffer, empty, append, put_data, put_data_be, put_data_vbe, put_shifted_pos_data_be,
}
use openrs.Common.BitBuffer.{BitBuffer, new_bit_buffer, put_bits}
use openrs.Game.WorldTile.{WorldTile, within_distance}
use openrs.Game.Entity.{Graphics, is_id, get_settings_hash, get_settings_hash_2}
use openrs.Game.World.{Players, find, insert, erase}
use openrs.Game.Player.{Player, tile, set_screen}
use openrs.Net.Packet.{local_player_update}
use openrs.Net.Session.{Session, send}
use openrs.Manager.Appearance.{get_player_appearance}
use openrs.Manager.Interface.Book.{send_interfaces}
use openrs.Manager.World.{WorldManager}
use openrs.Manager.World.Map.{on_buffer, send_built}
use openrs.Manager.World.Start.{start_player}

-- The four bits for each player of each world.
unfoldable pub mark_player : M BitBuffer (Unit {0})
unfolding put_bits
mark_player = do put_bits 32 1 1; put_bits 32 1 1; put_bits 32 2 0

unfoldable pub mark_players : Players Player → M BitBuffer (Unit {0})
mark_players [] b = (ok tt, b)
mark_players (entry ∷ players) b = (do mark_player; mark_players players) b

unfoldable pub mark_worlds : Players (Players Player) → M BitBuffer (Unit {0})
mark_worlds [] b = (ok tt, b)
mark_worlds ((id, players) ∷ worlds) b = (do mark_players players; mark_worlds worlds) b

-- The blocks for the players; the mask 0x10 has one byte.
unfoldable pub put_blocks : Players Player → Buffer → Buffer
unfolding put_data get_player_appearance
put_blocks [] b = b
put_blocks ((index, player) ∷ players) b =
    put_blocks players (b ▷ put_data 1 0x10 ▷ get_player_appearance player ▷ put_data 1 0)

unfoldable pub put_world_blocks : Players (Players Player) → Buffer → Buffer
unfolding put_blocks
put_world_blocks [] b = b
put_world_blocks ((id, players) ∷ worlds) b = put_world_blocks worlds (put_blocks players b)

-- `SendLocalPlayerUpdate`.
unfoldable pub send_local_player_update : WorldManager → M Session (Unit {0})
unfolding mark_worlds
send_local_player_update manager s =
    send_built local_player_update
      ((do
        mark_worlds manager.worlds
        on_buffer (append (put_world_blocks manager.worlds empty).bytes))
        new_bit_buffer)
      s

-- `data_mask` of a player that comes into view.
unfoldable pub data_mask : Player → ℕ
data_mask player =
    let set : Bool → ℕ → ℕ → ℕ = λ t bits mask. if t then bit_or mask bits else mask in
    let g = player.entity.graphics in
    bit_or 0x40000 0x10
    ▷ set (not (player.entity.face_entity_last == 2 ^ 32 - 2)) 0x1
    ▷ set (not (is_id g.first 0)) 0x4
    ▷ set (not (is_id g.second 0)) 0x8000
    ▷ set (not (is_id g.third 0)) 0x400000
    ▷ set (not (is_id g.fourth 0)) 0x800000
    ▷ set player.update_movement_type 0x80
    ▷ (λ mask. if leb 255 mask then bit_or mask 0x2 else mask)
    ▷ (λ mask. if leb 65535 mask then bit_or mask 0x400 else mask)

unfoldable pub put_graphics : Graphics → Buffer → Buffer
unfolding put_data_be put_data_vbe put_shifted_pos_data_be get_settings_hash get_settings_hash_2
put_graphics g b =
    if is_id g 0
    then b
    else (b
        ▷ put_data_be 2 g.id
        ▷ put_data_vbe 4 (get_settings_hash g)
        ▷ put_shifted_pos_data_be 1 (get_settings_hash_2 g))

-- The block for a player that comes into view. The type of `is_running() ? 2 : 1` is `int`.
unfoldable pub put_in_view : Player → Buffer → Buffer
unfolding data_mask put_data put_graphics get_player_appearance put_shifted_pos_data_be
put_in_view player b =
    let mask = data_mask player in
    let g = player.entity.graphics in
    let put_if : Bool → (Buffer → Buffer) → Buffer → Buffer = λ t f c. if t then f c else c in
    b
    ▷ put_data 1 mask
    ▷ put_if (leb 256 mask) (put_data 1 (mask / 2 ^ 8))
    ▷ put_if (leb 65536 mask) (put_data 1 (mask / 2 ^ 16))
    ▷ put_graphics g.first
    ▷ put_graphics g.second
    ▷ put_graphics g.third
    ▷ put_graphics g.fourth
    ▷ get_player_appearance player
    ▷ put_if (not (player.entity.face_entity_last == 2 ^ 32 - 2))
        (put_shifted_pos_data_be 4 player.entity.face_entity_last)
    ▷ put_data 1 0
    ▷ put_if player.update_movement_type
        (put_shifted_pos_data_be 4 (if player.is_running then 2 else 1))

-- What one player is told of an entity that was at a position and now is at another one. It is the player
-- itself that the block is about.
unfoldable pub put_move : WorldTile → WorldTile → Player → M BitBuffer (Unit {0})
unfolding within_distance
put_move entity previous player =
    let before = within_distance (tile player) previous 14 in
    let now = within_distance (tile player) entity 14 in
    if before && not now
    then (do
      put_bits 32 1 1
      put_bits 32 1 0
      put_bits 32 2 0
      put_bits 32 1 0
      on_buffer (append empty.bytes))
    else (if not before && now
        then (do
          put_bits 32 1 1
          put_bits 32 1 1
          put_bits 32 2 0
          on_buffer (append (put_in_view player empty).bytes))
        else on_buffer (append empty.bytes))

-- A session in the table is an object that all share: what is sent on it is kept in its entry.
unfoldable pub replace : {A : Type 0} → ℕ → A → Players A → Players A
replace k a [] = []
replace k a ((i, b) ∷ entries) =
    let rest = replace k a entries in if k == i then (i, a) ∷ entries else (i, b) ∷ rest

abbrev pub stored :
    ℕ
    → Players (Option Session)
    → Outcome (Unit {0}) × Session
    → Outcome (Unit {0}) × Players (Option Session)
stored index table (r, s) = (r, replace index (some s) table)

-- The loop of `HandleEvent(EventEntityMove)`: a player without a session, or whose session has expired, is
-- passed over.
unfoldable pub tell_players :
    WorldTile → WorldTile → Players Player → M (Players (Option Session)) (Unit {0})
unfolding find put_move send replace
tell_players entity previous [] table = (ok tt, table)
tell_players entity previous ((index, player) ∷ players) table = elim (find index table) [
  | none ↦ tell_players entity previous players table
  | some none ↦ tell_players entity previous players table
  | some (some s) ↦
      (do
        (λ t.
            stored index t
              (send_built local_player_update (put_move entity previous player new_bit_buffer) s))
        tell_players entity previous players)
        table
]

abbrev pub sessions_back :
    WorldManager → Outcome (Unit {0}) × Players (Option Session) → Outcome Bool × WorldManager
sessions_back manager (ok u, table) = (ok false, record manager { sessions = table })
sessions_back manager (fail, table) = (fail, record manager { sessions = table })
sessions_back manager (throws, table) = (throws, record manager { sessions = table })
sessions_back manager (undefined, table) = (undefined, record manager { sessions = table })

-- `HandleEvent(EventEntityMove)`: whether the event is to go to no other sink.
unfoldable pub handle_entity_move : WorldTile → WorldTile → M WorldManager Bool
unfolding find tell_players
handle_entity_move entity previous manager = elim (find 1 manager.worlds) [
  | none ↦ (ok false, manager)
  | some players ↦ sessions_back manager (tell_players entity previous players manager.sessions)
]
