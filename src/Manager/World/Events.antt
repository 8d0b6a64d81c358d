-- ===== src/Manager/World/Events.antt =====
-- openrs/src/manager/worldmanager.cpp: the events of a login and of the screen, and the end of a player.
use openrs.Base.{
  ℕ, [], Option, none, some, Bool, true, false, M, Outcome, ok, fail, throws, undefined,
}
use openrs.Game.WorldTile.{WorldTile}
use openrs.Game.World.{Players, find, insert, erase}
use openrs.Game.Player.{Player, tile, set_screen}
use openrs.Net.Session.{Session}
use openrs.Manager.Interface.Book.{send_interfaces}
use openrs.Manager.World.{WorldManager}
use openrs.Manager.World.Start.{start_player}
use openrs.Manager.World.Moves.{replace, handle_entity_move}

abbrev pub answered : Outcome (Unit {0}) → Outcome Bool
answered (ok u) = ok true
answered fail = fail
answered throws = throws
answered undefined = undefined

-- `HandleEvent(EventPacketScreen)`, on the session that it is about: the screen is set in the player of the
-- world, and the interfaces are sent again.
unfoldable pub handle_screen : ℕ → ℕ → ℕ → M (WorldManager × Session) Bool
unfolding find replace send_interfaces
handle_screen mode width height (manager, s) = elim (find s.player_world manager.worlds) [
  | none ↦ (ok false, (manager, s))
  | some players ↦ elim (find s.player_index players) [
    | none ↦ (ok false, (manager, s))
    | some player ↦
        let changed = set_screen mode width height player in
        let worlds =
          replace s.player_world (replace s.player_index changed players) manager.worlds in
        let (r, t) = send_interfaces changed s in
        (answered r, (record manager { worlds = worlds }, t))
  ]
]

-- The world with a player object in the state that it now has.
abbrev pub set_player : Session → Player → WorldManager → WorldManager
set_player s player manager = elim (find s.player_world manager.worlds) [
  | none ↦ manager
  | some players ↦ record manager {
    worlds = replace s.player_world (replace s.player_index player players) manager.worlds;
  }
]

-- `std::map::insert` on the table of the sessions, of the session in the state that it now has.
abbrev pub known : Session → WorldManager → WorldManager
known s manager = record manager { sessions = insert s.player_index (some s) manager.sessions }

-- The session behind the calls on the table: its entry, if the table got it, and else as it was.
abbrev pub entry_of : Option (Option Session) → Session → Option (Option Session) → Session
entry_of none s (some (some t)) = t
entry_of before s after = s

abbrev pub moved_in :
    Session → WorldManager → Outcome Bool × WorldManager → Outcome Bool × (WorldManager × Session)
moved_in s before (r, manager) =
    let t =
      entry_of (find s.player_index before.sessions) s (find s.player_index manager.sessions) in
    (answered_too r, (manager, t))
  where
    answered_too : Outcome Bool → Outcome Bool
    answered_too (ok b) = ok true
    answered_too r = r

abbrev pub origin : WorldTile
origin = record { position_x = 0; position_y = 0; position_z = 0; map_size = 0 }

-- `HandleEvent(EventLogin)`. `StartPlayer` does not look at the table; the manager is the sink of the
-- move that it emits.
unfoldable pub handle_login : Player → M (WorldManager × Session) Bool
unfolding find insert start_player handle_entity_move replace
handle_login player (manager, s) = started (start_player manager player s)
  where
    started : Outcome Player × Session → Outcome Bool × (WorldManager × Session)
    started (ok drawn, t) =
        moved_in t manager
          (handle_entity_move (tile drawn) origin (known t (set_player t drawn manager)))
    started (fail, t) = (fail, (known t manager, t))
    started (throws, t) = (throws, (known t manager, t))
    started (undefined, t) = (undefined, (known t manager, t))

-- `remove_player` by the index.
unfoldable pub remove_player : ℕ → ℕ → WorldManager → WorldManager
unfolding erase find replace insert
remove_player world index manager =
    let players : Players Player = elim (find world manager.worlds) [ none ↦ [] | some ps ↦ ps ] in
    record manager {
      sessions = erase index manager.sessions;
      worlds = replace world (erase index players) (insert world players manager.worlds);
    }
