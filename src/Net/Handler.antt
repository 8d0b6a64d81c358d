-- ===== src/Net/Handler.antt =====
-- openrs/src/net/codec/handler/global: what a session does with a decoded packet. The grab handler
-- is in Net/Grab, and Session::Read, which calls the handlers, in Net/Input.
use openrs.Base.{
  ℕ, List, [], ◌∷◌, ◌==◌, if◌then◌else◌, M, Outcome, ok, fail, throws, undefined, ◌>>=◌, ◌>>◌,
  return,
}
use openrs.Common.Buffer.{Buffer, empty, get_be, get_le, get_string, put_data_be, remaining}
use openrs.Net.Packet.{
  PacketType, Packet, handshake, login_world, start_up, client_outdated, ping, screen,
}
use openrs.Net.Packet
use openrs.Net.Session.{
  Session, SessionStatus, connected, disconnected, downloading_cache, logging_in, initial, grab,
  login, send, send_op_code, set_status, set_stage,
}

-- What the handlers call in other parts of the server: the `grab.keys` of the configuration,
-- `CacheManager::GetArchiveData` (`throws` is its `runtime_error`), `SendUKeys`,
-- `LoginPacketHandler::HandleLoginWorld` and the sinks of `EventPacketScreen`.
pub record Server : Type 0 where
  pub keys : List ℕ
  pub archive_data : ℕ → ℕ → Outcome (List ℕ)
  pub send_ukeys : M Session (Unit {0})
  pub handle_login_world : Packet → M Session (Unit {0})
  pub screen_event : ℕ → ℕ → ℕ → M Session (Unit {0})

abbrev pub done : M Session (Unit {0})
done s = (ok tt, s)

-- A read from a packet: what follows a failure, and what follows a success.
abbrev pub with_read :
    {A B : Type 0} → Outcome A × Buffer → M Session B → (A → Buffer → M Session B) → M Session B
with_read (ok a, b) failed k = k a b
with_read (fail, b) failed k = failed
with_read (throws, b) failed k = λ s. (throws, s)
with_read (undefined, b) failed k = λ s. (undefined, s)

abbrev pub update : (Session → Session) → M Session (Unit {0})
update f s = (ok tt, f s)

-- Two integers of four bytes, in network order: the client's build, and its second part.
unfoldable pub read_builds : M Buffer (ℕ × ℕ)
unfolding get_be
read_builds = do build ← get_be 4; sub ← get_be 4; return (build, sub)

-- `GrabManager::WriteKeysToBuffer`.
unfoldable pub write_keys_to_buffer : List ℕ → Buffer → Buffer
unfolding put_data_be
write_keys_to_buffer [] b = b
write_keys_to_buffer (key ∷ keys) b = write_keys_to_buffer keys (put_data_be 4 key b)

abbrev pub set_client_build : ℕ → Session → Session
set_client_build build s = record s { client_build = build }

abbrev pub start_up_packet : List ℕ → Packet
start_up_packet keys = record { type = start_up; payload = write_keys_to_buffer keys empty }

-- The end of a handshake, behind the token.
unfoldable pub accept_grab : List ℕ → M Session (Unit {0})
unfolding write_keys_to_buffer send
accept_grab keys = do
  update (set_status downloading_cache)
  update (set_stage grab)
  send (start_up_packet keys)

unfoldable pub handle_handshake : Server → Packet → M Session (Unit {0})
unfolding read_builds accept_grab send_op_code get_string
handle_handshake server p = with_read (read_builds p.payload) done λ builds rest.
    if builds.0 == 718
    then (do
      update (set_client_build builds.0)
      with_read (get_string rest) (accept_grab server.keys) (λ _ _. accept_grab server.keys))
    else send_op_code client_outdated

unfoldable pub handle_typed : PacketType → SessionStatus → Server → Packet → M Session (Unit {0})
unfolding handle_handshake send_op_code
handle_typed handshake connected server p = handle_handshake server p
handle_typed Packet.login connected server p = do
  update (set_status logging_in)
  update (set_stage login)
  send_op_code start_up
handle_typed _ _ server p = update (set_status disconnected)

-- `PacketHandler::Handle`.
unfoldable pub handle : Server → Packet → M Session (Unit {0})
unfolding handle_typed
handle server p s = handle_typed p.type s.status server p s

-- `LoginPacketHandler::Handle` behind the check of the build.
unfoldable pub login_typed : PacketType → Server → Packet → M Session (Unit {0})
login_typed login_world server p = server.handle_login_world p
login_typed _ server p = done

-- `LoginPacketHandler::Handle`.
unfoldable pub login_handle : Server → Packet → M Session (Unit {0})
unfolding get_be read_builds remaining send_op_code login_typed
login_handle server p = do
  update (λ s. record s { decoder = initial })
  with_read (get_be 2 p.payload) done λ size rest.
      if size == remaining rest
      then with_read (read_builds rest) done (λ builds more.
        if builds.0 == 718
        then (do
          update (set_client_build builds.0)
          login_typed p.type server (record p { payload = more }))
        else (do update (λ s. record s { encoder = initial }); send_op_code client_outdated))
      else done

-- The display mode, the width, the height and a switch that is not used.
unfoldable pub read_screen : M Buffer (ℕ × ℕ × ℕ)
unfolding get_le get_be
read_screen = do
  mode ← get_le 1
  width ← get_be 2
  height ← get_be 2
  _ ← get_le 1
  return (mode, width, height)

unfoldable pub world_typed : PacketType → Server → Packet → M Session (Unit {0})
unfolding read_screen send_op_code
world_typed ping server p = send_op_code ping
world_typed screen server p =
    with_read (read_screen p.payload) done λ r rest. server.screen_event r.0 r.1 r.2
world_typed _ server p = done

-- `WorldPacketHandler::Handle`.
unfoldable pub world_handle : Server → Packet → M Session (Unit {0})
unfolding world_typed
world_handle server p = world_typed p.type server p
