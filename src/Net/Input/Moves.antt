-- ===== src/Net/Input/Moves.antt =====
-- The state machine of `PacketHandler::Handle`.
use openrs.Base.{
  ℕ, ◌≡◌, refl, sym, subst, List, [], ◌==◌, if◌then◌else◌, Bool, true, false, M, Outcome, ok, fail,
  throws, undefined,
}
use openrs.Common.Buffer.{Buffer, get_string}
use openrs.Net.Packet.{PacketType, Packet, handshake, start_up, client_outdated}
use openrs.Net.Packet
use openrs.Net.Decoder.{packet_of}
use openrs.Net.Session.{
  Session, SessionStatus, Stage, grab, login, connected, disconnected, downloading_cache,
  logging_in, send, send_op_code, set_status, set_stage,
}
use openrs.Net.Session.Sending.{send_lem}
use openrs.Net.Handler.{
  Server, done, with_read, read_builds, start_up_packet, accept_grab, handle_handshake,
  handle_typed, handle, set_client_build,
}

-- How `PacketHandler::Handle` may move the status and the stage of a session.
pub data Moves : SessionStatus × Stage → SessionStatus × Stage → Type 0 where
  ignored : {stage : Stage} → Moves (connected, stage) (connected, stage)
  grabbing : {stage : Stage} → Moves (connected, stage) (downloading_cache, grab)
  loggingin : {stage : Stage} → Moves (connected, stage) (logging_in, login)
  dropped : {status : SessionStatus} {stage : Stage} → Moves (status, stage) (disconnected, stage)

abbrev at : Session → SessionStatus × Stage
at s = (s.status, s.packet_handler)

-- A step that a session makes, whatever its outcome.
abbrev pub Steps : M Session (Unit {0}) → Type 0
Steps m = (s : Session) → s.status ≡ connected → Moves (at s) (at (m s).1)

done-Steps : Steps done
done-Steps s e = rw e ignored

send-Steps : (p : Packet) → Steps (send p)
send-Steps p s e = let (bytes, f) = send_lem p s in rw (f, e) ignored

with_read-Steps :
    {A : Type 0} (r : Outcome A × Buffer) (failed : M Session (Unit {0}))
    → (k : A → Buffer → M Session (Unit {0})) → Steps failed
    → ((a : A) (b : Buffer) → Steps (k a b))
    → Steps (with_read r failed k)
with_read-Steps (ok a, b) failed k l m s e = m a b s e
with_read-Steps (fail, b) failed k l m s e = l s e
with_read-Steps (throws, b) failed k l m s e = rw e ignored
with_read-Steps (undefined, b) failed k l m s e = rw e ignored

accept_grab-Steps : (keys : List ℕ) → Steps (accept_grab keys)
unfolding accept_grab
accept_grab-Steps keys s e =
    let (bytes, f) =
      send_lem (start_up_packet keys) (set_stage grab (set_status downloading_cache s)) in
    subst (λ r. Moves (at s) (at r.1)) (sym f) (rw e grabbing)

if-Steps : (t : Bool) (m n : M Session (Unit {0})) → Steps m → Steps n → Steps (if t then m else n)
if-Steps true m n k l = k
if-Steps false m n k l = l

handshake-Steps : (server : Server) (p : Packet) → Steps (handle_handshake server p)
unfolding handle_handshake send_op_code
handshake-Steps server p = with_read-Steps (read_builds p.payload) done _ done-Steps λ builds rest.
    if-Steps (builds.0 == 718) _ _
      (λ s e.
        with_read-Steps (get_string rest) (accept_grab server.keys) _
          (accept_grab-Steps server.keys) (λ _ _. accept_grab-Steps server.keys)
          (set_client_build builds.0 s) e)
      (send-Steps _)

typed-Moves :
    (t : PacketType) (status : SessionStatus) (server : Server) (p : Packet) (s : Session)
    → s.status ≡ status
    → Moves (at s) (at (handle_typed t status server p s).1)
unfolding handle_typed send_op_code
typed-Moves handshake connected server p s e = handshake-Steps server p s e
typed-Moves Packet.login connected server p s e =
    let (bytes, f) = send_lem (packet_of start_up []) (set_stage login (set_status logging_in s)) in
    subst (λ r. Moves (at s) (at r.1)) (sym f) (rw e loggingin)
typed-Moves _ _ server p s e = dropped

-- Whatever the packet, `PacketHandler::Handle` leaves a session where it is, starts the download of the
-- cache or the login, which only a connected session comes to, or drops the session.
pub handle-Moves :
    (server : Server) (p : Packet) (s : Session)
    → Moves
        (s.status, s.packet_handler)
        ((handle server p s).1.status, (handle server p s).1.packet_handler)
unfolding handle
handle-Moves server p s = typed-Moves p.type s.status server p s refl
