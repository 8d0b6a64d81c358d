-- ===== src/Net/Input.antt =====
-- openrs/src/net/session.cpp, `Session::Read`: what was received goes behind the input, and packets
-- are decoded and handled, each by the session's stage at that time, until the input is at its end.
pub mod Keeps
pub mod Progress
pub mod Stages
pub mod Moves
use openrs.Base.{
  ℕ, zero, suc, ◌+◌, ◌%◌, ◌^◌, List, [], ◌∷◌, ◌==◌, if◌then◌else◌, Option, none, some, M, Outcome,
  ok, fail, throws, undefined, length,
}
use openrs.Common.Buffer.{Buffer, append, clear, remaining, size_mod}
use openrs.Net.Packet.{Packet}
use openrs.Net.Session.{
  Session, Stage, initial, grab, login, world, decode_by, disconnected, set_status,
}
use openrs.Net.Handler.{Server, handle, login_handle, world_handle}
use openrs.Net.Grab.{grab_handle}

-- The virtual `Handle`.
unfoldable pub handle_by : Stage → Server → Packet → M Session (Unit {0})
unfolding handle grab_handle login_handle world_handle
handle_by initial = handle
handle_by grab = grab_handle
handle_by login = login_handle
handle_by world = world_handle

abbrev pub with_input : Buffer → Session → Session
with_input b s = record s { buffer_input = b }

-- Behind the loop: the input is dropped and counted.
abbrev pub finished : ℕ → Session → Session
finished amount s = record s {
  buffer_input = clear s.buffer_input;
  bytes_received = (s.bytes_received + amount) % size_mod;
}

-- What a run of the loop gives; `none` is a run that needs more fuel.
abbrev pub Run : Type 0
Run = Option (Outcome (Unit {0}) × Session)

abbrev pub go_handled : (Session → Run) → Outcome (Unit {0}) × Session → Run
go_handled more (ok u, s) = more s
go_handled more (fail, s) = more s
go_handled more (throws, s) = some (throws, s)
go_handled more (undefined, s) = some (undefined, s)

abbrev pub go_decoded : Server → (Session → Run) → Session → Outcome Packet × Buffer → Run
go_decoded server more s (ok p, b) =
    go_handled more (handle_by s.packet_handler server p (with_input b s))
go_decoded server more s (fail, b) = some (ok tt, with_input b s)
go_decoded server more s (throws, b) = some (throws, with_input b s)
go_decoded server more s (undefined, b) = some (undefined, with_input b s)

-- The `while` loop.
unfoldable pub read_loop : Server → ℕ → ℕ → Session → Run
unfolding remaining decode_by handle_by
read_loop server amount zero s = none
read_loop server amount (suc fuel) s =
    let more = read_loop server amount fuel in
    if remaining s.buffer_input == 0
    then some (ok tt, finished amount s)
    else go_decoded server more s (decode_by s.decoder s.buffer_input)

-- `Session::Read`. A socket that is closed or failed gives no bytes.
unfoldable pub read : Server → ℕ → List ℕ → Session → Run
unfolding read_loop
read server fuel [] s = some (ok tt, set_status disconnected s)
read server fuel (x ∷ xs) s =
    read_loop server (length (x ∷ xs)) fuel (with_input (append (x ∷ xs) s.buffer_input) s)
