-- ===== src/Net/Session.antt =====
-- openrs/{include/openrs,src}/net/session.{h,cpp}: the state of one client connection, and what is
-- sent on it. `Session::Read` needs the handlers and is in Net/Input.
pub mod Sending
use openrs.Base.{
  ℕ, ◌+◌, ◌-◌, ◌%◌, ◌^◌, List, [], ◌++◌, Bool, not, ◌==◌, M, Outcome, ok, fail, throws, undefined,
  ◌>>◌, length,
}
use openrs.Common.Buffer.{Buffer, empty, append, size, clear_old_data, size_mod}
use openrs.Net.Packet.{PacketType, Packet}
use openrs.Net.Decoder.{decode, grab_decode, login_decode, world_decode, packet_of}
use openrs.Net.Encoder.{encode, grab_encode, login_encode, world_encode}

pub data SessionStatus : Type 0 where
  disconnected connected downloading_cache logging_in logged_in : SessionStatus

-- Which class the decoder, the encoder or the handler of a session is of.
pub data Stage : Type 0 where
  initial grab login world : Stage

pub record Session : Type 0 where
  pub status : SessionStatus
  pub decoder : Stage
  pub packet_handler : Stage
  pub encoder : Stage
  pub buffer_input : Buffer
  pub buffer_output : Buffer
  pub bytes_received : ℕ
  pub bytes_sent : ℕ
  pub client_build : ℕ
  pub player_index : ℕ
  pub player_world : ℕ

-- `Session::Session()`; -1 as a `uint32_t`.
unfoldable pub new_session : Session
new_session = record {
  status = connected;
  decoder = initial;
  packet_handler = initial;
  encoder = initial;
  buffer_input = empty;
  buffer_output = empty;
  bytes_received = 0;
  bytes_sent = 0;
  client_build = 0;
  player_index = 2 ^ 32 - 1;
  player_world = 2 ^ 32 - 1;
}

-- The virtual `Decode` and `Encode`.
unfoldable pub decode_by : Stage → M Buffer Packet
unfolding decode grab_decode login_decode world_decode
decode_by initial = decode
decode_by grab = grab_decode
decode_by login = login_decode
decode_by world = world_decode

unfoldable pub encode_by : Stage → Packet → M Buffer (Unit {0})
unfolding encode grab_encode login_encode world_encode
encode_by initial = encode
encode_by grab = grab_encode
encode_by login = login_encode
encode_by world = world_encode

-- `Session::Send(const Buffer&)`.
abbrev pub send_bytes : List ℕ → Session → Session
send_bytes bytes s = record s { buffer_output = append bytes s.buffer_output }

-- `Session::Send(const Packet&)` does not look at what `Encode` returns.
abbrev pub send_encoded : Outcome (Unit {0}) × Buffer → M Session (Unit {0})
send_encoded (ok u, b) s = (ok tt, send_bytes b.bytes s)
send_encoded (fail, b) s = (ok tt, send_bytes b.bytes s)
send_encoded (throws, b) s = (throws, s)
send_encoded (undefined, b) s = (undefined, s)

unfoldable pub send : Packet → M Session (Unit {0})
unfolding encode_by
send p s = send_encoded (encode_by s.encoder p empty) s

unfoldable pub send_op_code : PacketType → M Session (Unit {0})
unfolding send
send_op_code t = send (packet_of t [])

abbrev pub has_output : Session → Bool
has_output s = not (size s.buffer_output == 0)

abbrev pub written : Outcome (Unit {0}) × Buffer → M Session (List ℕ)
written (ok u, b) s = (
  ok b.bytes,
  record s { bytes_sent = (s.bytes_sent + size b) % size_mod; buffer_output = empty },
)
written (fail, b) s = (fail, s)
written (throws, b) s = (throws, s)
written (undefined, b) s = (undefined, s)

-- `Session::Write`: the bytes that go to the socket, and the session behind it.
unfoldable pub write : M Session (List ℕ)
unfolding clear_old_data
write s = written (clear_old_data s.buffer_output) s

abbrev pub set_status : SessionStatus → Session → Session
set_status status s = record s { status = status }

abbrev pub set_stage : Stage → Session → Session
set_stage stage s = record s { decoder = stage; encoder = stage; packet_handler = stage }
