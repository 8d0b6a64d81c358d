-- ===== src/Manager/Heard.antt =====
-- What the client hears of a sequence of packets that the managers send.
pub mod Wire
pub mod Configs
pub mod Interfaces
pub mod Start
use openrs.Base.{
  ℕ, ◌+◌, ◌≡◌, refl, sym, ap, ap₂, ◌∙◌, List, [], ◌∷◌, ◌++◌, append_assoc, append-nil, map, length,
  length-append, M, Outcome, ok, then_do, ◌>>◌, Option, none, some, Bool, true, false,
  if◌then◌else◌,
}
use openrs.Common.Buffer.{Buffer, empty, size, append}
use openrs.Net.Packet.{PacketType, Packet}
use openrs.Net.Encoder.{PacketHeaderType, world_code_mapping, type_mapping, world_encode}
use openrs.Net.Encoder.RoundTrip.{frame, world_encode_lem}
use openrs.Net.Encoder.RoundTrip.Stream.{Said, hear, hear-frame, hear-append, Framed}
use openrs.Net.Session.Sending.{send-frame}
use openrs.Net.Session.{Session, world, send, send_bytes, send_encoded, encode_by}

-- The session s becomes r by bytes that the client takes for these packets, one after another.
pub record Says (s : Session) (r : Outcome (Unit {0}) × Session) (packets : List Said)
    : Type 0 where
  pub bytes : List ℕ
  pub sent : r ≡ (ok tt, send_bytes bytes s)
  pub heard : (rest : List ℕ) → hear (length packets) (bytes ++ rest) ≡ some (packets, rest)

-- Of a session in the world: the call succeeds, and sends these packets.
pub record Speaks (m : M Session (Unit {0})) (packets : List Said) : Type 0 where
  pub run : (s : Session) → s.encoder ≡ world → Says s (m s) packets

pub send-Speaks :
    (p : Packet) (code : ℕ) (h : PacketHeaderType)
    → world_code_mapping p.type ≡ some code
    → type_mapping p.type ≡ some h
    → Framed h p.type (size p.payload)
    → Speaks (send p) ((p.type, p.payload.bytes) ∷ [])
send-Speaks p code h known typed f = record {
  run = λ s e. record {
    bytes = frame h code p.payload.bytes;
    sent = send-frame p s code h e known typed;
    heard = λ rest. hear-frame p.type code h p.payload.bytes rest known typed f;
  };
}

-- What is said first, and then more.
pub Says-append :
    {s : Session} {r r' : Outcome (Unit {0}) × Session} {ps qs : List Said} (a : Says s r ps)
    → Says (send_bytes a.bytes s) r' qs
    → Says s r' (ps ++ qs)
Says-append {s} {r} {r'} {ps} {qs} a b = record {
  bytes = a.bytes ++ b.bytes;
  sent =
      b.sent
      ∙ ap (λ xs. (ok tt, record s { buffer_output = record (s.buffer_output) { bytes = xs } }))
          (append_assoc s.buffer_output.bytes a.bytes b.bytes);
  heard = λ rest.
      ap₂ hear (length-append ps qs) (append_assoc a.bytes b.bytes rest)
      ∙ hear-append (length ps) (length qs) (a.bytes ++ (b.bytes ++ rest)) (b.bytes ++ rest) rest ps
          qs (a.heard (b.bytes ++ rest)) (b.heard rest);
}

pub then-Speaks :
    {m k : M Session (Unit {0})} {ps qs : List Said}
    → Speaks m ps
    → Speaks k qs
    → Speaks (m >> k) (ps ++ qs)
then-Speaks {m} {k} {ps} {qs} f g = record {
  run = λ s e.
      let a = f.run s e in
      let b = Says-append a (g.run (send_bytes a.bytes s) e) in
      record { bytes = b.bytes; sent = ap (then_do (λ _. k)) a.sent ∙ b.sent; heard = b.heard };
}

infixr 4 ◌▸◌
abbrev pub ◌▸◌ :
    {m k : M Session (Unit {0})} {ps qs : List Said}
    → Speaks m ps
    → Speaks k qs
    → Speaks (m >> k) (ps ++ qs)
f ▸ g = then-Speaks f g
