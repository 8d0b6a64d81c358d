-- ===== src/Net/Session/Sending.antt =====
-- Sending never fails, and only adds to the output.
use openrs.Base.{
  ℕ, ◌==◌, if◌then◌else◌, Bool-cases, sym, ap, append-nil, append_assoc, ◌≡◌, ◌⊎◌, inl, inr, refl,
  List, [], ◌∷◌, ◌++◌, some, ok, fail, Outcome, Option-cases,
}
use openrs.Common.Buffer.{Buffer, empty, append}
use openrs.Net.Packet.{Packet, op_code_none}
use openrs.Net.Encoder.{
  PacketHeaderType, type_mapping, encode, grab_encode, login_encode, world_encode,
  world_code_mapping, code_mapping, grab_code_mapping, login_code_mapping, put_code,
}
use openrs.Net.Encoder.Client.{type_mapping-code}
use openrs.Net.Encoder.RoundTrip.{world_encode_lem, frame, put_payload_lem}
use openrs.Net.Session.{
  Session, Stage, initial, grab, login, world, encode_by, send, send_bytes, send_encoded,
}

-- An encoder appends to the buffer, or fails and leaves it.
abbrev Encoded : Buffer → Outcome (Unit {0}) × Buffer → Type 0
Encoded b r = ((fr : List ℕ) × (r ≡ (ok tt, append fr b))) ⊎ (r ≡ (fail, b))

code_bytes : ℕ → List ℕ
code_bytes code = if code == op_code_none then [] else code ∷ []

with_code :
    (code : ℕ) (b : Buffer)
    → (if code == op_code_none then b else append (code ∷ []) b) ≡ append (code_bytes code) b
unfolding code_bytes
with_code code b = elim (Bool-cases (code == op_code_none)) [
  | inl e ↦ rw e (ap (λ xs. record b { bytes = xs }) (sym (append-nil b.bytes)))
  | inr e ↦ rw e
]

put_code_lem :
    (code : ℕ) (p : Packet) (b : Buffer)
    → put_code code p b ≡ append (code_bytes code ++ p.payload.bytes) b
unfolding put_code
put_code_lem code p b =
    rw (with_code code b, put_payload_lem p (append (code_bytes code) b), append_assoc)

encode-Encoded : (p : Packet) (b : Buffer) → Encoded b (encode p b)
unfolding encode
encode-Encoded p b = elim (Option-cases (code_mapping p.type)) [
  | inl e ↦ rw e (inr refl)
  | inr (code, e) ↦ rw e (inl (_, ap (λ c. (ok tt, c)) (put_code_lem code p b)))
]

grab_encode-Encoded : (p : Packet) (b : Buffer) → Encoded b (grab_encode p b)
unfolding grab_encode
grab_encode-Encoded p b = elim (Option-cases (grab_code_mapping p.type)) [
  | inl e ↦ rw e (encode-Encoded p b)
  | inr (code, e) ↦ rw e (inl (_, ap (λ c. (ok tt, c)) (put_code_lem code p b)))
]

login_encode-Encoded : (p : Packet) (b : Buffer) → Encoded b (login_encode p b)
unfolding login_encode
login_encode-Encoded p b = elim (Option-cases (login_code_mapping p.type)) [
  | inl e ↦ rw e (encode-Encoded p b)
  | inr (code, e) ↦ rw e (inl (_, ap (λ c. (ok tt, c)) (put_code_lem code p b)))
]

world_encode-Encoded : (p : Packet) (b : Buffer) → Encoded b (world_encode p b)
unfolding world_encode
world_encode-Encoded p b = elim (Option-cases (world_code_mapping p.type)) [
  | inl e ↦ rw e (encode-Encoded p b)
  | inr (code, e) ↦
      let (h, typed) = type_mapping-code p.type code e in
      inl (frame h code p.payload.bytes, world_encode_lem p b code h e typed)
]

encode_by-Encoded : (stage : Stage) (p : Packet) (b : Buffer) → Encoded b (encode_by stage p b)
unfolding encode_by
encode_by-Encoded initial = encode-Encoded
encode_by-Encoded grab = grab_encode-Encoded
encode_by-Encoded login = login_encode-Encoded
encode_by-Encoded world = world_encode-Encoded

-- Whatever the packet and the encoder, sending succeeds and only adds bytes to the output.
pub send_lem :
    (p : Packet) (s : Session) → (bytes : List ℕ) × (send p s ≡ (ok tt, send_bytes bytes s))
unfolding send
send_lem p s = elim (encode_by-Encoded s.encoder p empty) [
  | inl (fr, e) ↦ (fr, rw e)
  | inr e ↦ ([], rw e)
]

-- What is sent on a session of the world stage: the frame of the packet.
pub send-frame :
    (p : Packet) (s : Session) (code : ℕ) (h : PacketHeaderType)
    → s.encoder ≡ world
    → world_code_mapping p.type ≡ some code
    → type_mapping p.type ≡ some h
    → send p s ≡ (ok tt, send_bytes (frame h code p.payload.bytes) s)
unfolding send encode_by
send-frame p s code h e known typed = rw e (
    ap (λ r. send_encoded r (record s { encoder = world }))
      (world_encode_lem p empty code h known typed))
