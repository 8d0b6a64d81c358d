-- ===== src/Net/Encoder/RoundTrip.antt =====
-- A packet that `WorldEncoder::Encode` wrote is read back by the client.
pub mod Stream
use openrs.Base.{
  ℕ, ◌+◌, ◌*◌, ◌/◌, ◌%◌, ◌≤◌, ◌<◌, ◌≡◌, ◌≢◌, refl, sym, ap, ◌∙◌, List, [], ◌∷◌, ◌++◌, Option, none,
  some, leb, if◌then◌else◌, length, append_assoc, append-nil, ap₂, ◌^◌, take-append, drop-append,
  length-take, length-append, arith, ok,
}
use openrs.Base.Bytes.{le_bytes, be_bytes}
use openrs.Common.Buffer.{Buffer, size, append}
use openrs.Net.Packet.{PacketType, Packet}
use openrs.Net.Encoder.Client.{
  split, read_code, read_payload, client_read, client_type-code, received, read_body,
}
use openrs.Net.Encoder.{
  PacketHeaderType, k_none, uint8, uint16, world_code_mapping, type_mapping, put_payload,
  put_op_code, put_header, world_encode,
}

-- The bytes of a packet as `WorldEncoder::Encode` appends them.
pub op_code_bytes : ℕ → List ℕ
op_code_bytes code = if leb 128 code then 128 ∷ code ∷ [] else code ∷ []

pub header_bytes : PacketHeaderType → ℕ → List ℕ
header_bytes k_none n = []
header_bytes uint8 n = (n % 256) ∷ []
header_bytes uint16 n = (n / 256 % 256) ∷ (n % 256) ∷ []

put_op_code_lem :
    (code : ℕ) (b : Buffer) → code < 255 → put_op_code code b ≡ append (op_code_bytes code) b
unfolding put_op_code op_code_bytes le_bytes
put_op_code_lem code b h =
    let low : code % 256 ≡ code = omega arith in
    let high : (code / 256 % 256 + 128) % 256 ≡ 128 = omega arith in
    rw (low, high) (ground (arith, append_assoc b.bytes (128 ∷ []) (code ∷ [])))

put_header_lem :
    (h : PacketHeaderType) (n : ℕ) (b : Buffer) → put_header h n b ≡ append (header_bytes h n) b
unfolding put_header header_bytes be_bytes
put_header_lem k_none n b = ap (λ xs. record b { bytes = xs }) (sym (append-nil b.bytes))
put_header_lem uint8 n b = ap (λ x. append (x ∷ []) b) {x = n / 256 ^ 0 % 256} (omega arith)
put_header_lem uint16 n b =
    ap₂ (λ x y. append (x ∷ y ∷ []) b) {x = n / 256 ^ 1 % 256} {u = n / 256 ^ 0 % 256} (omega arith)
      (omega arith)

pub put_payload_lem : (p : Packet) (b : Buffer) → put_payload p b ≡ append p.payload.bytes b
put_payload_lem p b = go p.payload.bytes refl
  where
    go : (xs : List ℕ) → p.payload.bytes ≡ xs → put_payload p b ≡ append p.payload.bytes b
    go [] e = rw e (ap (λ ys. record b { bytes = ys }) (sym (append-nil b.bytes)))
    go (x ∷ xs) e = ground arith

pub frame : PacketHeaderType → ℕ → List ℕ → List ℕ
unfolding op_code_bytes header_bytes
frame h code payload = op_code_bytes code ++ (header_bytes h (length payload) ++ payload)

-- A frame with one byte for the code and one for the length.
pub frame_short :
    (code : ℕ) (payload : List ℕ)
    → code < 128
    → frame uint8 code payload ≡ code ∷ (length payload % 256) ∷ payload
unfolding frame op_code_bytes header_bytes
frame_short code payload h = ground arith

pub world_encode_lem :
    (p : Packet) (b : Buffer) (code : ℕ) (h : PacketHeaderType)
    → world_code_mapping p.type ≡ some code
    → type_mapping p.type ≡ some h
    → world_encode p b ≡ (ok tt, append (frame h code p.payload.bytes) b)
unfolding world_encode frame
world_encode_lem p b code h known typed =
    rw
      (
        known,
        typed,
        put_op_code_lem code b (client_type-code p.type code known).1,
        put_header_lem h (size p.payload) (append (op_code_bytes code) b),
        put_payload_lem,
      )
      (simp append_assoc)

-- The payloads whose length the header can hold.
abbrev pub Fits : PacketHeaderType → ℕ → Type 0
Fits k_none n = Unit
Fits uint8 n = n < 256
Fits uint16 n = n < 65536

pub read_code-op_code :
    (code : ℕ) (xs : List ℕ) → code < 255 → read_code (op_code_bytes code ++ xs) ≡ some (code, xs)
unfolding read_code op_code_bytes
read_code-op_code code xs h = ground arith

split_lem :
    (n : ℕ) (payload rest : List ℕ)
    → length payload ≡ n
    → split n (payload ++ rest) ≡ some (payload, rest)
unfolding split
split_lem n payload rest e =
    let enough : n ≤ length (payload ++ rest) = omega (arith, length-append payload rest) in
    ground (arith, take-append payload rest n e, drop-append payload rest n e)

pub read_payload-header :
    (h : PacketHeaderType) (payload rest : List ℕ)
    → Fits h (length payload)
    → read_payload h (length payload) (header_bytes h (length payload) ++ (payload ++ rest))
      ≡ some (payload, rest)
unfolding read_payload header_bytes
read_payload-header k_none payload rest f = split_lem (length payload) payload rest refl
read_payload-header uint8 payload rest f =
    split_lem (length payload % 256) payload rest (omega arith)
read_payload-header uint16 payload rest f =
    split_lem (length payload / 256 % 256 * 256 + length payload % 256) payload rest (omega arith)

client_read-frame :
    (t : PacketType) (code : ℕ) (h : PacketHeaderType) (payload rest : List ℕ)
    → world_code_mapping t ≡ some code
    → type_mapping t ≡ some h
    → client_read (length payload) (frame h code payload ++ rest)
      ≡ received t
          (read_payload h (length payload) (header_bytes h (length payload) ++ (payload ++ rest)))
unfolding client_read frame
client_read-frame t code h payload rest known typed =
    let (named, small) = client_type-code t code known in
    rw (
      append_assoc (op_code_bytes code) (header_bytes h (length payload) ++ payload) rest,
      append_assoc (header_bytes h (length payload)) payload rest,
      read_code-op_code code (header_bytes h (length payload) ++ (payload ++ rest)) small,
      client_read,
      named,
      typed,
      read_body,
    )

-- Appended at any place of the output, a packet of the world server that has a code and a header
-- type is read back by the client as it was, and what follows it is left alone, provided that the
-- payload fits its header.
pub client_read-world_encode :
    (p : Packet) (b : Buffer) (rest : List ℕ) (code : ℕ) (h : PacketHeaderType)
    → world_code_mapping p.type ≡ some code
    → type_mapping p.type ≡ some h
    → Fits h (size p.payload)
    → (fr : List ℕ) × (world_encode p b ≡ (ok tt, append fr b))
      × (client_read (size p.payload) (fr ++ rest) ≡ some (p.type, p.payload.bytes, rest))
client_read-world_encode p b rest code h known typed f = (
  frame h code p.payload.bytes,
  world_encode_lem p b code h known typed,
  client_read-frame p.type code h p.payload.bytes rest known typed
      ∙ ap (received p.type) (read_payload-header h p.payload.bytes rest f),
)

split-length : (n : ℕ) (xs ys zs : List ℕ) → split n xs ≡ some (ys, zs) → length ys ≡ n
unfolding split
split-length n xs ys zs e = ground (arith, length-take n xs)

received-some :
    (t : PacketType) (o : Option (List ℕ × List ℕ)) (ys zs : List ℕ)
    → received t o ≡ some (t, ys, zs)
    → o ≡ some (ys, zs)
received-some t none ys zs e = cc
received-some t (some (a, b)) ys zs e = ground arith

-- A payload of 256 bytes and more behind a one-byte header is not read back by the client.
pub client_read-overflow :
    (p : Packet) (b : Buffer) (rest : List ℕ) (code : ℕ)
    → world_code_mapping p.type ≡ some code
    → type_mapping p.type ≡ some uint8
    → 256 ≤ size p.payload
    → (fr : List ℕ) × (world_encode p b ≡ (ok tt, append fr b))
      × (client_read (size p.payload) (fr ++ rest) ≢ some (p.type, p.payload.bytes, rest))
unfolding read_payload header_bytes
client_read-overflow p b rest code known typed long = (
  frame uint8 code p.payload.bytes,
  world_encode_lem p b code uint8 known typed,
  λ e. absurd (
      omega (
        arith,
        split-length (size p.payload % 256) (p.payload.bytes ++ rest) p.payload.bytes rest (
            received-some p.type _ p.payload.bytes rest
              (sym (client_read-frame p.type code uint8 p.payload.bytes rest known typed) ∙ e)),
      )),
)
