-- ===== src/Net/Encoder/RoundTrip/Stream.antt =====
-- How the client takes a stream of packets apart.
use openrs.Base.{
  ℕ, zero, suc, ◌+◌, ◌<◌, ◌≡◌, refl, sym, ap, ap₂, ◌∙◌, inl, inr, Option-cases, List, [], ◌∷◌, ◌++◌,
  append_assoc, Option, none, some, length, arith,
}
use openrs.Net.Packet.{PacketType}
use openrs.Net.Packet
use openrs.Net.Encoder.{PacketHeaderType, k_none, uint8, uint16, world_code_mapping, type_mapping}
use openrs.Net.Encoder.Client.{read_code, client_type, read_body, read_payload, client_type-code}
use openrs.Net.Encoder.RoundTrip.{
  frame, header_bytes, op_code_bytes, Fits, read_code-op_code, read_payload-header,
}

-- The lengths, by the protocol, of the packets that go without a header.
unfoldable pub client_size : PacketType → ℕ
client_size Packet.music_effect = 6
client_size Packet.interface_tab = 23
client_size Packet.run_energy = 1
client_size Packet.interface_window_pane = 19
client_size Packet.interface_component_setting = 12
client_size Packet.config_2 = 6
client_size Packet.config_global_2 = 6
client_size Packet.config_game_bar_private = 1
client_size Packet.config_file_2 = 6
client_size Packet.config_game_bar_other = 2
client_size Packet.interface_component_animation = 8
client_size Packet.config_1 = 3
client_size Packet.config_file_1 = 3
client_size Packet.interface_hide = 5
client_size Packet.music = 4
client_size Packet.player_skill = 6
client_size Packet.config_global_1 = 3
client_size Packet.create_tile = 3
client_size Packet.item_look = 1
client_size Packet.custom_packet_161 = 1
client_size _ = 0

abbrev size_known : Option PacketType → ℕ
size_known none = 0
size_known (some t) = client_size t

abbrev pub Said : Type 0
Said = PacketType × List ℕ

-- One packet off the stream, without being told its length.
unfoldable pub client_next : List ℕ → Option (PacketType × List ℕ × List ℕ)
unfolding read_code client_type read_body client_size
client_next xs = elim (read_code xs) [
  | none ↦ none
  | some (code, rest) ↦ read_body (client_type code) (size_known (client_type code)) rest
]

abbrev pub hear_more : Said → Option (List Said × List ℕ) → Option (List Said × List ℕ)
hear_more p none = none
hear_more p (some (ps, rest)) = some (p ∷ ps, rest)

-- So many packets off the stream, and what follows them.
unfoldable pub hear : ℕ → List ℕ → Option (List Said × List ℕ)
unfolding client_next
hear zero xs = some ([], xs)
hear (suc n) xs = elim (client_next xs) [
  | none ↦ none
  | some (t, payload, rest) ↦ hear_more (t, payload) (hear n rest)
]

-- A payload that the client takes as it was sent.
abbrev pub Framed : PacketHeaderType → PacketType → ℕ → Type 0
Framed k_none t n = n ≡ client_size t
Framed uint8 t n = n < 256
Framed uint16 t n = n < 65536

Framed-Fits : (h : PacketHeaderType) (t : PacketType) (n : ℕ) → Framed h t n → Fits h n
Framed-Fits k_none t n f = tt
Framed-Fits uint8 t n f = f
Framed-Fits uint16 t n f = f

read_payload-Framed :
    (h : PacketHeaderType) (t : PacketType) (payload rest : List ℕ)
    → Framed h t (length payload)
    → read_payload h (client_size t) (header_bytes h (length payload) ++ (payload ++ rest))
      ≡ some (payload, rest)
unfolding read_payload
read_payload-Framed k_none t payload rest f =
    ap (λ n. read_payload k_none n (header_bytes k_none (length payload) ++ (payload ++ rest)))
      (sym f)
    ∙ read_payload-header k_none payload rest tt
read_payload-Framed uint8 t payload rest f = read_payload-header uint8 payload rest f
read_payload-Framed uint16 t payload rest f = read_payload-header uint16 payload rest f

client_next-frame :
    (t : PacketType) (code : ℕ) (h : PacketHeaderType) (payload rest : List ℕ)
    → world_code_mapping t ≡ some code
    → type_mapping t ≡ some h
    → Framed h t (length payload)
    → client_next (frame h code payload ++ rest) ≡ some (t, payload, rest)
unfolding client_next frame
client_next-frame t code h payload rest known typed f =
    let (named, small) = client_type-code t code known in
    rw
      (
        append_assoc (op_code_bytes code) (header_bytes h (length payload) ++ payload) rest,
        append_assoc (header_bytes h (length payload)) payload rest,
        read_code-op_code code (header_bytes h (length payload) ++ (payload ++ rest)) small,
        client_next,
        named,
        typed,
        read_body,
        read_payload-Framed h t payload rest f,
      )
      refl

pub hear-frame :
    (t : PacketType) (code : ℕ) (h : PacketHeaderType) (payload rest : List ℕ)
    → world_code_mapping t ≡ some code
    → type_mapping t ≡ some h
    → Framed h t (length payload)
    → hear 1 (frame h code payload ++ rest) ≡ some ((t, payload) ∷ [], rest)
unfolding hear
hear-frame t code h payload rest known typed f =
    rw (hear, client_next-frame t code h payload rest known typed f) refl

some_pair :
    (ps qs : List Said) (xs ys : List ℕ)
    → ◌≡◌ {A = Option (List Said × List ℕ)} (some (ps, xs)) (some (qs, ys))
    → (ps ≡ qs) × (xs ≡ ys)
some_pair ps qs xs ys e = (cc, cc)

hear-suc :
    (n : ℕ) (xs rest payload : List ℕ) (t : PacketType)
    → client_next xs ≡ some (t, payload, rest)
    → hear (suc n) xs ≡ hear_more (t, payload) (hear n rest)
unfolding hear
hear-suc n xs rest payload t e = rw (hear, e) refl

hear-zero : (xs : List ℕ) → some ([], xs) ≡ hear 0 xs
unfolding hear
hear-zero xs = refl

some-none : {x : List Said × List ℕ} → none ≡ some x → ⊥
some-none e = cc

hear-none : (n : ℕ) (xs : List ℕ) → client_next xs ≡ none → hear (suc n) xs ≡ none
unfolding hear
hear-none n xs e = rw (hear, e) refl

-- What is heard of one part of a stream, and then of the next one.
pub hear-append :
    (n m : ℕ) (xs ys zs : List ℕ) (ps qs : List Said)
    → hear n xs ≡ some (ps, ys)
    → hear m ys ≡ some (qs, zs)
    → hear (n + m) xs ≡ some (ps ++ qs, zs)
hear-append zero m xs ys zs ps qs e f =
    let (none_said, same) = some_pair [] ps xs ys (hear-zero xs ∙ e) in
    ap₂ hear {x = 0 + m} {y = m} (omega arith) same
    ∙ f
    ∙ ap (λ os. some (os ++ qs, zs)) {x = []} {y = ps} none_said
hear-append (suc n) m xs ys zs ps qs e f = elim (Option-cases (client_next xs)) [
  | inl nothing ↦ absurd (some-none (sym (hear-none n xs nothing) ∙ e))
  | inr ((t, payload, rest), next) ↦
      let step = hear-suc n xs rest payload t next in
      elim (Option-cases (hear n rest)) [
        | inl nothing ↦
            absurd (some-none (sym (ap (hear_more (t, payload)) nothing) ∙ sym step ∙ e))
        | inr ((os, us), more) ↦
            let (said, same) =
              some_pair ((t, payload) ∷ os) ps us ys
                (sym (ap (hear_more (t, payload)) more) ∙ sym step ∙ e) in
            ap (λ k. hear k xs) {x = suc n + m} {y = suc (n + m)} (omega arith)
            ∙ hear-suc (n + m) xs rest payload t next
            ∙ ap (hear_more (t, payload))
                (hear-append n m rest us zs os qs more (ap (hear m) same ∙ f))
            ∙ ap (λ rs. some (rs ++ qs, zs)) {x = (t, payload) ∷ os} {y = ps} said
      ]
]
