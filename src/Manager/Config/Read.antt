-- ===== src/Manager/Config/Read.antt =====
-- What a client makes of the variables that it is sent.
use openrs.Base.{
  ℕ, ◌+◌, ◌*◌, ◌/◌, ◌%◌, ◌^◌, ◌<◌, ◌≡◌, refl, ap₂, List, [], ◌∷◌, Option, none, some, ltb,
  Bool-cases, inl, inr, arith, true, false, ◌▷◌, ◌≤◌,
}
use openrs.Base.Bytes.{le_bytes, be_bytes}
use openrs.Common.Buffer.{
  empty, shift_positive, put_shifted_pos_data_be, put_shifted_pos_data_le, put_data_le,
}
use openrs.Net.Packet.{PacketType, Packet, config_1, config_2}
use openrs.Net.Session.{send}
use openrs.Manager.Config.{Config, config_id, send_config, send_config_1, send_config_2}

-- The client takes 128 off a byte that was shifted.
abbrev back : ℕ → ℕ
back c = (c + 128) % 256

-- The number of the variable, and its value.
unfoldable pub client_config : PacketType → List ℕ → Option (ℕ × ℕ)
client_config config_1 (a ∷ b ∷ c ∷ []) = some (back a + 256 * b, back c)
client_config config_2 (a ∷ b ∷ c ∷ d ∷ e ∷ f ∷ []) =
    some (256 * a + back b, c + 256 * (d + 256 * (e + 256 * f)))
client_config _ _ = none

config_id_lt : (id : Config) → config_id id < 65536
unfolding config_id
config_id_lt Config.k281 = omega arith
config_id_lt Config.clan_status = omega arith
config_id_lt Config.assist_status = omega arith
config_id_lt Config.filter_status = omega arith
config_id_lt Config.k1159 = omega arith
config_id_lt Config.k1160 = omega arith
config_id_lt Config.friend_chat_status = omega arith

abbrev Reads : Config → ℕ → Type 0
Reads id value =
    (p : Packet) × (send_config id value ≡ send p)
    × (client_config p.type p.payload.bytes ≡ some (config_id id, value))

unshifted :
    (n : ℕ)
    → n < 65536
    → back (shift_positive 2 n 128 % 256) + 256 * (shift_positive 2 n 128 / 256 % 256) ≡ n
unfolding shift_positive
unshifted n h = omega arith

unshifted_byte : (n : ℕ) → n ≤ 255 → back (shift_positive 1 n 128 % 256) ≡ n
unfolding shift_positive
unshifted_byte n h = omega arith

four_bytes :
    (v : ℕ)
    → v < 2 ^ 32
    → v % 256
        + 256 * (v / 256 % 256 + 256 * (v / 256 / 256 % 256 + 256 * (v / 256 / 256 / 256 % 256)))
      ≡ v
four_bytes v h = omega arith

pair_ends : (i j v w : ℕ) → i ≡ j → v ≡ w → ◌≡◌ {A = Option (ℕ × ℕ)} (some (i, v)) (some (j, w))
pair_ends i j v w e f = ap₂ (λ a b. some (a, b)) e f

large-Reads : (id : Config) (value : ℕ) → 255 < value → value < 2 ^ 32 → Reads id value
unfolding send_config send_config_2 client_config le_bytes be_bytes
large-Reads id value h k =
    let n = config_id id in
    let small : n < 65536 = config_id_lt id in
    let large : ltb 255 value ≡ true = ground arith in
    (
      record {
        type = config_2;
        payload = empty ▷ put_shifted_pos_data_be 2 n ▷ put_data_le 4 value;
      },
      rw large refl,
      pair_ends _ n _ value (omega (arith, unshifted n small)) (four_bytes value k),
    )

small-Reads : (id : Config) (value : ℕ) → value ≤ 255 → Reads id value
unfolding send_config send_config_1 client_config le_bytes be_bytes
small-Reads id value h =
    let n = config_id id in
    let small : n < 65536 = config_id_lt id in
    let low : ltb 255 value ≡ false = ground arith in
    (
      record {
        type = config_1;
        payload = empty ▷ put_shifted_pos_data_le 2 n ▷ put_shifted_pos_data_le 1 value;
      },
      rw low refl,
      pair_ends _ n _ value (unshifted n small) (unshifted_byte value h),
    )

-- `SendConfig` sends one packet, by which the client gets the number of the variable and its value, if
-- that has 32 bits, whether it fits a byte or not.
pub send_config-read :
    (id : Config) (value : ℕ)
    → value < 2 ^ 32
    → (p : Packet) × (send_config id value ≡ send p)
      × (client_config p.type p.payload.bytes ≡ some (config_id id, value))
send_config-read id value h = elim (Bool-cases (ltb 255 value)) [
  | inl e ↦ large-Reads id value (ground (arith, e)) h
  | inr e ↦ small-Reads id value (ground (arith, e))
]
