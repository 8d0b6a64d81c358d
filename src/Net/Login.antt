-- ===== src/Net/Login.antt =====
-- openrs/src/net/codec/handler/global/loginpackethandler.cpp, `SendLoginDetails`: what the client is
-- told of its player behind a login.
pub mod Block
pub mod Enter
pub mod Client
pub mod Wire
pub mod Quiet
pub mod Admits
pub mod Again
use openrs.Base.{
  ℕ, ◌+◌, ◌/◌, All, ◌%◌, ◌^◌, ◌<◌, ◌≡◌, refl, ap, ◌∙◌, List, [], ◌∷◌, ◌++◌, ltb, ◌||◌, ◌&&◌, Bool,
  if◌then◌else◌, M, ok, throws, throwing, arith, length, length-append, Bool-cases, inl, inr,
}
use openrs.Base.Bytes.{be_bytes}
use openrs.Common.Buffer.{Buffer, empty, fresh, put_data_be, put_string, append}
use openrs.Common.Buffer.Text.{IsText, put_string_lem}
use openrs.Net.Packet.{Packet, login_details}
use openrs.Net.Session.{Session, world, send, send_bytes, send_encoded, encode_by}
use openrs.Net.Encoder.{uint8}
use openrs.Net.Encoder.RoundTrip.{frame, frame_short, world_encode_lem}

-- What is read of the player; the identifier and the rights are `int`, of which the 32 bits are kept.
pub record Account : Type 0 where
  pub id : ℕ
  pub rights : ℕ
  pub username : List ℕ

-- The calls of `PutDataBE`, in their order, and the name behind them.
unfoldable pub login_details_buffer : ℕ → Account → Buffer
unfolding put_data_be put_string
login_details_buffer world_type player = put_string player.username (
    put_data_be 1 world_type (
      put_data_be 1 0 (
        put_data_be 1 0 (
          put_data_be 1 0 (
            put_data_be 1 world_type (
              put_data_be 2 player.id (
                put_data_be 1 0 (
                  put_data_be 1 1 (
                    put_data_be 1 0 (
                      put_data_be 1 0
                        (put_data_be 1 0 (put_data_be 1 player.rights empty))))))))))))

-- An `int` above a number that is not negative.
abbrev pub is_above : ℕ → ℕ → Bool
is_above limit v = ltb limit v && ltb v (2 ^ 31)

-- `SendLoginDetails`; `world_type` is that of the world 1.
unfoldable pub send_login_details : ℕ → Account → M Session (Unit {0})
unfolding login_details_buffer send
send_login_details world_type player =
    if is_above 255 player.rights || is_above 65535 player.id
    then throwing
    else send (record { type = login_details; payload = login_details_buffer world_type player })

-- The payload of the answer.
abbrev pub details_bytes : ℕ → Account → List ℕ
details_bytes world_type player =
    player.rights % 256
    ∷ 0
    ∷ 0
    ∷ 0
    ∷ 1
    ∷ 0
    ∷ (be_bytes 2 player.id ++ (world_type ∷ 0 ∷ 0 ∷ 0 ∷ world_type ∷ (player.username ++ 0 ∷ [])))

login_details_buffer_lem :
    (world_type : ℕ) (player : Account)
    → world_type < 256
    → All IsText player.username
    → login_details_buffer world_type player ≡ fresh (details_bytes world_type player)
unfolding login_details_buffer put_data_be be_bytes
login_details_buffer_lem world_type player hw text =
    let w : world_type / 256 ^ 0 % 256 ≡ world_type = omega arith in
    let r : player.rights / 256 ^ 0 % 256 ≡ player.rights % 256 = omega arith in
    rw (put_string_lem player.username _ text, w, r)

length-details_bytes :
    (world_type : ℕ) (player : Account)
    → length (details_bytes world_type player) ≡ length player.username + 14
unfolding be_bytes
length-details_bytes world_type player = omega (arith, length-append player.username (0 ∷ []))

send_details :
    (world_type : ℕ) (player : Account) (s : Session)
    → length player.username < 242
    → s.encoder ≡ world
    → send (record { type = login_details; payload = fresh (details_bytes world_type player) }) s
      ≡ (ok tt, send_bytes (2 ∷ (length player.username + 14) ∷ details_bytes world_type player) s)
unfolding send encode_by
send_details world_type player s short enc =
    let p : Packet = record {
      type = login_details;
      payload = fresh (details_bytes world_type player);
    } in
    let long : length (details_bytes world_type player) % 256 ≡ length player.username + 14 =
      omega (arith, length-details_bytes world_type player) in
    let sent : encode_by world p empty
        ≡ (ok tt, append (frame uint8 2 (details_bytes world_type player)) empty) =
      world_encode_lem p empty 2 uint8 refl refl in
    let s' : Session = record s { encoder = world } in
    rw enc (
      ap (λ r. send_encoded r s') sent
      ∙ ap (λ bytes. (ok tt, send_bytes bytes s'))
          (frame_short 2 (details_bytes world_type player) (omega arith)
            ∙ ap (λ n. 2 ∷ n ∷ details_bytes world_type player) long))

-- A player whose rights are no more than 255, whose identifier is no more than 65535, and whose name is a
-- text of less than 242 characters is sent, by the encoder of the world stage, one packet: its code
-- 2, the length in one byte, and the details with the lower bits of the rights and of the
-- identifier, which may be negative, and the name at their end. One with larger rights or a larger
-- identifier makes the call throw, with nothing sent.
pub send_login_details_lem :
    (world_type : ℕ) (player : Account) (s : Session)
    → world_type < 256
    → All IsText player.username
    → length player.username < 242
    → s.encoder ≡ world
    → send_login_details world_type player s ≡ (
        if is_above 255 player.rights || is_above 65535 player.id then (throws, s) else (
          ok tt,
          send_bytes (2 ∷ (length player.username + 14) ∷ details_bytes world_type player) s,
        ))
unfolding send_login_details
send_login_details_lem world_type player s hw text short enc =
    elim (Bool-cases (is_above 255 player.rights || is_above 65535 player.id)) [
      | inl e ↦ rw e
      | inr e ↦
          rw (e, login_details_buffer_lem world_type player hw text)
            (send_details world_type player s short enc)
    ]
