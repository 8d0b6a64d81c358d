-- ===== src/Net/Login/Block.antt =====
-- openrs/src/net/codec/handler/global/loginpackethandler.cpp, `HandleLoginWorld`: the encrypted blocks of
-- a login and the checks on them. RSA and XTEA are parameters.
use openrs.Base.{
  ℕ, zero, suc, ◌+◌, ◌-◌, ◌%◌, List, Bool, not, ◌||◌, ◌==◌, ltb, if◌then◌else◌, M, Outcome, ok,
  fail, throws, undefined, throwing, failing, ◌>>=◌, ◌>>◌, return, length, take,
}
use openrs.Common.Buffer.{Buffer, fresh, get_be, get_le, get_string, seek, seek_cur, remaining}
use openrs.Common.Buffer.Read.{ahead}
use openrs.Net.Packet.{PacketType, error_session, error_invalid_login, client_outdated}
use openrs.Net.Session.{Session, send_op_code}
use openrs.Net.Handler.{with_read}
use openrs.Cache.Manager.{Cache, Store, get_store, get_type_count}

-- The ciphers: `ApplyFunction` of the public key in the configuration and `Encode` behind it, and
-- `DecryptXTEA` of whole blocks under a key.
pub record Ciphers : Type 0 where
  pub decrypt_rsa : List ℕ → List ℕ
  pub decrypt_xtea : List ℕ → List ℕ → List ℕ

-- `session->SendOpCode(…); return;`. A `return` out of `HandleLoginWorld` is the outcome `fail`.
unfoldable pub refuse : {A : Type 0} → PacketType → M Session A
unfolding send_op_code
refuse t = send_op_code t >> failing

unfoldable pub skip : ℕ → M Buffer (Unit {0})
unfolding seek
skip n b = (ok tt, seek seek_cur n b)

-- What the RSA block holds: the keys of the XTEA block, and the password.
pub record Secrets : Type 0 where
  pub keys : List ℕ
  pub password : List ℕ

unfoldable pub read_password : List ℕ → Buffer → M Session Secrets
unfolding get_string refuse
read_password keys b = with_read (get_string b) (refuse error_invalid_login) λ password rest.
    if ltb (length password) 3 || ltb 30 (length password)
    then refuse error_invalid_login
    else return (record { keys = keys; password = password })

unfoldable pub read_keys : Buffer → M Session Secrets
unfolding get_le read_password remaining skip
read_keys b =
    if ltb (remaining b) 16
    then refuse error_session
    else with_read (get_le 8 (skip 16 b).1) (refuse error_session) (λ zeros rest.
      if not (zeros == 0) then refuse error_session else read_password (take 16 (ahead b)) rest)

-- The decrypted RSA block.
unfoldable pub read_secrets : Buffer → M Session Secrets
unfolding read_keys
read_secrets b =
    with_read (get_le 1 b) (refuse error_session)
      λ header rest. if not (header == 10) then refuse error_session else read_keys rest

-- What the XTEA block tells of the player.
pub record Credentials : Type 0 where
  pub password : List ℕ
  pub username : List ℕ
  pub display_mode : ℕ
  pub screen_width : ℕ
  pub screen_height : ℕ

unfoldable pub read_display : M Buffer (ℕ × ℕ × ℕ)
unfolding get_le get_be
read_display = do mode ← get_le 1; width ← get_be 2; height ← get_be 2; return (mode, width, height)

unfoldable pub skip_string_if : Bool → M Buffer (Unit {0})
unfolding get_string
skip_string_if there = if there then (do _ ← get_string; return tt) else return tt

-- From behind the screen to the hashes of the cache; every failure is answered alike.
unfoldable pub skip_settings : M Buffer (Unit {0})
unfolding skip get_string get_le skip_string_if
skip_settings = do
  skip 1
  skip 24
  _ ← get_string
  skip 4
  block_length ← get_le 1
  skip block_length
  skip 4
  skip 8
  has_additional_info ← get_le 1
  skip_string_if (has_additional_info == 1)
  skip 1
  skip 1
  skip 1
  skip 1
  skip 4
  _ ← get_string
  skip 1

-- The loop over the hashes of the cache: `n` of them from `index` on.
abbrev pub check_crc :
    (Buffer → M Session (Unit {0})) → Buffer → Outcome Store → M Session (Unit {0})
check_crc more b (ok store) =
    with_read (get_be 4 b) (refuse error_session)
      λ crc rest. if not (store.crc == crc) then refuse client_outdated else more rest
check_crc more b fail = failing
check_crc more b throws = throwing
check_crc more b undefined = λ s. (undefined, s)

unfoldable pub check_crcs : ℕ → ℕ → Cache → Buffer → M Session (Unit {0})
unfolding get_be refuse get_store
check_crcs zero index cache b = return tt
check_crcs (suc n) index cache b =
    check_crc (check_crcs n (index + 1) cache) b (get_store index cache)

-- `std::min(32, GetTypeCount())`.
abbrev pub crc_count : Cache → ℕ
crc_count cache = if ltb (get_type_count cache) 32 then get_type_count cache else 32

unfoldable pub read_settings : Cache → List ℕ → List ℕ → Buffer → M Session Credentials
unfolding read_display skip_settings check_crcs
read_settings cache password username b =
    with_read (read_display b) (refuse error_session) λ display rest.
      with_read (skip_settings rest) (refuse error_session) λ _ hashes. do
        check_crcs (crc_count cache) 0 cache hashes
        return (record {
          password = password;
          username = username;
          display_mode = display.0;
          screen_width = display.1;
          screen_height = display.2;
        })

-- The decrypted XTEA block.
unfoldable pub read_credentials : Cache → List ℕ → Buffer → M Session Credentials
unfolding read_settings
read_credentials cache password b = with_read (get_le 1 b) (refuse error_session) λ header rest.
    if not (header == 1)
    then refuse error_session
    else with_read (get_string rest) (refuse error_invalid_login)
        (λ username more. read_settings cache password username more)

-- The XTEA block: as many whole blocks of eight bytes as there are.
abbrev pub xtea_block : Buffer → List ℕ
xtea_block b = take (remaining b - remaining b % 8) (ahead b)

-- `HandleLoginWorld` up to the search for the player. An RSA block that is cut short gets no answer.
unfoldable pub read_login : Ciphers → Cache → Buffer → M Session Credentials
unfolding read_secrets read_credentials
read_login ciphers cache b = with_read (get_be 2 (skip 1 b).1) failing λ rsa_block_size rest.
    if ltb (remaining rest) rsa_block_size then refuse error_session else (do
      secrets ← read_secrets (fresh (ciphers.decrypt_rsa (take rsa_block_size (ahead rest))))
      read_credentials cache secrets.password
          (fresh (ciphers.decrypt_xtea secrets.keys (xtea_block (skip rsa_block_size rest).1))))
