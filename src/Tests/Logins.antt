-- ===== src/Tests/Logins.antt =====
-- Runs of the theorems on logins and on the server as a whole. The ciphers change nothing, and the
-- database is the list of its players.
use openrs.Base.{
  ℕ, ◌+◌, ◌%◌, ◌^◌, ◌≡◌, List, [], ◌∷◌, ◌++◌, ◌⊎◌, true, false, All, some, ok, Outcome, throws,
  subst, ap, sym, ◌∙◌, refl, replicate, All-replicate, zero, suc, length, arith, ◌==◌,
}
use openrs.Base.Bytes.{be_bytes, le_bytes, IsByte, be_value, le_value}
use openrs.Common.Buffer.{Buffer, fresh, get_data}
use openrs.Common.Buffer.Ahead.{At, At-fresh}
use openrs.Common.Buffer.Text.{IsText}
use openrs.Net.Packet.{Packet, login_world}
use openrs.Net.Session.{Session, new_session, grab, world, set_stage, send_bytes}
use openrs.Net.Handler.{done}
use openrs.Net.Login.Block.{Ciphers, Credentials, Secrets, read_login}
use openrs.Net.Login.Client.{Settings, Fits}
use openrs.Net.Login.Wire.{Hashes, credentials_bytes, secret_bytes, login_bytes, read_login-Client}
use openrs.Net.Login.Enter.{Player, Realm, Hall, new_player, register, admit, handle_login_world}
use openrs.Net.Login.Admits.{Refused, Entered, handle_login_world-Admits}
use openrs.Net.Login.Again.{register-admit}
use openrs.Net.Grab.{go_on, handle_request}
use openrs.Net.Grab.Chunks.{unchunk}
use openrs.Net.Grab.Keys.{
  Sealing, IsDigest, HasDigests, send_ukeys, table_bytes, seal_bytes, send_ukeys_lem,
}
use openrs.Net.Serving.{Site, Stands, server_of, handle_request-Stands}
use openrs.Common.Stream.{Stream}
use openrs.Cache.Index.Layout.{three_bytes, header_bytes}
use openrs.Cache.Index.Finds.{end, link}
use openrs.Cache.Manager.{Store, get_store}
use openrs.Game.World.{find}
use openrs.Net.Input.Keeps.{ServerKeeps}
use openrs.Net.Serving.Keeps.{server_of-ServerKeeps}
use openrs.Tests.Buffers.{hi, hi-IsText}
use openrs.Tests.Caches.{cache}

abbrev clear_text : Ciphers
clear_text = record { decrypt_rsa = λ x. x; decrypt_xtea = λ k x. x }

-- `pass`.
abbrev pass : List ℕ
pass = b'p' ∷ b'a' ∷ b's' ∷ b's' ∷ []

pass-IsText : All IsText pass
pass-IsText = (
  (omega arith, ground arith, ground arith),
  (
    (omega arith, ground arith, ground arith),
    ((omega arith, ground arith, ground arith), ((omega arith, ground arith, ground arith), tt)),
  ),
)

abbrev secrets : Secrets
secrets = record { keys = replicate 16 7; password = pass }

abbrev credentials : Credentials
credentials = record {
  password = pass;
  username = hi;
  display_mode = 2;
  screen_width = 800;
  screen_height = 600;
}

abbrev settings : Settings
settings = record {
  byte = 1;
  bytes = replicate 24 0;
  settings = hi;
  int_1 = replicate 4 0;
  block = 9 ∷ 9 ∷ [];
  int_2 = replicate 4 0;
  long = replicate 8 0;
  additional_info = some hi;
  byte_1 = 0;
  byte_2 = 0;
  byte_3 = 0;
  byte_4 = 0;
  int_3 = replicate 4 0;
  string = hi;
  last_byte = 0;
}

settings-Fits : Fits settings
settings-Fits = record {
  bytes = refl;
  settings = hi-IsText;
  int_1 = refl;
  block = omega arith;
  int_2 = refl;
  long = refl;
  additional_info = hi-IsText;
  int_3 = refl;
  string = hi-IsText;
}

-- Four bytes behind the credentials fill the last block of eight.
abbrev xtea : List ℕ
xtea = credentials_bytes credentials settings (5 ∷ []) ++ (0 ∷ 0 ∷ 0 ∷ 0 ∷ [])

xtea-whole : length xtea % 8 ≡ 0
unfolding be_bytes
xtea-whole = refl

abbrev rsa : List ℕ
rsa = secret_bytes secrets ++ (3 ∷ [])

abbrev payload : Buffer
payload = fresh (login_bytes 0 rsa xtea)

length-xtea : length xtea ≡ 80
unfolding be_bytes
length-xtea = refl

length-rsa : length rsa ≡ 31
unfolding le_bytes
length-rsa = refl

length-payload : length payload.bytes ≡ 114
unfolding be_bytes le_bytes
length-payload = refl

payload-At : At payload (login_bytes 0 rsa xtea)
payload-At = At-fresh (login_bytes 0 rsa xtea) (omega (arith, length-payload))

cache-Hashes : Hashes cache 0 (5 ∷ [])
unfolding get_store
cache-Hashes = ((_, refl, refl, omega arith), tt)

read_login-Client_example :
    read_login clear_text cache payload new_session ≡ (ok credentials, new_session)
read_login-Client_example =
    read_login-Client clear_text cache 0 rsa xtea (3 ∷ []) (0 ∷ 0 ∷ 0 ∷ 0 ∷ []) secrets credentials
      settings (5 ∷ []) payload new_session payload-At (omega (arith, length-rsa)) xtea-whole refl
      refl (omega (arith, length-rsa)) (omega (arith, length-xtea))
      (refl, pass-IsText, omega arith, omega arith) refl (hi-IsText, omega arith, omega arith)
      settings-Fits cache-Hashes refl

-- The database gives a player the next number.
abbrev stored : Player → List Player → Player
stored player players = record player {
  account = record (player.account) { id = length players + 1 };
}

abbrev realm : Realm (List Player)
realm = record {
  ciphers = clear_text;
  cache = cache;
  get_model = λ name players. players;
  create_model = λ player players. (stored player players, stored player players ∷ players);
  encode_password = λ password salt. salt ++ password;
  starting_x = 3222;
  starting_y = 3222;
  starting_z = 0;
  random_salt = 1 ∷ 2 ∷ [];
  random_bool = true;
  random_skin = 300;
  world_type = 1;
  login_event = λ player. done;
}

abbrev hall : Hall (List Player)
hall = record { session = new_session; players = []; database = [] }

abbrev login_packet : Packet
login_packet = record { type = login_world; payload = payload }

handle_login_world-Admits_example :
    Refused hall (handle_login_world realm login_packet hall).1
    ⊎ Entered realm login_packet hall (handle_login_world realm login_packet hall).1
handle_login_world-Admits_example = handle_login_world-Admits realm login_packet hall

-- The player that the registration stores.
abbrev first_player : Player
first_player = stored (new_player realm credentials) []

abbrev next_hall : Hall (List Player)
next_hall = record {
  session = set_stage grab new_session;
  players = [];
  database = first_player ∷ [];
}

stored_first : (register realm credentials hall).0 ≡ ok first_player
unfolding register
stored_first = refl

register-admit_example :
    admit
      (record realm { random_salt = 9 ∷ []; random_bool = false; random_skin = 4 })
      credentials
      next_hall
    ≡ (ok first_player, next_hall)
register-admit_example =
    register-admit realm (9 ∷ []) false 4 credentials credentials hall next_hall first_player
      (λ player db. (refl, refl)) stored_first refl refl

-- The login of a new player ends in the world stage, as its first player.
handle_login_world_test :
    let h = (handle_login_world realm login_packet hall).1 in
    (h.session.encoder ≡ world) × (h.session.player_index ≡ 0) × (h.database ≡ first_player ∷ [])
unfolding handle_login_world be_bytes le_bytes be_value le_value new_session get_data
handle_login_world_test = (refl, refl, refl)

abbrev sealing : Sealing
sealing = record { whirlpool = λ bytes. replicate 64 1; apply_rsa = λ bytes. replicate 65 2 }

cache-HasDigests : HasDigests cache
unfolding get_store find
cache-HasDigests zero store e =
    subst IsDigest
      (ap (λ (r : Outcome Store). elim r [ ok x ↦ x.whirlpool | _ ↦ replicate 64 3 ]) e)
      (refl, All-replicate IsByte 64 3 (omega arith))
cache-HasDigests (suc id) store e =
    let other : (suc id == 0) ≡ false = ground arith in
    let missing : get_store (suc id) cache ≡ throws = rw (get_store, other) refl in
    subst IsDigest
      (ap (λ (r : Outcome Store). elim r [ ok x ↦ x.whirlpool | _ ↦ replicate 64 3 ])
        (sym missing ∙ e))
      (refl, All-replicate IsByte 64 3 (omega arith))

abbrev grab_session : Session
grab_session = set_stage grab new_session

send_ukeys_lem_example :
    (chunks : List ℕ) × (send_ukeys sealing cache grab_session ≡ (
      ok tt,
      send_bytes
          (le_bytes 1 255
            ++ be_bytes 4 255
            ++ le_bytes 1 0
            ++ be_bytes 4
                (length (table_bytes cache ++ seal_bytes sealing (table_bytes cache)) % 2 ^ 32)
            ++ chunks)
          grab_session,
    ))
    × (unchunk
          (length (
            le_bytes 1 255
            ++ be_bytes 4 255
            ++ le_bytes 1 0
            ++ be_bytes 4
                (length (table_bytes cache ++ seal_bytes sealing (table_bytes cache)) % 2 ^ 32)))
          chunks
        ≡ table_bytes cache ++ seal_bytes sealing (table_bytes cache))
send_ukeys_lem_example =
    send_ukeys_lem sealing cache grab_session (omega arith) cache-HasDigests
      (All-replicate IsByte 65 2 (omega arith)) (omega arith) refl

-- An archive of three bytes that is not compressed, with its head.
abbrev index_stream : Stream
index_stream = record {
  bytes = replicate 6 0 ++ (three_bytes 8 ++ three_bytes 1);
  position = 0;
  failed = false;
}

abbrev data_stream : Stream
data_stream = record {
  bytes = replicate 520 0 ++ (header_bytes 1 0 0 2 ++ 0 ∷ 0 ∷ 0 ∷ 0 ∷ 3 ∷ 10 ∷ 20 ∷ 30 ∷ []);
  position = 0;
  failed = false;
}

length-data_stream : length data_stream.bytes ≡ 536
unfolding be_bytes
length-data_stream = refl

archive-Stands : Stands index_stream data_stream 1 (0 ∷ 0 ∷ 0 ∷ 0 ∷ 3 ∷ 10 ∷ 20 ∷ 30 ∷ [])
archive-Stands = record {
  block = 1;
  behind = [];
  entry = refl;
  numbered = omega arith;
  short = omega arith;
  first = omega arith;
  within = omega (arith, length-data_stream);
  few_blocks = omega (arith, length-data_stream);
  small = omega arith;
  chain =
      link 0 2 (0 ∷ 0 ∷ 0 ∷ 0 ∷ 3 ∷ 10 ∷ 20 ∷ 30 ∷ []) [] [] (omega arith) (omega arith)
        (omega arith) (omega arith) refl refl (omega arith) end refl;
}

abbrev store : Store
store = record { crc = 5; revision = 1; whirlpool = replicate 64 3; stream = some index_stream }

abbrev site : Site (List Player)
site = record {
  keys = [];
  sealing = sealing;
  realm = record realm {
    cache = record {
      data_stream = some data_stream;
      main_index = some index_stream;
      indexes = (2, store) ∷ [];
    };
  };
  players = [];
  database = [];
  screen_event = λ _ _ _. done;
}

store_there : get_store 2 site.realm.cache ≡ ok store
unfolding get_store
store_there = refl

handle_request-Stands_example :
    (chunks : List ℕ) × (handle_request (server_of site) 1 2 (0 ∷ 0 ∷ 0 ∷ 1 ∷ []) grab_session ≡ (
      ok go_on,
      send_bytes
          (le_bytes 1 2
            ++ le_bytes 4 (le_value (0 ∷ 0 ∷ 0 ∷ 1 ∷ []))
            ++ le_bytes 1 0
            ++ le_bytes 4 (le_value (0 ∷ 0 ∷ 0 ∷ 3 ∷ []))
            ++ chunks)
          grab_session,
    ))
    × (unchunk
          (length (
            le_bytes 1 2
            ++ le_bytes 4 (le_value (0 ∷ 0 ∷ 0 ∷ 1 ∷ []))
            ++ le_bytes 1 0
            ++ le_bytes 4 (le_value (0 ∷ 0 ∷ 0 ∷ 3 ∷ []))))
          chunks
        ≡ 10 ∷ 20 ∷ 30 ∷ [])
unfolding be_value
handle_request-Stands_example =
    handle_request-Stands site grab_session 1 2 0 (0 ∷ 0 ∷ 0 ∷ 1 ∷ []) (0 ∷ 0 ∷ 0 ∷ 3 ∷ [])
      (10 ∷ 20 ∷ 30 ∷ []) [] store index_stream data_stream (omega arith) refl store_there refl refl
      archive-Stands refl refl refl (omega arith, (omega arith, (omega arith, tt)))

server_of-ServerKeeps_example : ServerKeeps (server_of site)
server_of-ServerKeeps_example =
    server_of-ServerKeeps site (λ player s. refl) (λ mode width height s. refl)
