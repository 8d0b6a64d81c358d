-- ===== src/Tests/Sessions.antt =====
-- The theorems on a session and its handlers, at a small server and small packets.
use openrs.Base.{
  ℕ, ◌+◌, ◌≡◌, refl, List, [], ◌∷◌, ◌++◌, ◌||◌, ltb, ok, throws, length, if◌then◌else◌, All, arith,
}
use openrs.Base.Bytes.{IsByte, be_value, le_value, le_bytes, be_bytes}
use openrs.Common.Buffer.{empty, fresh}
use openrs.Common.Buffer.Read.{IsValid}
use openrs.Net.Packet.{ping}
use openrs.Net.Decoder.{packet_of}
use openrs.Net.Session.{Session, new_session, set_stage, grab, world, send, send_bytes}
use openrs.Net.Session.Sending.{send_lem}
use openrs.Net.Handler.{Server, done, handle}
use openrs.Net.Grab.{go_on, handle_request, pack_cache_data}
use openrs.Net.Grab.Chunks.{unchunk, unchunk-pack_cache_data}
use openrs.Net.Grab.Answers.{handle_request_lem}
use openrs.Net.Input.{read, handle_by}
use openrs.Net.Input.Keeps.{Keeps, ServerKeeps, handle_by-Keeps}
use openrs.Net.Input.Progress.{Ended, read-Ended}
use openrs.Net.Input.Moves.{Moves, handle-Moves}
use openrs.Net.Login.{Account, details_bytes, send_login_details, send_login_details_lem}
use openrs.Tests.Buffers.{hi, hi-IsText}

-- The cache has one archive, of three bytes and not compressed, under every number.
abbrev small_server : Server
small_server = record {
  keys = 1 ∷ 2 ∷ [];
  archive_data = λ _ _. ok (0 ∷ 0 ∷ 0 ∷ 0 ∷ 3 ∷ 10 ∷ 20 ∷ 30 ∷ []);
  send_ukeys = done;
  handle_login_world = λ _. done;
  screen_event = λ _ _ _. done;
}

small_server-ServerKeeps : ServerKeeps small_server
small_server-ServerKeeps = record {
  ukeys = λ _. refl;
  login_world = λ _ _. refl;
  screen_event = λ _ _ _ _. refl;
}

new_session-IsValid : IsValid new_session.buffer_input
unfolding new_session
new_session-IsValid = record { within = omega arith; fits = omega arith }

read-Ended_example : Ended (15 ∷ 200 ∷ 1 ∷ []) (read small_server 5 (15 ∷ 200 ∷ 1 ∷ []) new_session)
unfolding new_session
read-Ended_example =
    read-Ended small_server small_server-ServerKeeps (15 ∷ 200 ∷ 1 ∷ []) 5 new_session
      new_session-IsValid (omega arith) (omega arith)

handle-Moves_example :
    Moves
      (new_session.status, new_session.packet_handler)
      (
        (handle small_server (packet_of ping []) new_session).1.status,
        (handle small_server (packet_of ping []) new_session).1.packet_handler,
      )
handle-Moves_example = handle-Moves small_server (packet_of ping []) new_session

handle_by-Keeps_example : Keeps (handle_by world small_server (packet_of ping []))
handle_by-Keeps_example =
    handle_by-Keeps world small_server (packet_of ping []) small_server-ServerKeeps

send_lem_example :
    (bytes : List ℕ) × (send (packet_of ping []) new_session
      ≡ (ok tt, send_bytes bytes new_session))
send_lem_example = send_lem (packet_of ping []) new_session

small_bytes : All IsByte (10 ∷ 20 ∷ 30 ∷ [])
small_bytes = (omega arith, (omega arith, (omega arith, tt)))

unchunk-pack_cache_data_example :
    (chunks : List ℕ) × (pack_cache_data 255 255 0 3 (fresh (10 ∷ 20 ∷ 30 ∷ [])) empty
      ≡ ok (fresh ((le_bytes 1 255 ++ be_bytes 4 255 ++ le_bytes 1 0 ++ be_bytes 4 3) ++ chunks)))
    × (unchunk (length (le_bytes 1 255 ++ be_bytes 4 255 ++ le_bytes 1 0 ++ be_bytes 4 3)) chunks
        ≡ 10 ∷ 20 ∷ 30 ∷ [])
unchunk-pack_cache_data_example =
    unchunk-pack_cache_data 255 255 0 3 (10 ∷ 20 ∷ 30 ∷ []) small_bytes (omega arith)

abbrev grab_session : Session
grab_session = set_stage grab new_session

handle_request_lem_example :
    (chunks : List ℕ) × (handle_request small_server 0 2 (0 ∷ 0 ∷ 0 ∷ 7 ∷ []) grab_session ≡ (
      ok go_on,
      send_bytes
          ((le_bytes 1 2 ++ le_bytes 4 117440512 ++ le_bytes 1 128 ++ le_bytes 4 50331648)
            ++ chunks)
          grab_session,
    ))
    × (unchunk
          (length (le_bytes 1 2 ++ le_bytes 4 117440512 ++ le_bytes 1 128 ++ le_bytes 4 50331648))
          chunks
        ≡ 10 ∷ 20 ∷ 30 ∷ [])
unfolding be_value le_value
handle_request_lem_example =
    handle_request_lem small_server grab_session 0 2 0 (0 ∷ 0 ∷ 0 ∷ 7 ∷ []) (0 ∷ 0 ∷ 0 ∷ 3 ∷ [])
      (10 ∷ 20 ∷ 30 ∷ []) [] (omega arith) refl refl refl refl refl small_bytes (omega arith)

abbrev world_session : Session
world_session = set_stage world new_session

abbrev owner : Account
owner = record { id = 300; rights = 2; username = hi }

send_login_details_lem_example : send_login_details 1 owner world_session ≡ (
    if ltb 255 2 || ltb 65535 300
    then (throws, world_session)
    else (ok tt, send_bytes (2 ∷ (length hi + 14) ∷ details_bytes 1 owner) world_session))
send_login_details_lem_example =
    send_login_details_lem 1 owner world_session (omega arith) hi-IsText (omega arith) refl
