-- ===== src/Net/Input/Stages.antt =====
-- Which packets move a session from one stage to the next, and what the client sees of it.
use openrs.Base.{ℕ, List, [], ◌∷◌, ◌++◌}
use openrs.Base.Bytes.{be_bytes}
use openrs.Common.Buffer.{Buffer}
use openrs.Net.Session.{Session, grab, downloading_cache, send_bytes, set_status, set_stage}
use openrs.Net.Handler.{Server, set_client_build}

-- The payload of a handshake: the client's build, its second part and the token.
abbrev pub handshake_bytes : ℕ → ℕ → List ℕ → List ℕ
handshake_bytes build sub token = be_bytes 4 build ++ (be_bytes 4 sub ++ (token ++ 0 ∷ []))

unfoldable pub key_bytes : List ℕ → List ℕ
key_bytes [] = []
key_bytes (key ∷ keys) = be_bytes 4 key ++ key_bytes keys

-- The session behind an accepted handshake.
abbrev pub accepted : Server → Session → Session
accepted server s =
    send_bytes (0 ∷ key_bytes server.keys)
      (set_stage grab (set_status downloading_cache (set_client_build 718 s)))
