-- ===== src/Net/Input/Keeps.antt =====
-- No handler touches the input of the session.
use openrs.Base.{
  ℕ, ◌≡◌, inl, inr, refl, ◌∙◌, List, [], ◌∷◌, ◌==◌, ◌||◌, ◌&&◌, if◌then◌else◌, Bool, true, false,
  Bool-cases, M, Outcome, ok, fail, throws, undefined, ◌>>=◌, then_do, return,
}
use openrs.Base.Bytes.{be_value}
use openrs.Common.Buffer.{Buffer, fresh, get_be, get_string, remaining}
use openrs.Common.Buffer.Read.{ahead}
use openrs.Net.Packet.{PacketType, Packet, grab_cache, handshake, login_world, ping, screen}
use openrs.Net.Packet
use openrs.Net.Session.{
  Session, SessionStatus, Stage, initial, grab, login, world, connected, downloading_cache,
  logging_in, send, send_op_code, set_status, set_stage,
}
use openrs.Net.Session.Sending.{send_lem}
use openrs.Net.Handler.{
  Server, set_client_build, done, with_read, read_builds, accept_grab, handle_handshake,
  handle_typed, handle, login_typed, login_handle, read_screen, world_typed, world_handle,
  start_up_packet,
}
use openrs.Net.Grab.{
  Next, go_on, stop, serve, handle_request, handle_requests, grab_handle, next_request,
  answer_archive, send_answer, answer_read, read_archive_head, copy_chunked, answer_head,
  real_length,
}
use openrs.Net.Input.{handle_by}

abbrev pub Keeps : {A : Type 0} → M Session A → Type 0
Keeps m = (s : Session) → (m s).1.buffer_input ≡ s.buffer_input

-- What the other parts of the server that a handler calls keep.
pub record ServerKeeps (server : Server) : Type 0 where
  pub ukeys : Keeps server.send_ukeys
  pub login_world : (p : Packet) → Keeps (server.handle_login_world p)
  pub screen_event : (mode width height : ℕ) → Keeps (server.screen_event mode width height)

pub send-Keeps : (p : Packet) → Keeps (send p)
send-Keeps p s = let (bytes, e) = send_lem p s in rw e

send_op_code-Keeps : (t : PacketType) → Keeps (send_op_code t)
unfolding send_op_code
send_op_code-Keeps t s = send-Keeps _ s

module _ {A B : Type 0} (f : A → M Session B) (k : (a : A) → Keeps (f a)) where
  -- What follows a step's result.
  after-Keeps : (r : Outcome A × Session) → (then_do f r).1.buffer_input ≡ r.1.buffer_input
  after-Keeps (ok a, s) = k a s
  after-Keeps (fail, s) = refl
  after-Keeps (throws, s) = refl
  after-Keeps (undefined, s) = refl

  then-Keeps : (m : M Session A) → Keeps m → Keeps (m >>= f)
  then-Keeps m l s = after-Keeps (m s) ∙ l s

with_read-Keeps :
    {A : Type 0} (r : Outcome A × Buffer) (failed : M Session (Unit {0}))
    (k : A → Buffer → M Session (Unit {0}))
    → Keeps failed
    → ((a : A) (b : Buffer) → Keeps (k a b))
    → Keeps (with_read r failed k)
with_read-Keeps (ok a, b) failed k l m s = m a b s
with_read-Keeps (fail, b) failed k l m s = l s
with_read-Keeps (throws, b) failed k l m s = refl
with_read-Keeps (undefined, b) failed k l m s = refl

if-Keeps :
    {A : Type 0} (t : Bool) (m n : M Session A) → Keeps m → Keeps n → Keeps (if t then m else n)
if-Keeps true m n k l = k
if-Keeps false m n k l = l

accept_grab-Keeps : (keys : List ℕ) → Keeps (accept_grab keys)
unfolding accept_grab
accept_grab-Keeps keys s =
    send-Keeps (start_up_packet keys) (set_stage grab (set_status downloading_cache s))

handshake-Keeps : (server : Server) (p : Packet) → Keeps (handle_handshake server p)
unfolding handle_handshake
handshake-Keeps server p =
    with_read-Keeps (read_builds p.payload) done _ (λ _. refl)
      λ builds rest.
        if-Keeps (builds.0 == 718) _ _
          (λ s.
            with_read-Keeps (get_string rest) (accept_grab server.keys) _
              (accept_grab-Keeps server.keys) (λ _ _. accept_grab-Keeps server.keys)
              (set_client_build builds.0 s))
          (send_op_code-Keeps Packet.client_outdated)

typed-Keeps :
    (t : PacketType) (status : SessionStatus) (server : Server) (p : Packet)
    → Keeps (handle_typed t status server p)
unfolding handle_typed
typed-Keeps handshake connected server p s = handshake-Keeps server p s
typed-Keeps Packet.login connected server p s =
    send_op_code-Keeps Packet.start_up (set_stage login (set_status logging_in s))
typed-Keeps _ _ server p s = refl

handle-Keeps : (server : Server) (p : Packet) → Keeps (handle server p)
unfolding handle
handle-Keeps server p s = typed-Keeps p.type s.status server p s

login_typed-Keeps :
    (t : PacketType) (server : Server) (p : Packet)
    → ServerKeeps server
    → Keeps (login_typed t server p)
unfolding login_typed
login_typed-Keeps login_world server p keeps s = keeps.login_world p s
login_typed-Keeps _ server p keeps s = refl

login_handle-Keeps :
    (server : Server) (p : Packet) → ServerKeeps server → Keeps (login_handle server p)
unfolding login_handle
login_handle-Keeps server p keeps s =
    with_read-Keeps (get_be 2 p.payload) done _ (λ _. refl)
      (λ size rest.
        if-Keeps (size == remaining rest) _ done
          (with_read-Keeps (read_builds rest) done _ (λ _. refl)
            (λ builds more.
              if-Keeps (builds.0 == 718) _ _
                (λ s.
                  login_typed-Keeps p.type server (record p { payload = more }) keeps
                    (set_client_build builds.0 s))
                (λ s. send_op_code-Keeps Packet.client_outdated (record s { encoder = initial }))))
          (λ _. refl))
      (record s { decoder = initial })

world_typed-Keeps :
    (t : PacketType) (server : Server) (p : Packet)
    → ServerKeeps server
    → Keeps (world_typed t server p)
unfolding world_typed
world_typed-Keeps ping server p keeps s = send_op_code-Keeps ping s
world_typed-Keeps screen server p keeps s =
    with_read-Keeps (read_screen p.payload) done _ (λ _. refl)
      (λ r rest. keeps.screen_event r.0 r.1 r.2) s
world_typed-Keeps _ server p keeps s = refl

send_answer-Keeps : (r : Outcome Buffer) → Keeps (send_answer r)
send_answer-Keeps (ok output) s =
    let p : Packet = record { type = grab_cache; payload = output } in
    then-Keeps (λ _. return go_on) (λ _ _. refl) (send p) (send-Keeps p) s
send_answer-Keeps fail s = refl
send_answer-Keeps throws s = refl
send_answer-Keeps undefined s = refl

answer_read-Keeps :
    (high : Bool) (index_id : ℕ) (archive_raw : List ℕ) (r : Outcome (ℕ × List ℕ) × Buffer)
    → Keeps (answer_read high index_id archive_raw r)
answer_read-Keeps high index_id archive_raw (ok (compression, length_raw), b) s =
    send_answer-Keeps
      (copy_chunked (real_length compression (be_value length_raw)) b
        (answer_head high index_id archive_raw compression length_raw))
      s
answer_read-Keeps high index_id archive_raw (fail, b) s = refl
answer_read-Keeps high index_id archive_raw (throws, b) s = refl
answer_read-Keeps high index_id archive_raw (undefined, b) s = refl

answer_archive-Keeps :
    (high : Bool) (index_id : ℕ) (archive_raw : List ℕ) (r : Outcome (List ℕ))
    → Keeps (answer_archive high index_id archive_raw r)
answer_archive-Keeps high index_id archive_raw (ok cache_data) s =
    answer_read-Keeps high index_id archive_raw (read_archive_head (fresh cache_data)) s
answer_archive-Keeps high index_id archive_raw fail s = refl
answer_archive-Keeps high index_id archive_raw throws s = refl
answer_archive-Keeps high index_id archive_raw undefined s = refl

serve-Keeps :
    (server : Server) (high : Bool) (index_id : ℕ) (archive_raw : List ℕ)
    → ServerKeeps server
    → Keeps (serve server high index_id archive_raw)
unfolding serve
serve-Keeps server high index_id archive_raw keeps s =
    elim (Bool-cases (be_value archive_raw == 255 && index_id == 255)) [
      | inl e ↦ rw e (then-Keeps (λ _. return go_on) (λ _ _. refl) server.send_ukeys keeps.ukeys s)
      | inr e ↦ rw e (
          answer_archive-Keeps high index_id archive_raw
            (server.archive_data index_id (be_value archive_raw)) s)
    ]

handle_request-Keeps :
    (server : Server) (priority index_id : ℕ) (archive_raw : List ℕ)
    → ServerKeeps server
    → Keeps (handle_request server priority index_id archive_raw)
unfolding handle_request
handle_request-Keeps server priority index_id archive_raw keeps s =
    elim (Bool-cases (priority == 0 || priority == 1)) [
      | inl e ↦ rw e (serve-Keeps server (priority == 1) index_id archive_raw keeps s)
      | inr e ↦ elim (Bool-cases (priority == 7)) [ inl f ↦ rw (e, f) | inr f ↦ rw (e, f) ]
    ]

next-Keeps : (more : M Session (Unit {0})) (n : Next) → Keeps more → Keeps (next_request more n)
next-Keeps more go_on k s = k s
next-Keeps more stop k s = refl

requests-Keeps :
    (server : Server) (requests : List ℕ)
    → ServerKeeps server
    → Keeps (handle_requests server requests)
unfolding handle_requests
requests-Keeps server (p ∷ i ∷ a ∷ b ∷ c ∷ d ∷ rest) keeps s =
    then-Keeps (next_request (handle_requests server rest))
      (λ n. next-Keeps (handle_requests server rest) n (requests-Keeps server rest keeps))
      (handle_request server p i (a ∷ b ∷ c ∷ d ∷ []))
      (handle_request-Keeps server p i (a ∷ b ∷ c ∷ d ∷ []) keeps) s
requests-Keeps server _ keeps s = refl

-- Whatever the stage and the packet, a handler leaves the session's input alone, if the parts of
-- the server that it calls do.
pub handle_by-Keeps :
    (stage : Stage) (server : Server) (p : Packet)
    → ServerKeeps server
    → Keeps (handle_by stage server p)
unfolding handle_by grab_handle world_handle
handle_by-Keeps initial server p keeps = handle-Keeps server p
handle_by-Keeps grab server p keeps = requests-Keeps server (ahead p.payload) keeps
handle_by-Keeps login server p keeps = login_handle-Keeps server p keeps
handle_by-Keeps world server p keeps = world_typed-Keeps p.type server p keeps
