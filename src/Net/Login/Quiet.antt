-- ===== src/Net/Login/Quiet.antt =====
-- A login that is refused while its blocks are read changes nothing of the session but the output.
use openrs.Base.{
  ℕ, zero, suc, ◌+◌, ◌≡◌, refl, ap, sym, subst, List, [], Bool, not, ◌==◌, ◌||◌, ltb, if◌then◌else◌,
  true, false, ok, fail, throws, undefined, M, Outcome, ◌>>=◌, return, then_do, failing, append-nil,
  length, take,
}
use openrs.Common.Buffer.{Buffer, empty, fresh, get_be, get_le, get_string, remaining}
use openrs.Common.Buffer.Read.{ahead}
use openrs.Net.Packet.{PacketType, error_session, client_outdated, error_invalid_login}
use openrs.Net.Decoder.{packet_of}
use openrs.Net.Session.{Session, send_bytes, send_encoded, encode_by}
use openrs.Net.Handler.{with_read}
use openrs.Cache.Manager.{Cache, Store, get_store}
use openrs.Net.Login.Block.{
  Ciphers, Credentials, Secrets, refuse, skip, read_display, skip_settings, xtea_block,
  read_password, read_keys, read_secrets, check_crc, check_crcs, crc_count, read_settings,
  read_credentials, read_login,
}

-- Nothing of the session has changed but that bytes were put to its output.
abbrev pub OnlySent : Session → Session → Type 0
OnlySent s t = (bytes : List ℕ) × (t ≡ send_bytes bytes s)

pub OnlySent-refl : (s : Session) → OnlySent s s
OnlySent-refl s = (
  [],
  ap (λ xs. record s { buffer_output = record (s.buffer_output) { bytes = xs } })
      (sym (append-nil (s.buffer_output.bytes))),
)

-- A read that leaves the session as it is where it gives a value, and only sends otherwise.
abbrev pub Quiet : {A : Type 0} → Session → Outcome A × Session → Type 0
Quiet s (ok a, t) = t ≡ s
Quiet s (fail, t) = OnlySent s t
Quiet s (throws, t) = OnlySent s t
Quiet s (undefined, t) = OnlySent s t

pub record IsQuiet {A : Type 0} (m : M Session A) : Type 0 where
  pub run : (s : Session) → Quiet s (m s)

then_do-Quiet :
    {A B : Type 0} (s : Session) (f : A → M Session B) (r : Outcome A × Session)
    → Quiet s r
    → ((a : A) → Quiet s (f a s))
    → Quiet s (then_do f r)
then_do-Quiet s f (ok a, t) h k = subst (λ u. Quiet s (f a u)) (sym h) (k a)
then_do-Quiet s f (fail, t) h k = h
then_do-Quiet s f (throws, t) h k = h
then_do-Quiet s f (undefined, t) h k = h

bind-IsQuiet :
    {A B : Type 0} (m : M Session A) (f : A → M Session B)
    → IsQuiet m
    → ((a : A) → IsQuiet (f a))
    → IsQuiet (m >>= f)
bind-IsQuiet m f h k = record { run = λ s. then_do-Quiet s f (m s) (h.run s) (λ a. (k a).run s) }

return-IsQuiet : {A : Type 0} (a : A) → IsQuiet (return {S = Session} a)
return-IsQuiet a = record { run = λ s. refl }

failing-IsQuiet : (A : Type 0) → IsQuiet (failing {S = Session} {A = A})
failing-IsQuiet A = record { run = OnlySent-refl }

with_read-IsQuiet :
    {A B : Type 0} (r : Outcome A × Buffer) (failed : M Session B) (k : A → Buffer → M Session B)
    → IsQuiet failed
    → ((a : A) (b : Buffer) → IsQuiet (k a b))
    → IsQuiet (with_read r failed k)
with_read-IsQuiet (ok a, b) failed k hf hk = record { run = λ s. (hk a b).run s }
with_read-IsQuiet (fail, b) failed k hf hk = record { run = λ s. hf.run s }
with_read-IsQuiet (throws, b) failed k hf hk = record { run = OnlySent-refl }
with_read-IsQuiet (undefined, b) failed k hf hk = record { run = OnlySent-refl }

if-IsQuiet :
    {A : Type 0} (test : Bool) (m k : M Session A)
    → IsQuiet m
    → IsQuiet k
    → IsQuiet (if test then m else k)
if-IsQuiet true m k hm hk = hm
if-IsQuiet false m k hm hk = hk

pub sent-Quiet :
    (A : Type 0) (s : Session) (r : Outcome (Unit {0}) × Buffer)
    → Quiet s (then_do (λ _. failing {A = A}) (send_encoded r s))
sent-Quiet A s (ok u, b) = (b.bytes, refl)
sent-Quiet A s (fail, b) = (b.bytes, refl)
sent-Quiet A s (throws, b) = OnlySent-refl s
sent-Quiet A s (undefined, b) = OnlySent-refl s

pub refuse-IsQuiet : (A : Type 0) (t : PacketType) → IsQuiet (refuse {A = A} t)
unfolding refuse
refuse-IsQuiet A t = record {
  run = λ s. sent-Quiet A s (encode_by s.encoder (packet_of t []) empty);
}

read_password-IsQuiet : (keys : List ℕ) (b : Buffer) → IsQuiet (read_password keys b)
unfolding read_password
read_password-IsQuiet keys b =
    with_read-IsQuiet (get_string b) _ _ (refuse-IsQuiet Secrets error_invalid_login)
      λ password rest.
        if-IsQuiet (ltb (length password) 3 || ltb 30 (length password)) _ _
          (refuse-IsQuiet Secrets error_invalid_login)
          (return-IsQuiet (record { keys = keys; password = password }))

read_keys-IsQuiet : (b : Buffer) → IsQuiet (read_keys b)
unfolding read_keys
read_keys-IsQuiet b = if-IsQuiet (ltb (remaining b) 16) _ _ (refuse-IsQuiet Secrets error_session) (
    with_read-IsQuiet (get_le 8 (skip 16 b).1) _ _ (refuse-IsQuiet Secrets error_session)
      λ zeros rest.
        if-IsQuiet (not (zeros == 0)) _ _ (refuse-IsQuiet Secrets error_session)
          (read_password-IsQuiet (take 16 (ahead b)) rest))

read_secrets-IsQuiet : (b : Buffer) → IsQuiet (read_secrets b)
unfolding read_secrets
read_secrets-IsQuiet b =
    with_read-IsQuiet (get_le 1 b) _ _ (refuse-IsQuiet Secrets error_session) λ header rest.
      if-IsQuiet (not (header == 10)) _ _ (refuse-IsQuiet Secrets error_session)
        (read_keys-IsQuiet rest)

check_crc-IsQuiet :
    (more : Buffer → M Session (Unit {0})) (b : Buffer) (r : Outcome Store)
    → ((rest : Buffer) → IsQuiet (more rest))
    → IsQuiet (check_crc more b r)
check_crc-IsQuiet more b (ok store) h =
    with_read-IsQuiet (get_be 4 b) _ _ (refuse-IsQuiet (Unit {0}) error_session) λ crc rest.
      if-IsQuiet (not (store.crc == crc)) _ _ (refuse-IsQuiet (Unit {0}) client_outdated) (h rest)
check_crc-IsQuiet more b fail h = failing-IsQuiet (Unit {0})
check_crc-IsQuiet more b throws h = record { run = OnlySent-refl }
check_crc-IsQuiet more b undefined h = record { run = OnlySent-refl }

check_crcs-IsQuiet :
    (n index : ℕ) (cache : Cache) (b : Buffer) → IsQuiet (check_crcs n index cache b)
unfolding check_crcs
check_crcs-IsQuiet zero index cache b = return-IsQuiet tt
check_crcs-IsQuiet (suc n) index cache b =
    check_crc-IsQuiet (check_crcs n (index + 1) cache) b (get_store index cache)
      (check_crcs-IsQuiet n (index + 1) cache)

read_settings-IsQuiet :
    (cache : Cache) (password username : List ℕ) (b : Buffer)
    → IsQuiet (read_settings cache password username b)
unfolding read_settings
read_settings-IsQuiet cache password username b =
    with_read-IsQuiet (read_display b) _ _ (refuse-IsQuiet Credentials error_session)
      λ display rest.
        with_read-IsQuiet (skip_settings rest) _ _ (refuse-IsQuiet Credentials error_session)
          λ u hashes.
            bind-IsQuiet (check_crcs (crc_count cache) 0 cache hashes) _
              (check_crcs-IsQuiet (crc_count cache) 0 cache hashes)
              λ v. return-IsQuiet (record {
                password = password;
                username = username;
                display_mode = display.0;
                screen_width = display.1;
                screen_height = display.2;
              })

read_credentials-IsQuiet :
    (cache : Cache) (password : List ℕ) (b : Buffer) → IsQuiet (read_credentials cache password b)
unfolding read_credentials
read_credentials-IsQuiet cache password b =
    with_read-IsQuiet (get_le 1 b) _ _ (refuse-IsQuiet Credentials error_session) λ header rest.
      if-IsQuiet (not (header == 1)) _ _ (refuse-IsQuiet Credentials error_session) (
        with_read-IsQuiet (get_string rest) _ _ (refuse-IsQuiet Credentials error_invalid_login)
          λ username more. read_settings-IsQuiet cache password username more)

pub read_login-IsQuiet :
    (ciphers : Ciphers) (cache : Cache) (b : Buffer) → IsQuiet (read_login ciphers cache b)
unfolding read_login
read_login-IsQuiet ciphers cache b =
    with_read-IsQuiet (get_be 2 (skip 1 b).1) _ _ (failing-IsQuiet Credentials) λ size rest.
      let block = take size (ahead rest) in
      if-IsQuiet (ltb (remaining rest) size) _ _ (refuse-IsQuiet Credentials error_session) (
        bind-IsQuiet (read_secrets (fresh (ciphers.decrypt_rsa block))) _
          (read_secrets-IsQuiet (fresh (ciphers.decrypt_rsa block)))
          λ secrets.
            read_credentials-IsQuiet cache secrets.password
              (fresh (ciphers.decrypt_xtea secrets.keys (xtea_block (skip size rest).1))))
