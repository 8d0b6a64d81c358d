-- ===== src/Net/Login/Wire.antt =====
-- The whole blocks of a login as a client writes them, and what `HandleLoginWorld` makes of them.
use openrs.Base.{
  ℕ, ◌+◌, ◌-◌, ◌%◌, ◌^◌, ◌≤◌, ◌<◌, ◌≡◌, refl, ap, ap₂, ◌∙◌, sym, subst, List, [], ◌∷◌, ◌++◌, arith,
  All, length, take, length-append, take-append, take-length, append_assoc, ok, M, return, then_do,
  ==_refl, ltb, ◌||◌, false,
}
use openrs.Base.Bytes.{be_bytes, le_bytes}
use openrs.Common.Buffer.{Buffer, fresh, size_mod, get_le, get_be, get_string, remaining}
use openrs.Common.Buffer.Read.{ahead, moved, remaining_lem}
use openrs.Common.Buffer.Text.{IsText}
use openrs.Common.Buffer.Ahead.{
  At, At-IsValid, Consumes, At-moved, At-fresh, At-size, Consumes-bind, Consumes-map,
  get_byte-Consumes, get_be-Consumes, get_le-Consumes, get_string-Consumes,
}
use openrs.Net.Session.{Session}
use openrs.Net.Handler.{with_read}
use openrs.Cache.Manager.{Cache, Store, get_store}
use openrs.Net.Login.Block.{
  Ciphers, Credentials, Secrets, skip, skip_settings, read_display, check_crcs, crc_count,
  read_settings, read_credentials, read_password, read_keys, read_secrets, read_login, xtea_block,
}
use openrs.Net.Login.Client.{
  Settings, Fits, settings_bytes, text_bytes, skip-Consumes, skip_settings-Consumes,
}

with_read-At :
    {A B : Type 0} (m : M Buffer A) (xs : List ℕ) (a : A) (b : Buffer) (rest : List ℕ)
    (failed : M Session B) (k : A → Buffer → M Session B) (s : Session)
    → Consumes m xs a
    → At b (xs ++ rest)
    → with_read (m b) failed k s ≡ k a (moved (length xs) b) s
with_read-At m xs a b rest failed k s h at = ap (λ r. with_read r failed k s) (h.run b rest at)

-- The hashes that a client has of the cache, from an index on, are those of the server.
abbrev pub Hashes : Cache → ℕ → List ℕ → Type 0
Hashes cache index [] = Unit {0}
Hashes cache index (crc ∷ crcs) =
    ((store : Store) × (get_store index cache ≡ ok store) × (store.crc ≡ crc) × (crc < 2 ^ 32))
    × Hashes cache (index + 1) crcs

abbrev pub hash_bytes : List ℕ → List ℕ
hash_bytes [] = []
hash_bytes (crc ∷ crcs) = be_bytes 4 crc ++ hash_bytes crcs

check_crcs-At :
    (cache : Cache) (index : ℕ) (crcs : List ℕ) (b : Buffer) (rest : List ℕ) (s : Session)
    → Hashes cache index crcs
    → At b (hash_bytes crcs ++ rest)
    → check_crcs (length crcs) index cache b s ≡ (ok tt, s)
unfolding check_crcs
check_crcs-At cache index [] b rest s h at = refl
check_crcs-At cache index (crc ∷ crcs) b rest s ((store, found, same, small), h) at =
    let at' : At b (be_bytes 4 crc ++ (hash_bytes crcs ++ rest)) =
      subst (At b) (append_assoc (be_bytes 4 crc) (hash_bytes crcs) rest) at in
    let next = moved (length (be_bytes 4 crc)) b in
    rw
      (
        found,
        (get_be-Consumes 4 crc small (omega arith) (omega arith)).run b (hash_bytes crcs ++ rest)
            at',
        same,
        ==_refl crc,
      )
      (check_crcs-At cache (index + 1) crcs next rest s h
        (At-moved b (be_bytes 4 crc) (hash_bytes crcs ++ rest) at'))

abbrev pub display_bytes : ℕ → ℕ → ℕ → List ℕ
display_bytes mode width height = mode ∷ [] ++ (be_bytes 2 width ++ be_bytes 2 height)

read_display-Consumes :
    (mode width height : ℕ)
    → width < 2 ^ 16
    → height < 2 ^ 16
    → Consumes read_display (display_bytes mode width height) (mode, width, height)
unfolding read_display
read_display-Consumes mode width height hw hh = Consumes-bind _ _ _ _ _ _ (get_byte-Consumes mode) (
    Consumes-bind _ _ _ _ _ _ (get_be-Consumes 2 width hw (omega arith) (omega arith))
      (Consumes-map _ _ _ _ (get_be-Consumes 2 height hh (omega arith) (omega arith))))

-- What is inside the XTEA block; the server has no use for the settings.
abbrev pub credentials_bytes : Credentials → Settings → List ℕ → List ℕ
credentials_bytes c x crcs =
    1 ∷ []
    ++ (text_bytes c.username
        ++ (display_bytes c.display_mode c.screen_width c.screen_height
            ++ (settings_bytes x ++ hash_bytes crcs)))

-- What is inside the RSA block.
abbrev pub secret_bytes : Secrets → List ℕ
secret_bytes x = 10 ∷ [] ++ (x.keys ++ (le_bytes 8 0 ++ text_bytes x.password))

abbrev pub IsCredentials : Credentials → Type 0
IsCredentials c = All IsText c.username × (c.screen_width < 2 ^ 16) × (c.screen_height < 2 ^ 16)

module _ (cache : Cache) (c : Credentials) (x : Settings) (crcs : List ℕ) (s : Session)
    (valid : IsCredentials c) (f : Fits x) (hashes : Hashes cache 0 crcs)
    (many : length crcs ≡ crc_count cache) where
  read_settings-At :
      (b : Buffer) (rest : List ℕ)
      → At b (
          display_bytes c.display_mode c.screen_width c.screen_height
          ++ (settings_bytes x ++ (hash_bytes crcs ++ rest)))
      → read_settings cache c.password c.username b s ≡ (ok c, s)
  unfolding read_settings
  read_settings-At b rest at =
      let display = display_bytes c.display_mode c.screen_width c.screen_height in
      let b1 = moved (length display) b in
      let at1 = At-moved b display (settings_bytes x ++ (hash_bytes crcs ++ rest)) at in
      let b2 = moved (length (settings_bytes x)) b1 in
      let at2 = At-moved b1 (settings_bytes x) (hash_bytes crcs ++ rest) at1 in
      let hashed : check_crcs (crc_count cache) 0 cache b2 s ≡ (ok tt, s) =
        subst (λ n. check_crcs n 0 cache b2 s ≡ (ok tt, s)) many
          (check_crcs-At cache 0 crcs b2 rest s hashes at2) in
      with_read-At read_display display _ b _ _ _ s
        (read_display-Consumes c.display_mode c.screen_width c.screen_height (valid.1) (valid.2)) at
      ∙ with_read-At skip_settings (settings_bytes x) tt b1 _ _ _ s (skip_settings-Consumes x f) at1
      ∙ ap (then_do (λ _. return c)) hashed

  read_credentials-At :
      (b : Buffer) (rest : List ℕ)
      → At b (credentials_bytes c x crcs ++ rest)
      → read_credentials cache c.password b s ≡ (ok c, s)
  unfolding read_credentials
  read_credentials-At b rest at =
      let user = text_bytes c.username in
      let display = display_bytes c.display_mode c.screen_width c.screen_height in
      let more = display ++ (settings_bytes x ++ (hash_bytes crcs ++ rest)) in
      let whole : credentials_bytes c x crcs ++ rest ≡ 1 ∷ [] ++ (user ++ more) =
        ap (λ (t : List ℕ). 1 ∷ t)
          (append_assoc user (display ++ (settings_bytes x ++ hash_bytes crcs)) rest
            ∙ ap (λ t. user ++ t)
                (append_assoc display (settings_bytes x ++ hash_bytes crcs) rest
                  ∙ ap (λ t. display ++ t)
                      (append_assoc (settings_bytes x) (hash_bytes crcs) rest))) in
      let at0 : At b (1 ∷ [] ++ (user ++ more)) = subst (At b) whole at in
      let at1 = At-moved b (1 ∷ []) (user ++ more) at0 in
      let b1 = moved 1 b in
      with_read-At (get_le 1) (1 ∷ []) 1 b (user ++ more) _ _ s (get_byte-Consumes 1) at0
      ∙ with_read-At get_string user c.username b1 more _ _ s
          (get_string-Consumes c.username (valid.0)) at1
      ∙ read_settings-At (moved (length user) b1) rest (At-moved b1 user more at1)

module _ (x : Secrets) (s : Session) (keyed : length x.keys ≡ 16) (text : All IsText x.password)
    (lo : 3 ≤ length x.password) (hi : length x.password ≤ 30) where
  read_password-At :
      (b : Buffer) (rest : List ℕ)
      → At b (text_bytes x.password ++ rest)
      → read_password x.keys b s ≡ (ok x, s)
  unfolding read_password
  read_password-At b rest at =
      let fits : (ltb (length x.password) 3 || ltb 30 (length x.password)) ≡ false = ground arith in
      with_read-At get_string (text_bytes x.password) x.password b rest _ _ s
        (get_string-Consumes x.password text) at
      ∙ rw fits refl

  read_keys-At :
      (b : Buffer) (rest : List ℕ)
      → At b (x.keys ++ (le_bytes 8 0 ++ (text_bytes x.password ++ rest)))
      → read_keys b s ≡ (ok x, s)
  unfolding read_keys
  read_keys-At b rest at =
      let more = le_bytes 8 0 ++ (text_bytes x.password ++ rest) in
      let enough : ltb (remaining b) 16 ≡ false = ground (
        arith,
        remaining_lem b (At-IsValid b _ at),
        At-size b _ at,
        length-append x.keys more,
        keyed,
      ) in
      let first : take 16 (ahead b) ≡ x.keys =
        ap (take 16) at.front ∙ take-append x.keys more 16 keyed in
      let skipped : (skip 16 b).1 ≡ moved (length x.keys) b =
        ap (λ r. r.1) ((skip-Consumes 16 x.keys keyed).run b more at) in
      let b1 = moved (length x.keys) b in
      let at1 = At-moved b x.keys more at in
      rw (enough, skipped)
        (with_read-At (get_le 8) (le_bytes 8 0) 0 b1 (text_bytes x.password ++ rest) _ _ s
            (get_le-Consumes 8 0 (omega arith) (omega arith) (omega arith)) at1
          ∙ rw first (
              read_password-At (moved (length (le_bytes 8 0)) b1) rest
                (At-moved b1 (le_bytes 8 0) (text_bytes x.password ++ rest) at1)))

  read_secrets-At :
      (b : Buffer) (rest : List ℕ) → At b (secret_bytes x ++ rest) → read_secrets b s ≡ (ok x, s)
  unfolding read_secrets
  read_secrets-At b rest at =
      let more = x.keys ++ (le_bytes 8 0 ++ (text_bytes x.password ++ rest)) in
      let whole : secret_bytes x ++ rest ≡ 10 ∷ [] ++ more =
        ap (λ (t : List ℕ). 10 ∷ t)
          (append_assoc x.keys (le_bytes 8 0 ++ text_bytes x.password) rest
            ∙ ap (λ t. x.keys ++ t) (append_assoc (le_bytes 8 0) (text_bytes x.password) rest)) in
      let at0 : At b (10 ∷ [] ++ more) = subst (At b) whole at in
      with_read-At (get_le 1) (10 ∷ []) 10 b more _ _ s (get_byte-Consumes 10) at0
      ∙ read_keys-At (moved 1 b) rest (At-moved b (10 ∷ []) more at0)

-- The payload of the packet: a byte that is passed over, and the two encrypted blocks.
abbrev pub login_bytes : ℕ → List ℕ → List ℕ → List ℕ
login_bytes unknown rsa xtea = unknown ∷ [] ++ (be_bytes 2 (length rsa) ++ (rsa ++ xtea))

abbrev pub IsSecret : Secrets → Type 0
IsSecret x =
    (length x.keys ≡ 16)
    × All IsText x.password
    × (3 ≤ length x.password)
    × (length x.password ≤ 30)

xtea_block-At : (b : Buffer) (xs : List ℕ) → At b xs → length xs % 8 ≡ 0 → xtea_block b ≡ xs
xtea_block-At b xs at h =
    let long : length xs ≤ remaining b - remaining b % 8 =
      omega (arith, remaining_lem b (At-IsValid b xs at), At-size b xs at) in
    ap (take (remaining b - remaining b % 8)) at.front
    ∙ take-length xs (remaining b - remaining b % 8) long

-- A login packet gives the credentials that the client put into it, and sends nothing: where the RSA
-- block decrypts to the keys and the password behind their header, the XTEA block decrypts under
-- those keys to the name, the screen, the settings and the hashes of the cache, each with
-- whatever behind it, the name, the password and the settings are texts without zeros and line
-- feeds, the password has three to thirty characters, and the hashes are those of the
-- server's indexes.
pub read_login-Client :
    (ciphers : Ciphers) (cache : Cache) (unknown : ℕ) (rsa xtea rest rest' : List ℕ) (x : Secrets)
    (c : Credentials) (settings : Settings) (crcs : List ℕ) (b : Buffer) (s : Session)
    → At b (login_bytes unknown rsa xtea)
    → length rsa < 2 ^ 16
    → length xtea % 8 ≡ 0
    → ciphers.decrypt_rsa rsa ≡ secret_bytes x ++ rest
    → ciphers.decrypt_xtea x.keys xtea ≡ credentials_bytes c settings crcs ++ rest'
    → length (secret_bytes x ++ rest) + 16 < size_mod
    → length (credentials_bytes c settings crcs ++ rest') + 16 < size_mod
    → IsSecret x
    → c.password ≡ x.password
    → IsCredentials c
    → Fits settings
    → Hashes cache 0 crcs
    → length crcs ≡ crc_count cache
    → read_login ciphers cache b s ≡ (ok c, s)
unfolding read_login
read_login-Client ciphers cache unknown rsa xtea rest rest' x c settings crcs b s at hr hx er ex lr
      lx hs same hc f hashes many =
    let n = length rsa in
    let b1 = moved 1 b in
    let skipped : (skip 1 b).1 ≡ b1 =
      ap (λ r. r.1)
        ((skip-Consumes 1 (unknown ∷ []) refl).run b (be_bytes 2 n ++ (rsa ++ xtea)) at) in
    let at1 = At-moved b (unknown ∷ []) (be_bytes 2 n ++ (rsa ++ xtea)) at in
    let b2 = moved (length (be_bytes 2 n)) b1 in
    let at2 = At-moved b1 (be_bytes 2 n) (rsa ++ xtea) at1 in
    let b3 = moved n b2 in
    let enough : ltb (remaining b2) n ≡ false =
      ground
        (arith, remaining_lem b2 (At-IsValid b2 _ at2), At-size b2 _ at2, length-append rsa xtea) in
    let rsa_there : take n (ahead b2) ≡ rsa = ap (take n) at2.front ∙ take-append rsa xtea n refl in
    let behind : (skip n b2).1 ≡ b3 = ap (λ r. r.1) ((skip-Consumes n rsa refl).run b2 xtea at2) in
    let xtea_there : xtea_block (skip n b2).1 ≡ xtea =
      ap xtea_block behind ∙ xtea_block-At b3 xtea (At-moved b2 rsa xtea at2) hx in
    let secrets : read_secrets (fresh (ciphers.decrypt_rsa (take n (ahead b2)))) s ≡ (ok x, s) =
      ap (λ r. read_secrets (fresh (ciphers.decrypt_rsa r)) s) rsa_there
      ∙ ap (λ r. read_secrets (fresh r) s) er
      ∙ read_secrets-At x s (hs.0) (hs.1) (hs.2) (hs.3) (fresh (secret_bytes x ++ rest)) rest
          (At-fresh _ lr) in
    let credentials : read_credentials cache x.password
          (fresh (ciphers.decrypt_xtea x.keys (xtea_block (skip n b2).1))) s
        ≡ (ok c, s) =
      ap (λ r. read_credentials cache x.password (fresh (ciphers.decrypt_xtea x.keys r)) s)
        xtea_there
      ∙ ap₂ (λ p r. read_credentials cache p (fresh r) s) (sym same) ex
      ∙ read_credentials-At cache c settings crcs s hc f hashes many
          (fresh (credentials_bytes c settings crcs ++ rest')) rest' (At-fresh _ lx) in
    rw skipped (
      with_read-At (get_be 2) (be_bytes 2 n) n b1 (rsa ++ xtea) _ _ s
        (get_be-Consumes 2 n hr (omega arith) (omega arith)) at1
      ∙ rw enough (
          ap
            (then_do (λ (y : Secrets).
              read_credentials cache y.password
                (fresh (ciphers.decrypt_xtea y.keys (xtea_block (skip n b2).1)))))
            secrets
          ∙ credentials))
