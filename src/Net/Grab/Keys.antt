-- ===== src/Net/Grab/Keys.antt =====
-- openrs/src/net/codec/handler/global/grabpackethandler.cpp, `SendUKeys`: what the client checks its
-- cache against. Whirlpool and RSA are parameters.
use openrs.Base.{
  ℕ, zero, suc, ◌+◌, ◌*◌, ◌%◌, ◌^◌, ◌≤◌, ◌<◌, ◌≡◌, refl, ap, sym, ◌∙◌, List, [], ◌∷◌, ◌++◌, arith,
  All, length, length-append, append_assoc, append-nil, All-append, All-replicate, replicate, take,
  drop, take-append, drop-append, drop-drop, ltb, if◌then◌else◌, M, Outcome, ok, fail, throws,
  undefined, false,
}
use openrs.Base.Bytes.{IsByte, be_bytes, le_bytes, length-be_bytes, be_bytes-IsByte}
use openrs.Common.Buffer.{Buffer, empty, fresh, append, size, put_data, put_data_be}
use openrs.Net.Packet.{grab_cache}
use openrs.Net.Session.{Session, grab, send, send_bytes}
use openrs.Net.Handler.{done}
use openrs.Net.Grab.{pack_cache_data}
use openrs.Net.Grab.Chunks.{unchunk, unchunk-pack_cache_data}
use openrs.Net.Grab.Answers.{send_grab}
use openrs.Cache.Manager.{Cache, Store, get_store, get_type_count}

-- `CalculateDigest`, and `ApplyFunction` of the public key in the configuration with the minimal
-- encoding of what it gives.
pub record Sealing : Type 0 where
  pub whirlpool : List ℕ → List ℕ
  pub apply_rsa : List ℕ → List ℕ

-- One round of the loop; a `runtime_error` of `GetStore` is caught.
unfoldable pub put_keys : Outcome Store → Buffer → Buffer
unfolding put_data put_data_be
put_keys (ok store) b =
    append store.whirlpool (put_data_be 4 store.revision (put_data_be 4 store.crc b))
put_keys _ b = append (replicate 64 0) (put_data 4 0 (put_data 4 0 b))

-- The loop, n rounds from `index` on.
unfoldable pub put_all_keys : ℕ → ℕ → Cache → Buffer → Buffer
unfolding put_keys get_store
put_all_keys zero index cache b = b
put_all_keys (suc n) index cache b =
    put_all_keys n (index + 1) cache (put_keys (get_store index cache) b)

-- The hash behind a leading zero, encrypted, behind another zero.
unfoldable pub put_seal : Sealing → Buffer → Buffer
put_seal sealing b = append (0 ∷ sealing.apply_rsa (0 ∷ sealing.whirlpool b.bytes)) b

abbrev pub send_packed : Outcome Buffer → M Session (Unit {0})
send_packed (ok b) = send (record { type = grab_cache; payload = b })
send_packed fail = done
send_packed throws = λ s. (throws, s)
send_packed undefined = λ s. (undefined, s)

-- `SendUKeys`.
unfoldable pub send_ukeys : Sealing → Cache → M Session (Unit {0})
unfolding put_all_keys put_seal pack_cache_data send
send_ukeys sealing cache =
    let table =
      put_all_keys (get_type_count cache) 0 cache (put_data 1 (get_type_count cache) empty) in
    let sealed = put_seal sealing table in
    if ltb 255 (get_type_count cache)
    then done
    else send_packed (pack_cache_data 255 255 0 (size sealed % 2 ^ 32) sealed empty)

-- What the client finds of an index: its checksum, its revision and its digest, or zeros.
abbrev pub key_bytes : Outcome Store → List ℕ
key_bytes (ok store) = be_bytes 4 store.crc ++ (be_bytes 4 store.revision ++ store.whirlpool)
key_bytes _ = replicate 72 0

abbrev pub all_key_bytes : ℕ → ℕ → Cache → List ℕ
all_key_bytes zero index cache = []
all_key_bytes (suc n) index cache =
    key_bytes (get_store index cache) ++ all_key_bytes n (index + 1) cache

no_keys_lem :
    (b : Buffer)
    → append (replicate 64 0) (put_data 4 0 (put_data 4 0 b)) ≡ append (replicate 72 0) b
unfolding put_data le_bytes
no_keys_lem b =
    ap (λ xs. record b { bytes = xs })
      (append_assoc (b.bytes ++ replicate 4 0) (replicate 4 0) (replicate 64 0)
        ∙ append_assoc b.bytes (replicate 4 0) (replicate 68 0))

put_keys_lem : (r : Outcome Store) (b : Buffer) → put_keys r b ≡ append (key_bytes r) b
unfolding put_keys
put_keys_lem (ok store) b =
    ap (λ xs. record b { bytes = xs })
      (append_assoc (b.bytes ++ be_bytes 4 store.crc) (be_bytes 4 store.revision) store.whirlpool
        ∙ append_assoc b.bytes (be_bytes 4 store.crc)
            (be_bytes 4 store.revision ++ store.whirlpool))
put_keys_lem fail b = no_keys_lem b
put_keys_lem throws b = no_keys_lem b
put_keys_lem undefined b = no_keys_lem b

put_all_keys_lem :
    (n index : ℕ) (cache : Cache) (b : Buffer)
    → put_all_keys n index cache b ≡ append (all_key_bytes n index cache) b
unfolding put_all_keys
put_all_keys_lem zero index cache b = ap (λ xs. record b { bytes = xs }) (sym (append-nil b.bytes))
put_all_keys_lem (suc n) index cache b =
    put_all_keys_lem n (index + 1) cache (put_keys (get_store index cache) b)
    ∙ ap (append (all_key_bytes n (index + 1) cache)) (put_keys_lem (get_store index cache) b)
    ∙ ap (λ xs. record b { bytes = xs })
        (append_assoc b.bytes (key_bytes (get_store index cache))
          (all_key_bytes n (index + 1) cache))

-- A digest is an array of 64 bytes.
abbrev pub IsDigest : List ℕ → Type 0
IsDigest xs = (length xs ≡ 64) × All IsByte xs

abbrev pub HasDigests : Cache → Type 0
HasDigests cache =
    (id : ℕ) → (store : Store) → get_store id cache ≡ ok store → IsDigest store.whirlpool

key_bytes-IsByte :
    (r : Outcome Store)
    → ((store : Store) → r ≡ ok store → IsDigest store.whirlpool)
    → (length (key_bytes r) ≡ 72) × All IsByte (key_bytes r)
key_bytes-IsByte (ok store) h =
    let (long, bytes) = h store refl in
    (
      omega (
        arith,
        long,
        length-append (be_bytes 4 store.crc) (be_bytes 4 store.revision ++ store.whirlpool),
        length-append (be_bytes 4 store.revision) store.whirlpool,
        length-be_bytes 4 store.crc,
        length-be_bytes 4 store.revision,
      ),
      All-append IsByte (be_bytes 4 store.crc) _ (be_bytes-IsByte 4 store.crc) (
          All-append IsByte (be_bytes 4 store.revision) _ (be_bytes-IsByte 4 store.revision) bytes),
    )
key_bytes-IsByte fail h = (refl, All-replicate IsByte 72 0 (omega arith))
key_bytes-IsByte throws h = (refl, All-replicate IsByte 72 0 (omega arith))
key_bytes-IsByte undefined h = (refl, All-replicate IsByte 72 0 (omega arith))

all_key_bytes-IsByte :
    (n index : ℕ) (cache : Cache)
    → HasDigests cache
    → (length (all_key_bytes n index cache) ≡ 72 * n) × All IsByte (all_key_bytes n index cache)
all_key_bytes-IsByte zero index cache h = (omega arith, tt)
all_key_bytes-IsByte (suc n) index cache h =
    let first = key_bytes (get_store index cache) in
    let (long, bytes) = key_bytes-IsByte (get_store index cache) (h index) in
    let (longs, all) = all_key_bytes-IsByte n (index + 1) cache h in
    (
      omega (arith, long, longs, length-append first (all_key_bytes n (index + 1) cache)),
      All-append IsByte first _ bytes all,
    )

-- The table has the entry of the index i at the offset 72 * i.
pub all_key_bytes_at :
    (n index i : ℕ) (cache : Cache)
    → HasDigests cache
    → i < n
    → take 72 (drop (72 * i) (all_key_bytes n index cache))
      ≡ key_bytes (get_store (index + i) cache)
all_key_bytes_at zero index i cache h lt = absurd (omega arith)
all_key_bytes_at (suc n) index zero cache h lt =
    let first = key_bytes (get_store index cache) in
    let long = (key_bytes-IsByte (get_store index cache) (h index)).0 in
    take-append first (all_key_bytes n (index + 1) cache) 72 long
    ∙ ap (λ k. key_bytes (get_store k cache)) {x = index} {y = index + 0} (omega arith)
all_key_bytes_at (suc n) index (suc i) cache h lt =
    let first = key_bytes (get_store index cache) in
    let more = all_key_bytes n (index + 1) cache in
    let long = (key_bytes-IsByte (get_store index cache) (h index)).0 in
    ap (λ k. take 72 (drop k (first ++ more))) {x = 72 * suc i} {y = 72 + 72 * i} (omega arith)
    ∙ ap (take 72) (
        sym (drop-drop 72 (72 * i) (first ++ more))
        ∙ ap (drop (72 * i)) (drop-append first more 72 long))
    ∙ all_key_bytes_at n (index + 1) i cache h (omega arith)
    ∙ ap (λ k. key_bytes (get_store k cache)) {x = index + 1 + i} {y = index + suc i} (omega arith)

-- The table of the indexes: how many there are, and the entry of each.
abbrev pub table_bytes : Cache → List ℕ
table_bytes cache = get_type_count cache ∷ all_key_bytes (get_type_count cache) 0 cache

abbrev pub seal_bytes : Sealing → List ℕ → List ℕ
seal_bytes sealing table = 0 ∷ sealing.apply_rsa (0 ∷ sealing.whirlpool table)

table_lem :
    (cache : Cache)
    → get_type_count cache ≤ 255
    → put_all_keys (get_type_count cache) 0 cache (put_data 1 (get_type_count cache) empty)
      ≡ fresh (table_bytes cache)
unfolding put_data le_bytes
table_lem cache few =
    put_all_keys_lem (get_type_count cache) 0 cache _
    ∙ ap (λ c. fresh (c ∷ all_key_bytes (get_type_count cache) 0 cache))
        {x = get_type_count cache % 256} (omega arith)

-- In the grab stage, and with at most 255 indexes whose digests have 64 bytes each, a client that asks
-- for the update keys is sent one message: the number 255 of the index, that of the archive, no
-- settings and the length, and then chunks from which it puts together the table of the
-- indexes and the encrypted hash of that table, which has less than 2 ^ 31 bytes.
pub send_ukeys_lem :
    (sealing : Sealing) (cache : Cache) (s : Session)
    → get_type_count cache ≤ 255
    → HasDigests cache
    → All IsByte (sealing.apply_rsa (0 ∷ sealing.whirlpool (table_bytes cache)))
    → length (sealing.apply_rsa (0 ∷ sealing.whirlpool (table_bytes cache))) < 2 ^ 31
    → s.encoder ≡ grab
    → let told = table_bytes cache ++ seal_bytes sealing (table_bytes cache) in
      let head =
        le_bytes 1 255 ++ be_bytes 4 255 ++ le_bytes 1 0 ++ be_bytes 4 (length told % 2 ^ 32) in
      (chunks : List ℕ) × (send_ukeys sealing cache s ≡ (ok tt, send_bytes (head ++ chunks) s))
      × (unchunk (length head) chunks ≡ told)
unfolding send_ukeys put_seal
send_ukeys_lem sealing cache s few h sealed_bytes short enc =
    let n = get_type_count cache in
    let table = table_bytes cache in
    let seal = seal_bytes sealing table in
    let told = table ++ seal in
    let (longs, all) = all_key_bytes-IsByte n 0 cache h in
    let bytes : All IsByte told = (
      omega arith,
      All-append IsByte (all_key_bytes n 0 cache) seal all (omega arith, sealed_bytes),
    ) in
    let fits : length told < 2 ^ 32 =
      omega (arith, longs, short, length-append (all_key_bytes n 0 cache) seal) in
    let (chunks, packed, unpacked) =
      unchunk-pack_cache_data 255 255 0 (length told % 2 ^ 32) told bytes fits in
    let some_keys : ltb 255 n ≡ false = ground arith in
    (chunks, rw (some_keys, table_lem cache few, packed) (send_grab _ s enc), unpacked)
