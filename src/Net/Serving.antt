-- ===== src/Net/Serving.antt =====
-- The handlers with the parts of the server that they call: the cache manager, the update keys and the
-- login to the world, which the code reaches by its singletons.
pub mod Keeps
use openrs.Base.{
  ℕ, ◌+◌, ◌*◌, ◌/◌, ◌%◌, ◌^◌, ◌≤◌, ◌<◌, ◌≡◌, refl, ap, ◌∙◌, List, [], ◌∷◌, ◌++◌, arith, All, length,
  drop, length-append, ◌==◌, ◌&&◌, Bool, true, false, Option, none, some, M, Outcome, ok, fail,
  throws, undefined,
}
use openrs.Base.Bytes.{IsByte, le_bytes, le_value, be_value}
use openrs.Common.Buffer.{size_mod}
use openrs.Common.Stream.{Stream}
use openrs.Game.World.{Players}
use openrs.Cache.Manager.{Cache, Store, Reply, get_store, files, from_store, store_reply}
use openrs.Cache.Manager
use openrs.Cache.Manager.Requests.{store_reply-answer}
use openrs.Cache.Index
use openrs.Cache.Index.Layout.{three_bytes}
use openrs.Cache.Index.Finds.{Chain, get_archive_data-Chain}
use openrs.Net.Packet.{Packet}
use openrs.Net.Session.{Session, grab, send_bytes}
use openrs.Net.Handler.{Server}
use openrs.Net.Grab.{go_on, handle_request, answer_settings, real_length}
use openrs.Net.Grab.Chunks.{unchunk}
use openrs.Net.Grab.Answers.{handle_request_lem}
use openrs.Net.Grab.Keys.{Sealing, send_ukeys}
use openrs.Net.Login.Enter.{Player, Realm, Hall, handle_login_world}

-- 2 ^ 24 rounds are enough for every archive.
abbrev pub enough_rounds : ℕ
enough_rounds = 2 ^ 24

abbrev pub replied : Reply → Outcome (List ℕ)
replied none = undefined
replied (some r) = r

unfoldable pub archive_data : Cache → ℕ → ℕ → Outcome (List ℕ)
unfolding Manager.get_archive_data
archive_data cache id archive = replied (Manager.get_archive_data enough_rounds id archive cache).0

-- What the server is made of, as far as one session meets it.
pub record Site (Db : Type 0) : Type 0 where
  pub keys : List ℕ
  pub sealing : Sealing
  pub realm : Realm Db
  pub players : Players Player
  pub database : Db
  pub screen_event : ℕ → ℕ → ℕ → M Session (Unit {0})

abbrev pub only_session :
    {Db : Type 0} → Outcome (Unit {0}) × Hall Db → Outcome (Unit {0}) × Session
only_session (r, h) = (r, h.session)

unfoldable pub server_of : {Db : Type 0} → Site Db → Server
unfolding archive_data send_ukeys handle_login_world
server_of site = record {
  keys = site.keys;
  archive_data = archive_data site.realm.cache;
  send_ukeys = send_ukeys site.sealing site.realm.cache;
  handle_login_world = λ p s. only_session (
      handle_login_world site.realm p
        (record { session = s; players = site.players; database = site.database }));
  screen_event = site.screen_event;
}

-- What an index and the data file say of an archive: its entry, and the chain of its blocks.
pub record Stands (index blocks : Stream) (archive : ℕ) (content : List ℕ) : Type 0 where
  pub block : ℕ
  pub behind : List ℕ
  pub entry :
      drop (archive * 6) index.bytes ≡ three_bytes (length content) ++ (three_bytes block ++ behind)
  pub numbered : (archive + 1) * 6 < 2 ^ 32
  pub short : length content < 2 ^ 24
  pub first : 0 < block
  pub within : block ≤ length blocks.bytes / 520
  pub few_blocks : length blocks.bytes / 520 < 2 ^ 32
  pub small : block < 2 ^ 24
  pub chain : Chain archive blocks.bytes block 0 content

archive_data-Stands :
    (cache : Cache) (id archive : ℕ) (store : Store) (index blocks : Stream) (content : List ℕ)
    → (id == 255) ≡ false
    → get_store id cache ≡ ok store
    → store.stream ≡ some index
    → cache.data_stream ≡ some blocks
    → Stands index blocks archive content
    → archive_data cache id archive ≡ ok content
unfolding archive_data
archive_data-Stands cache id archive store index blocks content other found opened shared x =
    rw
      (
        other,
        found,
        store_reply-answer id cache _,
        opened,
        shared,
        get_archive_data-Chain enough_rounds archive x.block index blocks content x.behind
            x.numbered x.entry x.short x.first x.within x.few_blocks x.small x.chain x.short,
      )
      refl

and_false : (a b : Bool) → b ≡ false → (a && b) ≡ false
and_false true b e = e
and_false false b e = refl

-- A request in the grab stage for an archive that stands in the files of the cache is answered by one
-- message: the index, the archive, the settings and the length, and then chunks from which the
-- client puts the body of the archive together. The priority is 0 or 1, the index is not the
-- main one, the archive has as many bytes behind its head as its length says, and the data file has
-- less than 2 ^ 32 blocks.
pub handle_request-Stands :
    {Db : Type 0} (site : Site Db) (s : Session) (priority id compression : ℕ)
    (archive_raw length_raw body rest : List ℕ) (store : Store) (index blocks : Stream)
    → priority ≤ 1
    → (id == 255) ≡ false
    → get_store id site.realm.cache ≡ ok store
    → store.stream ≡ some index
    → site.realm.cache.data_stream ≡ some blocks
    → Stands index blocks (be_value archive_raw) (compression ∷ length_raw ++ (body ++ rest))
    → s.encoder ≡ grab
    → length length_raw ≡ 4
    → length body ≡ real_length compression (be_value length_raw)
    → All IsByte body
    → let head =
        le_bytes 1 id
        ++ le_bytes 4 (le_value archive_raw)
        ++ le_bytes 1 (answer_settings (priority == 1) compression)
        ++ le_bytes 4 (le_value length_raw) in
      (chunks : List ℕ) × (handle_request (server_of site) priority id archive_raw s
        ≡ (ok go_on, send_bytes (head ++ chunks) s))
      × (unchunk (length head) chunks ≡ body)
unfolding server_of
handle_request-Stands site s priority id compression archive_raw length_raw body rest store index
      blocks low other found opened shared x enc four long bytes =
    let fits : length body + length rest + 16 < size_mod =
      omega (arith, x.short, length-append length_raw (body ++ rest), length-append body rest) in
    let no_keys : (be_value archive_raw == 255 && id == 255) ≡ false =
      and_false (be_value archive_raw == 255) (id == 255) other in
    handle_request_lem (server_of site) s priority id compression archive_raw length_raw body rest
      low no_keys
      (archive_data-Stands site.realm.cache id (be_value archive_raw) store index blocks
        (compression ∷ length_raw ++ (body ++ rest)) other found opened shared x)
      enc four long bytes fits
