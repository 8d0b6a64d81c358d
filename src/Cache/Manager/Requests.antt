-- ===== src/Cache/Manager/Requests.antt =====
-- A sequence of requests to the cache manager, over all indexes.
use openrs.Base.{
  ℕ, false, List, [], ◌∷◌, Option, none, some, ok, throws, ◌==◌, ◌≡◌, refl, ap, ap₂, ◌∙◌, sym, inl,
  inr, map, Bool-cases, arith, subst,
}
use openrs.Common.Stream.{Stream}
use openrs.Common.Stream.Read.{opened}
use openrs.Game.World.{find}
use openrs.Cache.Index.{Files, ArchiveRun, answer, files_of}
use openrs.Cache.Index
use openrs.Cache.Index.Sharing.{after, fresh_answer_lem, after-Holds, get_archive_data-RunOn}
use openrs.Cache.Manager.{
  Cache, Store, Reply, files, set_stream, get_store, get_archive_data, main_reply, store_reply,
}

-- Streams at the beginning of their files, with no failbit set.
abbrev pub rewind : Option Stream → Option Stream
rewind none = none
rewind (some s) = some (opened s.bytes 0)

abbrev pub rewind_files : Files → Files
rewind_files f = record { index_stream = rewind f.index_stream; data_stream = rewind f.data_stream }

abbrev pub rewind_store : ℕ × Store → ℕ × Store
rewind_store (id, store) = (id, record store { stream = rewind store.stream })

abbrev pub rewind_cache : Cache → Cache
rewind_cache cache = record {
  data_stream = rewind cache.data_stream;
  main_index = rewind cache.main_index;
  indexes = map rewind_store cache.indexes;
}

index_answer :
    (fuel id : ℕ) (index blocks : Option Stream)
    → let f : Files = record { index_stream = index; data_stream = blocks } in
      answer (Index.get_archive_data fuel id f)
      ≡ answer (Index.get_archive_data fuel id (rewind_files f))
unfolding Index.get_archive_data
index_answer fuel id none blocks = refl
index_answer fuel id (some index) none = refl
index_answer fuel id (some index) (some blocks) = fresh_answer_lem fuel id index blocks

index_after :
    (fuel id : ℕ) (index blocks : Option Stream)
    → let f : Files = record { index_stream = index; data_stream = blocks } in
      rewind_files (after f (Index.get_archive_data fuel id f)) ≡ rewind_files f
unfolding Index.get_archive_data
index_after fuel id none blocks = refl
index_after fuel id (some index) none = refl
index_after fuel id (some index) (some blocks) =
    let f = files_of index blocks in
    let run = Index.get_archive_data fuel id f in
    let (index', blocks', e, ei, eb) =
      after-Holds index.bytes blocks.bytes f run (index, blocks, refl, refl, refl)
        (get_archive_data-RunOn fuel id index blocks) in
    ap rewind_files e ∙ ap₂ (λ ib db. files_of (opened ib 0) (opened db 0)) ei eb

main_reply-answer : (cache : Cache) (run : ArchiveRun) → (main_reply cache run).0 ≡ answer run
main_reply-answer cache none = refl
main_reply-answer cache (some (r, f)) = refl

pub store_reply-answer :
    (id : ℕ) (cache : Cache) (run : ArchiveRun) → (store_reply id cache run).0 ≡ answer run
store_reply-answer id cache none = refl
store_reply-answer id cache (some (r, f)) = refl

main_reply-rewind :
    (cache : Cache) (run : ArchiveRun)
    → rewind_files (after (files cache.main_index cache) run)
      ≡ rewind_files (files cache.main_index cache)
    → rewind_cache (main_reply cache run).1 ≡ rewind_cache cache
main_reply-rewind cache none e = refl
main_reply-rewind cache (some (r, f)) e =
    ap
      (λ (g : Files). record (rewind_cache cache) {
        main_index = g.index_stream;
        data_stream = g.data_stream;
      })
      e

find-rewind :
    (id : ℕ) (stores : List (ℕ × Store))
    → find id (map rewind_store stores) ≡ elim (find id stores) [
      | none ↦ none
      | some store ↦ some (record store { stream = rewind store.stream })
    ]
unfolding find
find-rewind id [] = refl
find-rewind id ((i, store) ∷ stores) = elim (Bool-cases (id == i)) [
  | inl e ↦ rw e refl
  | inr e ↦ rw e (find-rewind id stores)
]

set_stream-rewind :
    (id : ℕ) (s : Option Stream) (stores : List (ℕ × Store)) (store : Store)
    → find id stores ≡ some store
    → rewind s ≡ rewind store.stream
    → map rewind_store (set_stream id s stores) ≡ map rewind_store stores
unfolding set_stream find
set_stream-rewind id s [] store h e = refl
set_stream-rewind id s ((i, first) ∷ stores) store h e = elim (Bool-cases (id == i)) [
  | inl f ↦
      let found : some first ≡ some store = rw f at h in
      let same : rewind first.stream ≡ rewind store.stream =
        ap (λ (o : Option Store). elim o [ none ↦ none | some x ↦ rewind x.stream ]) found in
      rw f (ap (λ r. (i, record first { stream = r }) ∷ map rewind_store stores) (e ∙ sym same))
  | inr f ↦
      let found : find id stores ≡ some store = rw f at h in
      rw f
        (ap (λ rest. rewind_store (i, first) ∷ rest) (set_stream-rewind id s stores store found e))
]

store_reply-rewind :
    (id : ℕ) (cache : Cache) (store : Store) (run : ArchiveRun)
    → find id cache.indexes ≡ some store
    → rewind_files (after (files store.stream cache) run) ≡ rewind_files (files store.stream cache)
    → rewind_cache (store_reply id cache run).1 ≡ rewind_cache cache
store_reply-rewind id cache store none h e = refl
store_reply-rewind id cache store (some (r, f)) h e =
    ap₂ (λ d stores. record (rewind_cache cache) { data_stream = d; indexes = stores })
      (ap (λ (g : Files). g.data_stream) e)
      (set_stream-rewind id f.index_stream cache.indexes store h
        (ap (λ (g : Files). g.index_stream) e))

-- One request: what it answers, and what it leaves.
abbrev Same : ℕ → ℕ → ℕ → Cache → Type 0
Same fuel id archive cache =
    ((get_archive_data fuel id archive cache).0
      ≡ (get_archive_data fuel id archive (rewind_cache cache)).0)
    × (rewind_cache (get_archive_data fuel id archive cache).1 ≡ rewind_cache cache)

main-Same : (fuel archive : ℕ) (cache : Cache) → Same fuel 255 archive cache
unfolding get_archive_data
main-Same fuel archive cache =
    let run = Index.get_archive_data fuel archive (files cache.main_index cache) in
    (
      main_reply-answer cache run
          ∙ index_answer fuel archive cache.main_index cache.data_stream
          ∙ sym (main_reply-answer (rewind_cache cache) _),
      main_reply-rewind cache run (index_after fuel archive cache.main_index cache.data_stream),
    )

pub get_store_at :
    (id : ℕ) (cache : Cache) (store : Option Store)
    → find id cache.indexes ≡ store
    → get_store id cache ≡ elim store [ none ↦ throws | some x ↦ ok x ]
unfolding get_store
get_store_at id cache store h =
    ap (λ (o : Option Store). elim o [ none ↦ throws | some x ↦ ok x ]) h

get_store-rewind :
    (id : ℕ) (cache : Cache) (store : Option Store)
    → find id cache.indexes ≡ store
    → get_store id (rewind_cache cache)
      ≡ elim store [ none ↦ throws | some x ↦ ok (record x { stream = rewind x.stream }) ]
get_store-rewind id cache none h =
    get_store_at id (rewind_cache cache) none (find-rewind id cache.indexes ∙ rw h refl)
get_store-rewind id cache (some store) h =
    get_store_at id (rewind_cache cache) (some (record store { stream = rewind store.stream }))
      (find-rewind id cache.indexes ∙ rw h refl)

store-Same :
    (fuel id archive : ℕ) (cache : Cache) (store : Option Store)
    → find id cache.indexes ≡ store
    → (id == 255) ≡ false
    → Same fuel id archive cache
unfolding get_archive_data
store-Same fuel id archive cache none h e =
    rw (e, get_store_at id cache none h, get_store-rewind id cache none h) (refl, refl)
store-Same fuel id archive cache (some store) h e =
    let run = Index.get_archive_data fuel archive (files store.stream cache) in
    rw (e, get_store_at id cache (some store) h, get_store-rewind id cache (some store) h)
      (
        store_reply-answer id cache run
            ∙ index_answer fuel archive store.stream cache.data_stream
            ∙ sym (store_reply-answer id (rewind_cache cache) _),
        store_reply-rewind id cache store run h
            (index_after fuel archive store.stream cache.data_stream),
      )

get_archive_data-Same : (fuel id archive : ℕ) (cache : Cache) → Same fuel id archive cache
get_archive_data-Same fuel id archive cache = elim (Bool-cases (id == 255)) [
  | inl e ↦
      let is_main : 255 ≡ id = ground (arith, e) in
      subst (λ n. Same fuel n archive cache) is_main (main-Same fuel archive cache)
  | inr e ↦ store-Same fuel id archive cache (find id cache.indexes) refl e
]

-- The replies to one request after the other, each for an index and an archive.
unfoldable pub replies : ℕ → List (ℕ × ℕ) → Cache → List Reply
unfolding get_archive_data
replies fuel [] cache = []
replies fuel ((id, archive) ∷ requests) cache =
    let (reply, cache') = get_archive_data fuel id archive cache in
    reply ∷ replies fuel requests cache'

-- What a request gets from the cache as it was opened.
abbrev pub opened_reply : ℕ → Cache → ℕ × ℕ → Reply
opened_reply fuel cache request =
    (get_archive_data fuel (request.0) (request.1) (rewind_cache cache)).0

-- However many requests the cache manager has answered, for whichever indexes, and wherever these have
-- left the positions and the failbits of the streams, the data stream that all indexes share among
-- them, each request gets what it would get from the cache as it was opened.
pub replies-map :
    (fuel : ℕ) (requests : List (ℕ × ℕ)) (cache : Cache)
    → replies fuel requests cache ≡ map (opened_reply fuel cache) requests
unfolding replies
replies-map fuel [] cache = refl
replies-map fuel ((id, archive) ∷ requests) cache =
    let (first, left) = get_archive_data-Same fuel id archive cache in
    let cache' = (get_archive_data fuel id archive cache).1 in
    ap₂ (λ r rs. r ∷ rs) first
      (replies-map fuel requests cache'
        ∙ ap (λ (c : Cache). map (λ (q : ℕ × ℕ). (get_archive_data fuel (q.0) (q.1) c).0) requests)
            left)
