-- ===== src/Cache/Manager.antt =====
-- cache/include/openrs/cache/cache.h and openrs/src/manager/cache/cachemanager.cpp: the indexes of the
-- cache, which share one data stream.
pub mod Requests
use openrs.Base.{
  ℕ, List, [], ◌∷◌, Option, none, some, Outcome, ok, fail, throws, undefined, ◌==◌, if◌then◌else◌,
  length,
}
use openrs.Common.Stream.{Stream}
use openrs.Game.World.{find}
use openrs.Cache.Index.{Files, ArchiveRun}
use openrs.Cache.Index

-- An `Index`; of its reference table only the revision is kept.
pub record Store : Type 0 where
  pub crc : ℕ
  pub revision : ℕ
  pub whirlpool : List ℕ
  pub stream : Option Stream

-- `streams_.front()`, `main_index_` and `indexes_`, a `std::map`.
pub record Cache : Type 0 where
  pub data_stream : Option Stream
  pub main_index : Option Stream
  pub indexes : List (ℕ × Store)

-- `Cache::GetStore` and `Cache::GetTypeCount`.
unfoldable pub get_store : ℕ → Cache → Outcome Store
unfolding find
get_store id cache = elim (find id cache.indexes) [ none ↦ throws | some store ↦ ok store ]

abbrev pub get_type_count : Cache → ℕ
get_type_count cache = length cache.indexes

abbrev pub files : Option Stream → Cache → Files
files index cache = record { index_stream = index; data_stream = cache.data_stream }

unfoldable pub set_stream : ℕ → Option Stream → List (ℕ × Store) → List (ℕ × Store)
set_stream id s [] = []
set_stream id s ((i, store) ∷ stores) =
    let rest = set_stream id s stores in
    if id == i then (i, record store { stream = s }) ∷ stores else (i, store) ∷ rest

-- `none` is a run that needs more fuel.
abbrev pub Reply : Type 0
Reply = Option (Outcome (List ℕ))

abbrev pub main_reply : Cache → ArchiveRun → Reply × Cache
main_reply cache none = (none, cache)
main_reply cache (some (r, f)) =
    (some r, record cache { main_index = f.index_stream; data_stream = f.data_stream })

abbrev pub store_reply : ℕ → Cache → ArchiveRun → Reply × Cache
store_reply id cache none = (none, cache)
store_reply id cache (some (r, f)) = (
  some r,
  record cache {
    indexes = set_stream id f.index_stream cache.indexes;
    data_stream = f.data_stream;
  },
)

abbrev pub from_store : ℕ → ℕ → ℕ → Cache → Outcome Store → Reply × Cache
from_store fuel id archive cache (ok store) =
    store_reply id cache (Index.get_archive_data fuel archive (files store.stream cache))
from_store fuel id archive cache fail = (some fail, cache)
from_store fuel id archive cache throws = (some throws, cache)
from_store fuel id archive cache undefined = (some undefined, cache)

-- `CacheManager::GetArchiveData`.
unfoldable pub get_archive_data : ℕ → ℕ → ℕ → Cache → Reply × Cache
unfolding Index.get_archive_data get_store set_stream
get_archive_data fuel id archive cache =
    if id == 255
    then main_reply cache (Index.get_archive_data fuel archive (files cache.main_index cache))
    else from_store fuel id archive cache (get_store id cache)
