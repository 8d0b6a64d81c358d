-- ===== src/Cache.antt =====
-- cache: the files of the cache, and what stands in them.
pub mod Index
pub mod Manager
pub mod Archive
