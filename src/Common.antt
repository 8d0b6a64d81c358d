-- ===== src/Common.antt =====
-- common/: the buffers that everything reads and writes.
pub mod Buffer
pub mod Stream
pub mod BitBuffer
