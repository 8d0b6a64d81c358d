-- ===== src/Net.antt =====
-- openrs/: the network side of the server.
pub mod Packet
pub mod Decoder
pub mod Encoder
pub mod Session
pub mod Handler
pub mod Grab
pub mod Input
pub mod Login
pub mod Serving
