-- ===== src/Writer/Returns.antt =====
-- The writer handlers return, when the socket is full at some time.
pub mod Rules
pub mod Plain
pub mod Scalar
pub mod Array
