-- ===== src/Writer/Stream.antt =====
-- The byte stream of the writer: what it means that bytes are sent in order, each once. The children
-- prove it of the three handlers.
pub mod Rules
pub mod Plain
pub mod Scalar
pub mod Array
