-- ===== src/Tok.antt =====
-- The WordPiece tokeniser of esp32-embedder/tok/tok.c.
pub mod Unicode
pub mod Vocab
pub mod Encode
