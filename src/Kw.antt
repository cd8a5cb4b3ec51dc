-- ===== src/Kw.antt =====
-- esp32-embedder/worker/kw.c, the helpers that the other parts of the worker share.
pub mod Jbuf
pub mod Escape
pub mod Base64
pub mod Depth
pub mod Time
pub mod Iso
