-- ===== src/Lsp.antt =====
-- crates/jman-java-lsp: the messages and the open documents of the language server.
pub mod Positions
pub mod Documents
pub mod Frames
