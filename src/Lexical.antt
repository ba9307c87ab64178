-- ===== src/Lexical.antt =====
-- ext/yrby/crates/lexical-html/src/lib.rs: the Lexical renderer.
pub mod Run
pub mod Href
pub mod Nodes
pub mod Inline
pub mod Block
pub mod Document
pub mod Types
