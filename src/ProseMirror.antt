-- ===== src/ProseMirror.antt =====
-- ext/yrby/crates/prosemirror-html/src/lib.rs: HTML for ProseMirror documents.
pub mod Css
pub mod Marks
pub mod Runs
pub mod Inline
pub mod Arms
pub mod Block
pub mod Document
pub mod Types
