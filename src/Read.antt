-- ===== src/Read.antt =====
-- ext/yrby/src/read.rs: reading a document's content as JSON and as lines of text.
pub mod Json
pub mod Lines
