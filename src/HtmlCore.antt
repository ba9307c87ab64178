-- ===== src/HtmlCore.antt =====
-- ext/yrby/crates/html-core/src/lib.rs: the segmented output, the templates and rules that both
-- HTML renderers share, and URL schemes.
pub mod Segment
pub mod Emitter
pub mod Escape
pub mod Url
pub mod Template
pub mod Markup
pub mod Paragraph
pub mod Work
pub mod Flatten
pub mod Outcome
pub mod Plain
pub mod RuleSource
pub mod TypeMap
pub mod RuleTag
