-- ===== src/Tests.antt =====
-- The theorems at concrete inputs, and runs of the model.
pub mod HtmlCore
pub mod ProseMirror
pub mod Shared
pub mod Text
pub mod Protocol
pub mod Read
pub mod Array
pub mod RuleSource
pub mod Lexical
pub mod Map
pub mod XmlText
