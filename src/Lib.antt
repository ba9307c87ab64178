-- ===== src/Lib.antt =====
-- Verification of yrby: the HTML renderers of its native extension, its protocol helpers, and its
-- handles to shared values.
--
-- A document (a Yjs XML fragment) is rendered on the server. The renderer walks the document and
-- emits to an `Emitter`, whose frames hold segments: finished markup, or a deferred callback node
-- that the application renders. `flatten` then joins the segments if no node is deferred.
-- Applications add node and mark rules to the built-in types, which are parsed from JSON. Beside the
-- renderers stand the helpers of the sync protocol, which classify frames and judge updates on
-- throwaway copies of a document, and the handles by which Ruby reads and writes shared values, with
-- the conversion of Ruby's character indexes.
--
--   Base, Base/*         lists, strings (lists of code points), integers and decimal numerals
--   Yrs                  the values that the yrs crate stores, and its reads as parameters
--   HtmlCore/*           ext/yrby/crates/html-core/src/lib.rs
--     Segment, Emitter   `Segment`, and `Emitter` with its frames as a state; a pop of no frame
--                        is a panic
--     Segment/Tokens     what segments show: characters and callback nodes
--     Emitter/Emits      the rules by which code on an emitter is said to emit tokens
--     Emitter/Frames     what the operations of the emitter keep
--     Template           `AttrPart`, `resolve_parts`, the rules and the attribute readers
--     RuleTag            the tags of declarative rules, as the renderers write them
--     Flatten, Url       `flatten` and `url_scheme`
--     Url/Browser        how a browser reads a URL's scheme, which is not in the code
--     RuleSource         `Rules::parse`, on a parsed JSON value; in RuleSource/Compiled, a rule as
--                        lib/y/rendering.rb compiles it
--     TypeMap            `type_map_json`, up to the printing of the JSON value, and how
--                        `collect_node_types` changes the map
--     Escape             `escape_text` and `escape_attr` of the renderers
--     Work, Paragraph    the stack of block work and the rules' blocks and inline nodes, which
--                        both renderers declare alike; paragraphs around captured content
--     Work/Plan          what opening a block emits and leaves on the stack
--     Outcome, Plain     results and panics of a rendering; output without callback nodes
--     Markup             a grammar of well-formed markup, which is not in the code
--   ProseMirror/*        ext/yrby/crates/prosemirror-html/src/lib.rs
--     Css, Marks, Runs   inline styles, the tags of a run's marks, and the runs of a text
--     Inline, Arms       `render_inline` and what it calls, and the arms of `open_block`
--     Block              the stack of block work, `open_block` and `render_block_tree`
--     Document           `render_segments`, `render` and `is_builtin`
--     Types              `collect_node_types` and `observe`
--   Lexical/*            ext/yrby/crates/lexical-html/src/lib.rs
--     Run, Href          `render_run` with `lexxy_style`, and `safe_href`
--     Nodes              the readers of a node, and `is_lexical_shaped`
--     Inline             `render_inline` and what it calls, with the state of its loop
--     Block              `open_block`, `open_listitem`, `push_block_children`, and the walk
--     Document, Types    `render_segments`, `render`, and `collect_node_types`
--   Shared/*             ext/yrby/src/shared.rs
--     Index              `insert_index`, `element_index`, `delete_span`
--     Units              `to_units`, `to_chars`, `char_len` and the embedded texts
--   Protocol/*           ext/yrby/src/protocol.rs: frames, and what an update would do
--     Laws               what is relied on of the yrs crate's documents and updates
--   Array/*              ext/yrby/src/array.rs: the reads and writes of a handle, as edits of a
--                        list
--   Text/*               ext/yrby/src/text.rs: the reads and writes of a handle, in characters
--   Map/*                ext/yrby/src/map.rs: the reads and writes of a handle, as edits of a
--                        function of the keys
--   XmlText/*            ext/yrby/src/xml_text.rs: reads, writes of text and removals of a handle
--   Read/*               ext/yrby/src/read.rs
--     Json               `map_json`, `array_json`, `any_to_json` and `out_to_any`
--     Lines              `xml_blocks_text`, one line for each block
--   Samples, Tests       small documents, and the theorems applied to it
--
-- The yrs crate is a parameter: a record of its reads (`tag`, `children`, `diff`, ...), each a
-- function, since the source reads one transaction's snapshot. Floats and JSON are of that record
-- too. `Docs` is such a record for documents, updates and decoders, `Arrays`, `Maps`, `Texts` and
-- `XmlTexts` for the values of a document. An unbounded number stands for an `i64` that is read or
-- shown. The built-in depth limits (`MAX_DEPTH`, `MAX_BLOCK_DEPTH` and `MAX_INLINE_DEPTH`, 1024)
-- are modelled as they are, and make the recursions structural. The loop over the work stack runs
-- on fuel, two rounds for every node entered, of which each takes at most one to open and one to
-- close; a panic is an outcome of its own. A count of UTF-16 units is unbounded, since it is at
-- most the length that yrs keeps as a `u32`; a cast to `u32` is a remainder. A `HashMap` is an
-- association list, in any order. A walk over nested texts that the source does not bound runs on
-- levels; the theorems on it take a rank that falls from a text to the texts in it, which a
-- document has, being a tree. Debug assertions, which release builds leave out, are not modelled.
--
-- Not modelled: the pieces that a block is written from (ext/yrby/src/xml_text.rs), relative
-- positions and the handles of children, which come next; the Ruby bindings and the Rails and
-- browser code, which are glue or other languages; the JSON parser and printer themselves: the
-- parsing of rules starts from a parsed value.
pub mod Array
pub mod Base
pub mod HtmlCore
pub mod Lexical
pub mod Map
pub mod ProseMirror
pub mod Protocol
pub mod Read
pub mod Samples
pub mod Shared
pub mod Tests
pub mod Text
pub mod XmlText
pub mod Yrs
