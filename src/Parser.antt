-- ===== src/Parser.antt =====
-- The grammar of the language (parser.y) with its actions, which build the tree.
pub mod Grammar
pub mod Shape
