-- ===== src/Development.antt =====
-- brain/development: the text stream, the pattern ledger the promotion of a candidate
-- and the Proto-BASIC surface with its bridge.
pub mod Ids
pub mod Stream
pub mod Features
pub mod Segments
pub mod Patterns
pub mod Promotion
pub mod Ledger
pub mod Repl
pub mod ReplBridge
