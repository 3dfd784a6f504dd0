-- ===== src/Lexer.antt =====
-- src/kernel/js-ts-lex.ts: the masker that blanks comments, strings, templates and regular
-- expressions of a JavaScript text, so that what is left can be searched for code.
pub mod Units
pub mod Scan
pub mod Machine
pub mod Covers
pub mod Turns
pub mod Alignment
pub mod Words
mod Tests
