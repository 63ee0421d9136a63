-- ===== src/Parsers.antt =====
-- parsers/ and parser_releases/: which parser reads a portal's pages, and what it says of a page.
pub mod Fields
pub mod Results
pub mod Releases
pub mod Activation
