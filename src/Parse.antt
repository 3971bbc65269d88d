-- ===== src/Parse.antt =====
-- internal/parse/parse.go: from the bytes of a feed to its entries, and the feeds that a page links to.
pub mod Fields
pub mod Links
pub mod Decode
pub mod Ttl
pub mod Items
