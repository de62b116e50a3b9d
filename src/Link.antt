-- ===== src/Link.antt =====
-- gurtd/src/link/mod.rs: links of a page, and the authority of pages.
pub mod Extract
pub mod Graph
pub mod Authority
