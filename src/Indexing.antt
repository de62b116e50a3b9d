-- ===== src/Indexing.antt =====
-- gurtd/src/indexing: submitted domains are queued, crawled and marked as ready.
pub mod Service
pub mod Candidates
pub mod Dns
pub mod Fetch
pub mod Process
