-- ===== src/Search.antt =====
-- gurtd/src/search/mod.rs: the query cache and the merge of shard results.
pub mod Key
pub mod Cache
pub mod Merge
pub mod Gather
