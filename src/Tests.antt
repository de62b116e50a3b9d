-- ===== src/Tests.antt =====
-- The theorems at concrete inputs, and runs of the program's functions.
pub mod Api
pub mod Query
pub mod Search
pub mod Crawler
pub mod Router
pub mod Indexing
pub mod Scheduler
pub mod Fetch
pub mod Engine
pub mod Start
