-- ===== src/Crawler.antt =====
-- gurtd/src/crawler: what the crawler fetches, when, and what it makes of a page.
pub mod Robots
pub mod Sitemap
pub mod Client
pub mod Render
pub mod Pipeline
pub mod Scheduler
pub mod Fetches
