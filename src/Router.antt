-- ===== src/Router.antt =====
-- gurtd/src/router: the request handlers.
pub mod RateLimit
pub mod Util
pub mod Submit
pub mod Ui
pub mod Results
pub mod Rescore
pub mod Page
pub mod Dispatch
