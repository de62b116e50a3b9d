-- ===== src/Lib.antt =====
-- google.co: a search service for the gurt:// web. The server (gurtd) accepts connections, answers
-- searches and submissions, and indexes the domains that are submitted.
--
-- How the parts interact. A connection begins with a handshake in plain text and goes on with requests
-- inside TLS (Connection: gurtd/src/main.rs). The bytes of both are read by gurt-api (Api). The router
-- hands a request to the search endpoint, to the submission of sites or to the files of the user
-- interface (Router: gurtd/src/router). A search is parsed by gurt-query (Query), looked up in the
-- cache under its key, or run by the engine and merged (Search: gurtd/src/search, Index: gurt-index). A
-- submission spawns a task that writes it to the table of domains (Storage: gurtd/src/storage), and is
-- queued for the worker that indexes domains (Indexing: gurtd/src/indexing). The worker asks for addresses
-- (Indexing/Dns), collects pages from the site map, fetches them (Indexing/Fetch), renders them before
-- they are indexed (Crawler: gurtd/src/crawler), and marks the domain as ready (Indexing/Process). At a
-- start the domains that are pending in the table are queued again (Startup). Links of a page are found
-- and scored by gurtd/src/link (Link); hits are scored again with them (Router/Rescore). The pool of the
-- database is gurt-db (Db).
--
-- Files and code:
--   Base, Str, Dict       numbers, lists, options, results, texts, maps: the standard library's part
--   Api/Status            gurt-api/src/status.rs, gurt-api/src/limits.rs
--   Api/Stream, Headers   the input of a connection, header lines
--   Api/HttpLike          gurt-api/src/http_like.rs: read_request
--   Api/Message           gurt-api/src/http_like.rs: make_response, into_bytes
--   Api/Handshake, Gurt   gurt-api/src/handshake.rs, gurt-api/src/gurt.rs
--   Api/Request, Tls      gurt-api/src/request.rs, gurt-api/src/tls.rs
--   Query                 gurt-query/src/lib.rs
--   Search/Key, Cache, Merge, Gather   gurtd/src/search/mod.rs
--   Index                 gurt-index/src/lib.rs, gurt-index/src/noop.rs
--   Index/Terms, Documents     gurt-index/src/tantivy.rs: the search
--   Crawler/Robots        gurtd/src/crawler/robots.rs
--   Crawler/Sitemap       gurtd/src/crawler/sitemap.rs
--   Crawler/Fetches       fetch_for_domain of robots.rs and fetch_sitemap_urls of sitemap.rs
--   Crawler/Client        gurtd/src/crawler/client.rs
--   Crawler/Scheduler     gurtd/src/crawler/scheduler.rs
--   Crawler/Render, Pipeline   gurtd/src/crawler/render.rs, gurtd/src/crawler/pipeline.rs
--   Router/RateLimit, Submit, Results   gurtd/src/router/api.rs
--   Router/Ui, Util       gurtd/src/router/ui.rs, gurtd/src/router/util.rs
--   Router/Page           gurtd/src/router/ui.rs: render_search_ssr and the built-in pages
--   Router/Rescore        gurtd/src/router/search_utils.rs
--   Router/Dispatch       gurtd/src/router/mod.rs; Ext is the feature ext-web
--   Web                   gurt-web/src/lib.rs
--   Link/Extract, Graph, Authority   gurtd/src/link/mod.rs
--   Indexing/Service, Candidates   gurtd/src/indexing/mod.rs
--   Indexing/Fetch        gurtd/src/indexing/fetch.rs; Exchange is fetch_gurt
--   Indexing/Process      index_single_url of fetch.rs and process_domain of gurtd/src/indexing/mod.rs
--   Indexing/Dns          gurtd/src/indexing/dns.rs
--   Storage               gurtd/src/storage/mod.rs
--   Startup               gurtd/src/startup.rs, and the index engine of gurtd/src/services.rs
--   Db/Connect, Backoff   gurt-db/src/lib.rs
--   Connection, Connection/Tls   gurtd/src/main.rs, gurtd/src/tls.rs
--   Tests                 the theorems at concrete inputs, and runs
--
-- How code is modelled. A text is the list of its code points, bytes are a list of numbers. A stream is
-- the list of the results of successive reads; a read of no byte, or behind the last, is its end. State
-- behind a lock is passed on by the operation that takes the lock. Instants and durations are numbers;
-- the clock, the environment, the file system, JSON, floating point, Unicode tables, TLS, the network
-- and the database are arguments.
--
-- Fuel. The scans of site maps, scripts and links take one unit more than the text is long, since each
-- round shortens the text. The loop of a connection takes one unit more than there are reads, since a
-- request takes one at least. The loop over names in Indexing/Dns has the five rounds of the code.
--
-- The table of domains. Storage writes the effect of the three statements out on a list of rows, in the
-- order of their submission, with the keys of the schema: the name, and the name in lower case.
--
-- Tasks and threads. A submission spawns a task that writes it to the table; the task runs later, and its
-- error is dropped (persist and run_task of Router/Submit). The loop of the start is a relation (Loop of
-- Startup) that lets the worker and the other threads take steps between any two of its blocks.
--
-- Permits. The semaphore of tokio is an interface: a number of permits, one taken or given back at a time.
-- A task waits, has the global permit, or has both; every interleaving of the tasks is a run of the step
-- relation of Crawler/Scheduler.
--
-- What is not modelled: the index of Tantivy, the set-up of TLS by rustls, Postgres beyond the effect of
-- the statements, the arithmetic of floating point, the code that macros generate, the listener of
-- gurtd/src/main.rs, and the benchmark gurtd/src/bin/engine_bench.rs.
pub mod Base
pub mod Str
pub mod Dict
pub mod Api
pub mod Query
pub mod Search
pub mod Index
pub mod Crawler
pub mod Router
pub mod Link
pub mod Indexing
pub mod Db
pub mod Web
pub mod Storage
pub mod Startup
pub mod Connection
pub mod Tests
