-- ===== src/Lib.antt =====
-- The API server of the learning garden (services/api): accounts with sessions, and the content
-- that users write, relate and publish, behind an HTTP interface.
--
-- The parts and their files. A name in the program is spelled with underscores here, so
-- `Service.FindVisible` is `find_visible`; `delete` and `List` are `remove` and `list_items`.
--   Content/Types        internal/content/types.go: the data.
--   Content/Normalize    the helpers of internal/content/service.go: slugs, relation types, the
--                        check of an item, and who may view it.
--   Content/MemoryStore  internal/content/store_memory.go: the two maps of the store and its
--                        operations. A method holds the mutex throughout, so it is one step.
--   Content/Store        the interface `Store` with its laws; Content/Store/Memory fills it.
--   Content/Service      internal/content/service.go over any `Store`: the writes and the single
--                        reads; Content/Service/Queries has the listings, the graph, the portfolio
--                        and the feed, Reads that they write nothing. Requests, Reachable, Isolation and RoundTrip are about writes and
--                        runs of them, Authorization, Privacy and Public about who changes and
--                        who sees what.
--   Content/Ids          `newID` of internal/content/service.go.
--   Auth/Types           the data of internal/auth/service.go.
--   Auth/Token           internal/auth/token.go: signed access tokens.
--   Auth/Password        internal/auth/password.go: password hashes.
--   Auth/UserStore, Auth/RefreshStore
--                        internal/auth/store_memory.go: the in-memory stores of users and refresh
--                        sessions; Auth/Store has the interfaces that they fill.
--   Auth/Service         internal/auth/service.go over any two stores.
--   HttpApi/Answers, HttpApi/Errors, HttpApi/Requests
--                        internal/httpapi/app_error.go, the helpers of router.go and of
--                        content_handlers.go: error responses, query limits, bearer tokens.
--   HttpApi/AuthHandlers, HttpApi/ContentHandlers
--                        the handlers of internal/httpapi/router.go and content_handlers.go, each a
--                        function of the state of both services to an outcome and the next state.
--   HttpApi/Middleware   the status recorder, request ids and CORS of internal/httpapi/observability.go
--                        and router.go.
--   HttpApi/Metrics      internal/httpapi/metrics.go: the gauge of requests in flight, the counters
--                        of requests and durations, and the gauges of the database pool.
--   HttpApi/Router       `NewRouter` of internal/httpapi/router.go: the table of routes.
--                        Router/Dispatch takes a request through the middlewares of router.go and
--                        observability.go to its handler and back, which is `serve`, and
--                        `serve_all` takes requests one after the other. AuthSafety, ReadSafety,
--                        WriteSafety and Safety say which parts of the state each handler keeps,
--                        Serving, Guarantees and GetReads are about whole requests.
--   AuthRepo             internal/authrepo/redis_refresh.go, over Redis as an interface.
--   AuthRepo/PostgresUsers
--                        internal/authrepo/postgres_users.go over the table of users.
--   ContentRepo          `contentFilterSQL` and `mapContentStoreError` of
--                        internal/contentrepo/postgres_content.go.
--   ContentRepo/Database, ContentRepo/Statements, ContentRepo/Queries
--                        the two tables of db/migrations/0002_content.sql, and each SQL statement of
--                        postgres_content.go as a function on them.
--   ContentRepo/PostgresStore
--                        the methods of the Postgres content store around its statements.
--                        Consistency, Selection, Failures and Laws are about the tables, the
--                        listing and errors;
--                        View takes the tables to the state of the in-memory store and Refinement
--                        compares the two stores.
--   Migrate              cmd/migrate/main.go: the command that applies the migrations.
--   Server               `env` and `splitCSV` of cmd/server/main.go; Server/Settings has the
--                        settings, Server/Start `main` as the list of what the program does.
--   Strings, Strconv     the functions of Go's `strings`, `unicode`, `strconv` and `encoding/hex`
--                        that the program calls.
--   Prelude              what all share: texts, maps, stable sorts, actions that may fail.
--   Samples and the modules called Tests
--                        concrete parameters, runs and instances.
--
-- How the parts fit. The handlers call the two services, which call their stores through the
-- interfaces; the same service functions run over the in-memory stores here. A method with a Go
-- error is an action from a state to a result and a state; the state comes back beside an error
-- too, so what was written before it stays visible. The sentinel errors are the constructors of
-- `Error`.
--
-- What is a parameter. `Unicode` is the lower-case table above ASCII; `Range` the order in which Go
-- visits a map; `Crypto` is argon2, HMAC, base64 and JSON with the documented laws, among them
-- that decoding undoes encoding and that a JSON number below 2 ^ 53 keeps its value; `Redis` is the
-- client of the key-value store, whose commands may fail and which may keep a shorter time to live
-- than the one that is asked for. `Database` and `UserDatabase` are what
-- Postgres leaves open: which texts are uuids, the order of texts, what jsonb makes of a document,
-- its clock, and the statements that fail, which then leave the tables as they were; the scan of
-- the table of relations is in the order of the list. `Libraries` is the routing of chi, the page
-- of promhttp and the encoding of JSON, `Environment` the database and the files of the migrations,
-- `Surroundings` what the server finds when it starts. What a call draws from the clock, `newID` and
-- the random source is an argument. A decoded request body is an option, `none` where the JSON is
-- refused.
--
-- Bounds. Texts are lists of code points, which are the bytes of an ASCII string; times are
-- nanoseconds since 1970 as natural numbers. `parse_uint` and `parse_int` refuse what does not fit
-- in their bits. Every loop of the program runs over a list and is structural recursion. Only
-- `itoa` of Strconv has fuel, the number itself: each step divides it by ten, so it reaches nought
-- before the fuel does, which Strconv/Itoa proves.
--
-- A claim of a token is an integer without bound: where Go's `int64` and `time.Unix` wrap, the model
-- does not.
--
-- Not modelled: contexts, with their deadlines and cancellation, and so the middleware of timeouts
-- and the timeouts of cmd/server beyond their values; a nil auth service, with which the handlers
-- panic; the registry of Prometheus and the HTTP encoding of answers, which are libraries; SQL
-- outside the statements that the stores send (db/queries), and the SQL text of the migrations.
-- Requests are served one after the other: the methods of the in-memory stores hold a mutex and
-- each SQL statement is a transaction of its own, but the interleaving of two requests of the
-- service is not explored.
pub mod Migrate
pub mod Prelude
pub mod Strings
pub mod Strconv
pub mod Auth
pub mod Content
pub mod HttpApi
pub mod AuthRepo
pub mod Server
pub mod ContentRepo
pub mod Samples
