-- ===== src/Lib.antt =====
-- Base Search: a search and analytics workspace over imported tables, with a local server. This
-- library models the server's own logic (its jobs, its accounts and sessions, its login backoff and
-- its network policy) and the core of the search: the columns of imported tables, the readers of
-- numbers and dates, the catalog of fields and the translation of a query to SQL.
--
-- The parts and how they interact. A request first passes the transport checks
-- (`enforce_transport_security`), which go by the server's bound address, and then the guard
-- (`require_auth_mw`), which looks up the session and the role of its sender in the account store.
-- A handler then asks the job registry for work on behalf of that identity; the registry asks for
-- the role's permission again, when the job is reserved and, through its authorizer, when it
-- starts. A login is first admitted by the login limiter, by the peer's address and by the name.
--
-- Which file models what:
--   Jobs           src/server/jobs.rs. `Types` has the kinds, statuses, snapshots and limits; `State`
--                  is `RegistryState`; `Admission` is `reserve_for`, `enqueue_admitted`, previews
--                  and the two `Drop`s; `Queue` is `cancel`, `dispatch_available`'s locked section
--                  and `worker_finished`; `Handle` is `JobHandle`; `Retention` is `prune`;
--                  `Dispatcher` is the loop of `dispatch_available`; `Opening` is
--                  `open_with_limits`; `Access` is listing, redaction and `cancel_for`; `World` is
--                  the schedule of the threads: one step is one section that holds the lock, so a
--                  sequence of steps is any interleaving.
--   LoginLimit     src/server/login_limit.rs. `Buckets` is one map, `Limiter` both of them, `Names` is
--                  `normalize_username`, `Runs` any sequence of calls.
--   Auth           src/server/auth.rs. `Roles` has roles, permissions and `authorize`; `Tables` the
--                  tables of the companion database with the statements on them; `Accounts` and
--                  `Sessions` the transactions of `AuthStore`; `Calls` any sequence of them;
--                  `Requests` and `Gate` the guard.
--   Network        src/server/network.rs and security.rs. `Addresses` has the classes of addresses,
--                  `Interfaces` the listing of trusted interfaces, `Authorities` `parse_authority`
--                  and `parse_http_origin`, `Policy` is `TransportSecurity` with the middleware.
--   Values         src/storage/normalize.rs, derived.rs and `glob_escape` of search_text.rs.
--                  `Numbers` is `parse_number_styled` with its helpers, `Dates` has `month_key`
--                  and `extract_year`, `Countries` country keys and labels, `Keys` text keys and
--                  years, `Derived` the table of derived columns.
--   Shapes         src/domain/table.rs and src/storage/table_shape.rs. `Columns` has the types and
--                  `validate_fixed_value`, `Headers` is `from_headers` with the inference of roles
--                  and meanings, `Merging` is `merge_column` and `merge`.
--   Search         src/search.rs, src/schema.rs and src/storage/search_sql.rs. `Expr` is the query
--                  tree, `Schema` the columns of the profile, `Fields` and `Catalog` the fields that
--                  are offered, `Conditions` default conditions and labels, `Resolve` is
--                  `search_field_sql`, `Clauses` and `Compile` are the translation, `Terms` has the
--                  terms of a full-text search (src/storage/search_text.rs).
--   Plan           src/storage/query_plan.rs, with parts of analytics_columns.rs (`Sources`),
--                  effective_rows.rs and src/db_types.rs. `Filters` has the conditions of the text
--                  and of the single filters, `Build` is `build_filter_plan`.
--   Editor         src/app/advanced_query.rs. `Chips` is `flat_filter_chips`, `Actions` the edits of
--                  the query tree.
--   Prelude        Shared helpers: tests on numbers, lists, maps as association lists, texts.
--
-- Bounds and fuel. Numbers are natural numbers. A counter of the source that saturates is written
-- out so; job ids are 64-bit and a step that draws one supposes that they are not used up. The
-- dispatcher's loop has fuel for its rounds, one more than the jobs that wait, which is shown to
-- be enough. A floating-point percentage is kept as the expression that the code evaluates. An
-- `Instant` is a number of nanoseconds, a session's time a number of seconds. The loop that looks
-- for a free column id has as much fuel as there are columns, which is shown to be enough. A text
-- of the number and date readers is the list of its code points; the decimal text of n is written
-- with fuel n + 1, since each digit at least halves what is left.
--
-- Parameters: the JSON values of job results, Argon2, SHA-256, random tokens, clock readings, the
-- authorizer's answers, peer addresses, Unicode's tables of whitespace, of letters and digits and
-- of cases, the parser of floating-point numbers, the parsers of IP addresses and URIs, and the
-- alias of the SQL table.
--
-- Not modelled. Writing to the durable job store and removing artifact files, which happen outside
-- the lock; starting threads and catching panics; faults of the database files; the HTTP handlers
-- beyond the guard; what the database makes of the SQL that is generated; the full-text
-- index; the reading of files on import, exports, the analytics engine and the user
-- interfaces, which are SQL text, file formats or widgets.
pub mod Auth
pub mod Editor
pub mod Jobs
pub mod LoginLimit
pub mod Network
pub mod Plan
pub mod Prelude
pub mod Search
pub mod Shapes
pub mod Values
