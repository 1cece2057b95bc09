-- ===== src/Lib.antt =====
-- Loki-VL-proxy serves the Loki API from VictoriaLogs: it parses LogQL, translates it, asks the
-- backend over HTTP and shapes the answers, behind a cache, a circuit breaker, a request coalescer
-- and several limits. This library models the parts of the proxy that decide, in Go's own order of
-- tests and assignments, and proves what they promise.
--
-- The parts and their files (paths from the root of the repository):
-- Breaker: internal/middleware/circuitbreaker.go. The record CircuitBreaker holds the fields of
--   the struct; allow, record_success and record_failure are Allow, RecordSuccess and RecordFailure.
--   The lock-free load of the state is an argument, so that stale readings are runs of the model
--   too. Breaker/Runs has the runs of requests, the other modules prove.
-- Cache: internal/cache/cache.go. Cache/State has the records, Cache/Store the memory tier
--   (storeLocalLocked, evictIfNeeded, Invalidate, cleanup), Cache/Hot the index of hot keys,
--   Cache/Tiers and Cache/Get the lookups through memory, disk and peers and the writes. What disk
--   and peers answer during a call is a record of the call; what is written to them is a list of
--   commands. Cache/Assoc holds Go maps as association lists.
-- Logql: internal/logql/scanner.go. Logql/Scanner is the scanner, function by function, on the
--   code points of the query that are still to be read; Logql/Token has the token types and their
--   texts; Logql/Text and Logql/Unquote write out what the scanner uses of unicode, utf8 and strconv.
-- Logql/Ast: internal/logql/ast.go. The interfaces Expr and Stage are data types; Logql/Ast/Print has
--   the String methods, Logql/Quote what they use of strconv.
-- Logql/Parser: internal/logql/parser.go and ip_filter.go. Parser/State is the struct parser with
--   its lookahead, Parser/Words the tables of names, Parser/Strings the string operands and line
--   filters, Parser/Labels the selector, Parser/Fields the operands of stages, Parser/Pipeline the
--   stages and parseLogQuery, Parser/Metric the aggregations, Parser/Expr parsePrimary, parseExpr,
--   parseBinaryRHS and Parse. A run gives what it returns, an error, or out_of_fuel (Logql/Result).
--   Parser/Progress follows the same parts; Parser/Precedence compares the trees with the grammar.
-- Windows: internal/proxy/query_range_windowing.go. Windows/Split is the splitting of a time
--   range (splitQueryRangeWindowsWithOptions), Windows/Adaptive the number of windows that are
--   fetched at once and how it follows latency and errors (observeQueryRangeWindowFetch,
--   forceQueryRangeParallelBackoff, queryRangeWindowParallelLimit).
-- Times: internal/proxy/time_utils.go, step_grid.go and metric_eval_limits.go. Times/Normalize reads
--   timestamps of unknown unit, Times/Grid aligns and counts evaluation points, Times/Buckets
--   is the bucket of a time.
-- Routing: internal/proxy/cold_routing.go. route is Route; a router without a cold backend is none.
-- Budget: internal/proxy/manual_scan_budget.go (Budget/Scan, all scans with the pool that they
--   share) and internal/proxy/binary_budget.go (Budget/Decode, the count of arrays in a response;
--   Budget/Document has the documents it is compared with).
-- Coalescer: internal/middleware/coalescer.go. The two critical sections of DoWithGuard, for any
--   guard; the breaker's Allow is the guard of the proxy.
-- Limiter: internal/middleware/ratelimiter.go. Limiter/Bucket is AllowClient and the cleanup, in the
--   steps between which others may come, Limiter/Runs runs of such steps, Limiter/Slots
--   AcquireConcurrent and ReleaseConcurrent.
-- Prelude: Boolean tests, lists and integers that the parts share.
--
-- How they interact: a request passes the limiter and the coalescer, whose guard is the breaker;
-- the answer of the backend is reported to the breaker; queries are scanned, their times read and
-- split into windows, and the answers kept in the cache under the budgets.
--
-- Shared state: every mutex section is one step, and every atomic load, add or compare-and-swap
-- outside of one is a step of its own, so that an interleaving is a list of steps (Breaker/Runs,
-- Budget/Scan, Coalescer, Limiter/Slots, Cache/Runs).
--
-- Numbers: times are nanoseconds or seconds as natural numbers, from 1970 on. Where the code can
-- leave the range of int64 the wrap-around is written out (Windows/Split, Times/Normalize); the
-- cache's byte count is an integer and may be negative. The token buckets count billionths of a
-- token in place of float64.
--
-- Fuel: the number scanner and Unquote recurse on fuel as long as the text that they read, of
-- which every round takes some; the tokens of a query are read on fuel above its length; the loops
-- of the parser have fuel for what is left of the query, of which every round takes a token, and
-- the expressions twice as much and two, for the calls that take no token; the splitting of a
-- range recurses on the number of windows that are still allowed, as the code's loop does.
--
-- Not modelled: the semantic checks on parsed queries, the execution of pipelines and the
-- translation to LogsQL, the disk and peer tiers behind the cache, the merging of hot and cold
-- answers, metric evaluation, and the HTTP, JSON, metrics and logging code around them.
-- Parameters: the classes of code points beyond ASCII, the parsing and printing of float64 and the
-- parsing of IP addresses (Logql/Env), the answers of the lower cache tiers, the guard of the
-- coalescer.
mod Prelude
pub mod Breaker
pub mod Cache
pub mod Logql
pub mod Windows
pub mod Routing
pub mod Times
pub mod Budget
pub mod Coalescer
pub mod Limiter
