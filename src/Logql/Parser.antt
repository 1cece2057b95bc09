-- ===== src/Logql/Parser.antt =====
-- internal/logql/parser.go, ip_filter.go: the parser of LogQL.
pub mod State
pub mod Words
pub mod Strings
pub mod Labels
pub mod Fields
pub mod Pipeline
pub mod Metric
pub mod Expr
pub mod Tests
pub mod Progress
pub mod Precedence
pub mod IpFilter
pub mod Params
