-- ===== src/Logql/Parser/Progress.antt =====
-- internal/logql/parser.go: the parser moves forward and ends.
pub mod Steps
pub mod Strings
pub mod Labels
pub mod Fields
pub mod Pipeline
pub mod Metric
pub mod Expr
