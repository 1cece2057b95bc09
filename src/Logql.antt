-- ===== src/Logql.antt =====
-- internal/logql: the LogQL query language.
pub mod Text
pub mod Unquote
pub mod Token
pub mod Scanner
pub mod Env
pub mod Quote
pub mod Result
pub mod Ast
pub mod Parser
