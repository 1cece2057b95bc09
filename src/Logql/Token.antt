-- ===== src/Logql/Token.antt =====
-- internal/logql/scanner.go: the tokens, and the text by which messages name their types.
use loki_vl_proxy.Prelude.{ℕ, List}
use loki_vl_proxy.Logql.Text.{codes}

pub data TokType : Type 0 where
  eof error : TokType
  l_brace r_brace l_paren r_paren l_bracket r_bracket comma pipe at_sign : TokType
  eq neq re_match re_not_match : TokType
  pipe_eq bang_eq pipe_tilde bang_tilde pipe_gt bang_gt : TokType
  ident string raw_string duration number : TokType
  plus minus star slash percent caret lt gt lt_eq gt_eq eq_eq : TokType
  by without on ignoring group_left group_right and_ or_ unless : TokType

-- `val` holds bytes.
pub record Token : Type 0 where
  pub typ : TokType
  pub val : List ℕ

unfoldable pub to_string : TokType → List ℕ
to_string eof = codes "EOF"
to_string error = codes "ERROR"
to_string l_brace = codes "{"
to_string r_brace = codes "}"
to_string l_paren = codes "("
to_string r_paren = codes ")"
to_string l_bracket = codes "["
to_string r_bracket = codes "]"
to_string comma = codes ","
to_string pipe = codes "|"
to_string at_sign = codes "@"
to_string eq = codes "="
to_string neq = codes "!="
to_string re_match = codes "=~"
to_string re_not_match = codes "!~"
to_string pipe_eq = codes "|="
to_string bang_eq = codes "!="
to_string pipe_tilde = codes "|~"
to_string bang_tilde = codes "!~"
to_string pipe_gt = codes "|>"
to_string bang_gt = codes "!>"
to_string ident = codes "IDENT"
to_string string = codes "STRING"
to_string raw_string = codes "RAWSTRING"
to_string duration = codes "DURATION"
to_string number = codes "NUMBER"
to_string plus = codes "+"
to_string minus = codes "-"
to_string star = codes "*"
to_string slash = codes "/"
to_string percent = codes "%"
to_string caret = codes "^"
to_string lt = codes "<"
to_string gt = codes ">"
to_string lt_eq = codes "<="
to_string gt_eq = codes ">="
to_string eq_eq = codes "=="
to_string by = codes "by"
to_string without = codes "without"
to_string on = codes "on"
to_string ignoring = codes "ignoring"
to_string group_left = codes "group_left"
to_string group_right = codes "group_right"
to_string and_ = codes "and"
to_string or_ = codes "or"
to_string unless = codes "unless"
