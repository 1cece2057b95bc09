-- ===== src/Logql/Parser/Words.antt =====
-- internal/logql/parser.go: the names of functions, and how tokens are written in messages and in
-- the stages that keep their text.
use loki_vl_proxy.Prelude.{
  ℕ, ◌+◌, ◌-◌, Bool, true, false, ◌&&◌, ◌||◌, Option, none, some, List, [], ◌∷◌, ◌++◌, map,
  if◌then◌else◌, leb, ◌==◌, length,
}
use loki_vl_proxy.Logql.Text.{codes, utf8, runes_eq, ascii_letter, ascii_digit}
use loki_vl_proxy.Logql.Env.{Env}
use loki_vl_proxy.Logql.Quote
use loki_vl_proxy.Logql.Token.{
  Token, to_string, eof, l_brace, r_brace, l_paren, r_paren, comma, eq, neq, re_match, re_not_match,
  bang_eq, bang_tilde, ident, string, raw_string, duration, number, and_, or_,
}
use loki_vl_proxy.Logql.Result.{ParseFailure, parse_error}
use loki_vl_proxy.Logql.Ast.{
  RangeOp, VectorOp, rate, count_over_time, bytes_rate, bytes_over_time, avg_over_time,
  sum_over_time, min_over_time, max_over_time, stdvar_over_time, stddev_over_time,
  quantile_over_time, first_over_time, last_over_time, absent_over_time, rate_counter, sum, avg,
  min, max, count, stddev, stdvar, bottomk, topk, sort, sort_desc,
}
use loki_vl_proxy.Logql.Ast.Print.{quote_parser_argument}
use loki_vl_proxy.Logql.Parser.State.{ParserState, at}

-- `vectorOps`
unfoldable pub vector_ops : List ℕ → Option VectorOp
vector_ops s =
    if runes_eq s (codes "sum")
    then some sum
    else if runes_eq s (codes "avg")
    then some avg
    else if runes_eq s (codes "min")
    then some min
    else if runes_eq s (codes "max")
    then some max
    else if runes_eq s (codes "count")
    then some count
    else if runes_eq s (codes "stddev")
    then some stddev
    else if runes_eq s (codes "stdvar")
    then some stdvar
    else if runes_eq s (codes "bottomk")
    then some bottomk
    else if runes_eq s (codes "topk")
    then some topk
    else if runes_eq s (codes "sort")
    then some sort
    else if runes_eq s (codes "sort_desc")
    then some sort_desc
    else none

-- `rangeOps`
unfoldable pub range_ops : List ℕ → Option RangeOp
range_ops s =
    if runes_eq s (codes "rate")
    then some rate
    else if runes_eq s (codes "count_over_time")
    then some count_over_time
    else if runes_eq s (codes "bytes_rate")
    then some bytes_rate
    else if runes_eq s (codes "bytes_over_time")
    then some bytes_over_time
    else if runes_eq s (codes "avg_over_time")
    then some avg_over_time
    else if runes_eq s (codes "sum_over_time")
    then some sum_over_time
    else if runes_eq s (codes "min_over_time")
    then some min_over_time
    else if runes_eq s (codes "max_over_time")
    then some max_over_time
    else if runes_eq s (codes "stdvar_over_time")
    then some stdvar_over_time
    else if runes_eq s (codes "stddev_over_time")
    then some stddev_over_time
    else if runes_eq s (codes "quantile_over_time")
    then some quantile_over_time
    else if runes_eq s (codes "first_over_time")
    then some first_over_time
    else if runes_eq s (codes "last_over_time")
    then some last_over_time
    else if runes_eq s (codes "absent_over_time")
    then some absent_over_time
    else if runes_eq s (codes "rate_counter")
    then some rate_counter
    else none

unfoldable pub is_some {ℓ} : {A : Type ℓ} → Option A → Bool
is_some none = false
is_some (some a) = true

-- `strings.ToUpper` on a name of the tables.
unfoldable pub upper : ℕ → ℕ
upper c = if leb b'a' c && leb c b'z' then c - 32 else c

unfoldable pub ident_name : List ℕ → List ℕ
unfolding vector_ops range_ops is_some upper
ident_name s =
    if runes_eq s (codes "label_replace")
    then s
    else if is_some (range_ops s)
    then map upper s
    else if is_some (vector_ops s) || runes_eq s (codes "vector")
    then map upper s
    else codes "IDENTIFIER"

unfoldable pub loki_token_name : Token → List ℕ
unfolding ident_name to_string
loki_token_name tok = elim tok.typ [
  | eof ↦ codes "$end"
  | number ↦ codes "NUMBER"
  | string ↦ codes "STRING"
  | raw_string ↦ codes "STRING"
  | duration ↦ codes "RANGE"
  | ident ↦ ident_name tok.val
  | _ ↦ to_string tok.typ
]

-- `syntaxError`, which is only called with something to expect.
unfoldable pub syntax_error : List ℕ → ParserState → ParseFailure
unfolding loki_token_name at
syntax_error expecting p =
    let msg =
      codes "syntax error: unexpected "
      ++ (loki_token_name p.cur ++ (codes ", expecting " ++ expecting)) in
    if at eof p then parse_error 1 (length (utf8 p.input) + 1) msg else parse_error 0 0 msg

unfoldable pub is_alphanumeric : ℕ → Bool
is_alphanumeric c = ascii_letter c || (ascii_digit c || c == b'_')

unfoldable pub starts_alphanumeric : List ℕ → Bool
unfolding is_alphanumeric
starts_alphanumeric [] = false
starts_alphanumeric (c ∷ cs) = is_alphanumeric c

-- Whether a text ends in a byte that needs a space before a word.
unfoldable pub ends_word : List ℕ → Bool
unfolding is_alphanumeric
ends_word [] = false
ends_word (c ∷ []) = is_alphanumeric c || (c == 34 || c == 96)
ends_word (c ∷ d ∷ cs) = ends_word (d ∷ cs)

unfoldable pub starts_label_filter_operand : Token → Bool
starts_label_filter_operand tok = elim tok.typ [
  | l_paren ↦ true
  | comma ↦ true
  | and_ ↦ true
  | or_ ↦ true
  | eof ↦ runes_eq tok.val []
  | _ ↦ false
]

module _ {F : Type 0} (env : Env F) where
  unfoldable pub token_raw : Token → List ℕ
  token_raw tok = elim tok.typ [
    | string ↦ Quote.quote env.printable tok.val
    | raw_string ↦ quote_parser_argument env tok.val
    | eq ↦ codes "="
    | neq ↦ codes "!="
    | bang_eq ↦ codes "!="
    | re_match ↦ codes "=~"
    | re_not_match ↦ codes "!~"
    | bang_tilde ↦ codes "!~"
    | comma ↦ codes ", "
    | l_paren ↦ codes "("
    | r_paren ↦ codes ")"
    | l_brace ↦ codes "{"
    | r_brace ↦ codes "}"
    | _ ↦ tok.val
  ]

  unfoldable pub append_stage_token : List ℕ → Token → List ℕ
  unfolding token_raw starts_alphanumeric ends_word
  append_stage_token b tok =
      let raw = token_raw tok in
      if starts_alphanumeric raw && ends_word b then b ++ 32 ∷ raw else b ++ raw
