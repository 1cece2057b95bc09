-- ===== src/Logql/Ast/Print.antt =====
-- internal/logql/ast.go: the `String` methods.
use loki_vl_proxy.Prelude.{
  ℕ, Bool, true, false, Option, none, some, List, [], ◌∷◌, ◌++◌, map, if◌then◌else◌, length,
}
use loki_vl_proxy.Logql.Text.{codes}
use loki_vl_proxy.Logql.Env.{Env}
use loki_vl_proxy.Logql.Quote
use loki_vl_proxy.Logql.Quote.{can_backquote}
use loki_vl_proxy.Logql.Ast.{
  MatchOp, match_eq, match_neq, match_re, match_not_re, LabelMatcher, StreamSelector, LineFilterOp,
  contains, excludes, match_regexp, exclude_regexp, contains_pattern, exclude_pattern,
  LineFilterStage, parser_json, parser_logfmt, parser_regexp, parser_pattern, parser_unpack,
  ParserStage, DropMatcher, Stage, line_filter, parser_stage, label_filter, drop_stage, keep_stage,
  decolorize, unwrap, line_format, label_format, LogQuery, Grouping, RangeOp, rate, count_over_time,
  bytes_rate, bytes_over_time, avg_over_time, sum_over_time, min_over_time, max_over_time,
  stdvar_over_time, stddev_over_time, quantile_over_time, first_over_time, last_over_time,
  absent_over_time, rate_counter, VectorOp, sum, avg, min, max, count, stddev, stdvar, bottomk,
  topk, sort, sort_desc, VectorMatching, RangeAggregation, Expr, log_query, range_aggregation,
  vector_aggregation, bin_op, literal, opaque_metric,
}

-- `strings.Join`
unfoldable pub join : List ℕ → List (List ℕ) → List ℕ
join sep [] = []
join sep (p ∷ []) = p
join sep (p ∷ q ∷ ps) = p ++ (sep ++ join sep (q ∷ ps))

unfoldable pub match_op_string : MatchOp → List ℕ
match_op_string match_eq = codes "="
match_op_string match_neq = codes "!="
match_op_string match_re = codes "=~"
match_op_string match_not_re = codes "!~"

unfoldable pub line_filter_op_string : LineFilterOp → List ℕ
line_filter_op_string contains = codes "|="
line_filter_op_string excludes = codes "!="
line_filter_op_string match_regexp = codes "|~"
line_filter_op_string exclude_regexp = codes "!~"
line_filter_op_string contains_pattern = codes "|>"
line_filter_op_string exclude_pattern = codes "!>"

unfoldable pub range_op_string : RangeOp → List ℕ
range_op_string rate = codes "rate"
range_op_string count_over_time = codes "count_over_time"
range_op_string bytes_rate = codes "bytes_rate"
range_op_string bytes_over_time = codes "bytes_over_time"
range_op_string avg_over_time = codes "avg_over_time"
range_op_string sum_over_time = codes "sum_over_time"
range_op_string min_over_time = codes "min_over_time"
range_op_string max_over_time = codes "max_over_time"
range_op_string stdvar_over_time = codes "stdvar_over_time"
range_op_string stddev_over_time = codes "stddev_over_time"
range_op_string quantile_over_time = codes "quantile_over_time"
range_op_string first_over_time = codes "first_over_time"
range_op_string last_over_time = codes "last_over_time"
range_op_string absent_over_time = codes "absent_over_time"
range_op_string rate_counter = codes "rate_counter"

unfoldable pub vector_op_string : VectorOp → List ℕ
vector_op_string sum = codes "sum"
vector_op_string avg = codes "avg"
vector_op_string min = codes "min"
vector_op_string max = codes "max"
vector_op_string count = codes "count"
vector_op_string stddev = codes "stddev"
vector_op_string stdvar = codes "stdvar"
vector_op_string bottomk = codes "bottomk"
vector_op_string topk = codes "topk"
vector_op_string sort = codes "sort"
vector_op_string sort_desc = codes "sort_desc"

-- `TrimSpace` of "| json " and a parameter that was trimmed already.
unfoldable pub extraction_string : List ℕ → List ℕ → List ℕ
extraction_string keyword [] = keyword
extraction_string keyword (c ∷ cs) = keyword ++ 32 ∷ c ∷ cs

unfoldable pub grouping_string : Grouping → List ℕ
unfolding join
grouping_string g =
    (if g.without_labels then codes "without" else codes "by")
    ++ (codes " (" ++ (join (codes ", ") g.labels ++ codes ")"))

unfoldable pub card_string : VectorMatching → List ℕ
unfolding join
card_string vm = elim vm.card [
  | [] ↦ []
  | c ∷ cs ↦ (c ∷ cs) ++ (codes "(" ++ (join (codes ", ") vm.match_labels ++ codes ")"))
]

unfoldable pub side_string : VectorMatching → List ℕ
unfolding join
side_string vm = elim vm.group_side [
  | [] ↦ []
  | c ∷ cs ↦ (c ∷ cs) ++ (codes "(" ++ (join (codes ", ") vm.include ++ codes ")"))
]

-- A space between two texts that are not empty.
unfoldable pub spaced : List ℕ → List ℕ → List ℕ
spaced [] ys = ys
spaced (x ∷ xs) [] = x ∷ xs
spaced (x ∷ xs) (y ∷ ys) = (x ∷ xs) ++ 32 ∷ y ∷ ys

unfoldable pub vector_matching_string : Option VectorMatching → List ℕ
unfolding card_string side_string spaced
vector_matching_string none = []
vector_matching_string (some vm) = spaced (card_string vm) (side_string vm)

unfoldable pub is_bin_op : {F : Type 0} → Expr F → Bool
is_bin_op (bin_op l r op b vm) = true
is_bin_op _ = false

-- An operand of a binary operation.
unfoldable pub parenthesised : Bool → List ℕ → List ℕ
parenthesised b s = if b then codes "(" ++ (s ++ codes ")") else s

-- A clause after a space, unless it is empty.
unfoldable pub after_space : List ℕ → List ℕ
after_space [] = []
after_space (c ∷ cs) = 32 ∷ c ∷ cs

unfoldable pub grouping_after : Option Grouping → List ℕ
unfolding grouping_string after_space
grouping_after none = []
grouping_after (some g) = after_space (grouping_string g)

module _ {F : Type 0} (env : Env F) where
  abbrev quoted : List ℕ → List ℕ
  quoted s = Quote.quote env.printable s

  unfoldable pub quote_parser_argument : List ℕ → List ℕ
  quote_parser_argument value =
      if can_backquote (length value) value then 96 ∷ (value ++ 96 ∷ []) else quoted value

  unfoldable pub label_matcher_string : LabelMatcher → List ℕ
  unfolding match_op_string
  label_matcher_string m = m.name ++ (match_op_string m.op ++ quoted m.value)

  unfoldable pub selector_string : StreamSelector → List ℕ
  unfolding join label_matcher_string
  selector_string s =
      codes "{" ++ (join (codes ", ") (map label_matcher_string s.matchers) ++ codes "}")

  unfoldable pub or_string : List (List ℕ) → List ℕ
  or_string [] = []
  or_string (alt ∷ alts) = codes " or " ++ (quoted alt ++ or_string alts)

  unfoldable pub line_filter_string : LineFilterStage → List ℕ
  unfolding line_filter_op_string or_string
  line_filter_string s =
      let head = line_filter_op_string s.op ++ codes " " in
      if s.ip
      then head ++ (codes "ip(" ++ (quoted s.value ++ codes ")"))
      else head ++ (quoted s.value ++ or_string s.or_list)

  unfoldable pub parser_stage_string : ParserStage → List ℕ
  unfolding extraction_string quote_parser_argument
  parser_stage_string s = elim s.typ [
    | parser_json ↦ extraction_string (codes "| json") s.param
    | parser_logfmt ↦ extraction_string (codes "| logfmt") s.param
    | parser_regexp ↦ codes "| regexp " ++ quote_parser_argument s.param
    | parser_pattern ↦ codes "| pattern " ++ quote_parser_argument s.param
    | parser_unpack ↦ codes "| unpack"
  ]

  unfoldable pub drop_matcher_string : DropMatcher → List ℕ
  drop_matcher_string m = m.name ++ (m.op ++ quoted m.value)

  unfoldable pub stage_string : Stage → List ℕ
  unfolding line_filter_string parser_stage_string drop_matcher_string join
  stage_string (line_filter s) = line_filter_string s
  stage_string (parser_stage s) = parser_stage_string s
  stage_string (label_filter raw) = codes "| " ++ raw
  stage_string (drop_stage labels matchers) =
      codes "| drop " ++ join (codes ", ") (labels ++ map drop_matcher_string matchers)
  stage_string (keep_stage labels matchers) =
      codes "| keep " ++ join (codes ", ") (labels ++ map drop_matcher_string matchers)
  stage_string decolorize = codes "| decolorize"
  stage_string (unwrap label []) = codes "| unwrap " ++ label
  stage_string (unwrap label (c ∷ cs)) =
      codes "| unwrap " ++ ((c ∷ cs) ++ (codes "(" ++ (label ++ codes ")")))
  stage_string (line_format template) = codes "| line_format " ++ quoted template
  stage_string (label_format raw formats) = codes "| label_format " ++ raw

  unfoldable pub pipeline_string : List Stage → List ℕ
  unfolding stage_string
  pipeline_string [] = []
  pipeline_string (s ∷ ss) = 32 ∷ (stage_string s ++ pipeline_string ss)

  unfoldable pub log_query_string : LogQuery → List ℕ
  unfolding selector_string pipeline_string
  log_query_string q = selector_string q.selector ++ pipeline_string q.pipeline

  unfoldable pub param_string : Option F → List ℕ
  param_string none = []
  param_string (some x) = env.format x ++ codes ","

  unfoldable pub offset_string : List ℕ → List ℕ
  offset_string [] = []
  offset_string (c ∷ cs) = codes " offset " ++ c ∷ cs

  unfoldable pub range_aggregation_string : RangeAggregation F → List ℕ
  unfolding range_op_string log_query_string param_string offset_string grouping_after
  range_aggregation_string r =
      range_op_string r.op
      ++ (codes "("
          ++ (param_string r.param
              ++ (log_query_string r.inner
                  ++ ((codes "[" ++ (r.range ++ codes "]"))
                      ++ (offset_string r.offset ++ (codes ")" ++ grouping_after r.grouping))))))

  -- `String`
  unfoldable pub expr_string : Expr F → List ℕ
  unfolding log_query_string range_aggregation_string vector_op_string grouping_after param_string
      parenthesised is_bin_op vector_matching_string after_space
  expr_string (log_query q) = log_query_string q
  expr_string (range_aggregation r) = range_aggregation_string r
  expr_string (vector_aggregation op grouping param inner) =
      vector_op_string op
      ++ (grouping_after grouping
          ++ (codes " (" ++ (param_string param ++ (expr_string inner ++ codes ")"))))
  expr_string (bin_op l r op return_bool vm) =
      parenthesised (is_bin_op l) (expr_string l)
      ++ (codes " "
          ++ (op
              ++ ((if return_bool then codes " bool" else [])
                  ++ (after_space (vector_matching_string vm)
                      ++ (codes " " ++ parenthesised (is_bin_op r) (expr_string r))))))
  expr_string (literal x) = env.format x
  expr_string (opaque_metric raw) = raw
