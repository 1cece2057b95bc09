-- ===== src/Logql/Ast.antt =====
-- internal/logql/ast.go: the syntax tree. Names, texts and values are bytes; `F` is float64. A
-- parameter with its flag `HasParam` is an `Option`.
pub mod Print
pub mod Stubs
use loki_vl_proxy.Prelude.{
  ℕ, Bool, true, false, ◌&&◌, not, Option, none, some, List, [], ◌∷◌, if◌then◌else◌, keep,
}

pub data MatchOp : Type 0 where
  match_eq match_neq match_re match_not_re : MatchOp

pub record LabelMatcher : Type 0 where
  pub name : List ℕ
  pub op : MatchOp
  pub value : List ℕ

pub record StreamSelector : Type 0 where
  pub matchers : List LabelMatcher

pub data LineFilterOp : Type 0 where
  contains excludes match_regexp exclude_regexp contains_pattern exclude_pattern : LineFilterOp

pub record LineFilterStage : Type 0 where
  pub op : LineFilterOp
  pub value : List ℕ
  pub ip : Bool
  pub or_list : List (List ℕ)

pub data ParserType : Type 0 where
  parser_json parser_logfmt parser_regexp parser_pattern parser_unpack : ParserType

pub record ExtractionField : Type 0 where
  pub name : List ℕ
  pub expression : List ℕ

pub record ParserStage : Type 0 where
  pub typ : ParserType
  pub param : List ℕ
  pub fields : List ExtractionField

pub record DropMatcher : Type 0 where
  pub name : List ℕ
  pub op : List ℕ
  pub value : List ℕ

pub record LabelFormat : Type 0 where
  pub name : List ℕ
  pub value : List ℕ
  pub rename : Bool

pub data Stage : Type 0 where
  line_filter : LineFilterStage → Stage
  parser_stage : ParserStage → Stage
  label_filter : List ℕ → Stage
  drop_stage : List (List ℕ) → List DropMatcher → Stage
  keep_stage : List (List ℕ) → List DropMatcher → Stage
  decolorize : Stage
  -- The label and the converter.
  unwrap : List ℕ → List ℕ → Stage
  line_format : List ℕ → Stage
  label_format : List ℕ → List LabelFormat → Stage

pub record LogQuery : Type 0 where
  pub selector : StreamSelector
  pub pipeline : List Stage

pub record Grouping : Type 0 where
  pub without_labels : Bool
  pub labels : List (List ℕ)

pub data RangeOp : Type 0 where
  rate count_over_time bytes_rate bytes_over_time avg_over_time sum_over_time min_over_time :
      RangeOp
  max_over_time stdvar_over_time stddev_over_time quantile_over_time first_over_time : RangeOp
  last_over_time absent_over_time rate_counter : RangeOp

pub data VectorOp : Type 0 where
  sum avg min max count stddev stdvar bottomk topk sort sort_desc : VectorOp

pub record VectorMatching : Type 0 where
  pub card : List ℕ
  pub match_labels : List (List ℕ)
  pub group_side : List ℕ
  pub include : List (List ℕ)

-- `Inner` is always a log query, as the comment in the code says.
pub record RangeAggregation (F : Type 0) : Type 0 where
  pub op : RangeOp
  pub inner : LogQuery
  pub range : List ℕ
  pub offset : List ℕ
  pub param : Option F
  pub grouping : Option Grouping

pub data Expr (F : Type 0) : Type 0 where
  log_query : LogQuery → Expr F
  range_aggregation : RangeAggregation F → Expr F
  vector_aggregation : VectorOp → Option Grouping → Option F → Expr F → Expr F
  -- The operator's text and whether `bool` follows it.
  bin_op : Expr F → Expr F → List ℕ → Bool → Option VectorMatching → Expr F
  literal : F → Expr F
  opaque_metric : List ℕ → Expr F

-- `LineFilterStage.Values`
unfoldable pub values : LineFilterStage → List (List ℕ)
values s = s.value ∷ s.or_list

-- `u.Label == ""`
unfoldable pub is_stub : Stage → Bool
is_stub (unwrap [] converter) = true
is_stub _ = false

unfoldable pub has_stub : List Stage → Bool
unfolding is_stub
has_stub [] = false
has_stub (s ∷ ss) = if is_stub s then true else has_stub ss

-- `StripIncompleteUnwrapStubs`
unfoldable pub strip_incomplete_unwrap_stubs : LogQuery → LogQuery
unfolding has_stub
strip_incomplete_unwrap_stubs lq =
    if has_stub lq.pipeline
    then record { selector = lq.selector; pipeline = keep (λ s. not (is_stub s)) lq.pipeline }
    else lq
