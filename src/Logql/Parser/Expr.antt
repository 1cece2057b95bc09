-- ===== src/Logql/Parser/Expr.antt =====
-- internal/logql/parser.go: metric expressions and binary operations.
use loki_vl_proxy.Prelude.{
  ℕ, zero, suc, ◌+◌, ◌||◌, not, Option, none, some, List, [], ◌++◌, if◌then◌else◌, ltb, ◌==◌,
}
use loki_vl_proxy.Logql.Text.{codes, utf8, runes_eq}
use loki_vl_proxy.Logql.Env.{Env}
use loki_vl_proxy.Logql.Token.{
  TokType, eof, l_brace, l_paren, r_paren, ident, number, plus, minus, star, slash, percent, caret,
  lt, gt, lt_eq, gt_eq, eq_eq, bang_eq, on, ignoring, group_left, group_right, and_, or_, unless,
}
use loki_vl_proxy.Logql.Result.{
  Result, ok, failed, out_of_fuel, ◌>>=◌, empty_expression, unexpected_token, trailing_token,
  invalid_number, expected_number_after_minus, unterminated_call, unexpected_identifier,
  not_a_log_query,
}
use loki_vl_proxy.Logql.Ast.{
  RangeOp, VectorOp, VectorMatching, LogQuery, Expr, log_query, range_aggregation, bin_op, literal,
  opaque_metric,
}
use loki_vl_proxy.Logql.Parser.State.{
  ParserState, at, at_word, pos, between, advance, expect, measure, new_parser,
}
use loki_vl_proxy.Logql.Parser.Words.{vector_ops, range_ops}
use loki_vl_proxy.Logql.Parser.Labels.{parse_label_list}
use loki_vl_proxy.Logql.Parser.Fields.{depth_after}
use loki_vl_proxy.Logql.Parser.Pipeline.{parse_log_query}
use loki_vl_proxy.Logql.Parser.Metric.{
  parse_range_aggregation, parse_vector_aggregation, trailing_grouping,
}

unfoldable pub binary_precedence : TokType → ℕ
binary_precedence or_ = 1
binary_precedence and_ = 2
binary_precedence unless = 2
binary_precedence eq_eq = 3
binary_precedence bang_eq = 3
binary_precedence lt = 3
binary_precedence lt_eq = 3
binary_precedence gt = 3
binary_precedence gt_eq = 3
binary_precedence plus = 4
binary_precedence minus = 4
binary_precedence star = 5
binary_precedence slash = 5
binary_precedence percent = 5
binary_precedence caret = 6
binary_precedence _ = 0

-- The least precedence of an operator in the right operand of `op`: only `^` associates to the right.
unfoldable pub next_precedence : List ℕ → ℕ → ℕ
next_precedence op precedence = if runes_eq op (codes "^") then precedence else suc precedence

-- The fuel that is enough from a state on.
unfoldable pub expr_fuel : ParserState → ℕ
unfolding measure
expr_fuel p = suc (suc (measure p + measure p))

module _ {F : Type 0} (env : Env F) where
  -- Up to the parenthesis that closes `depth` of them: the state after it, `none` at the end.
  unfoldable pub balanced_parens : ℕ → ℕ → ParserState → Result (Option (List ℕ × ParserState))
  unfolding at advance depth_after
  balanced_parens zero depth p = out_of_fuel
  balanced_parens (suc fuel) depth p =
      let after = depth_after depth p.cur.typ in
      let longer = balanced_parens fuel after (advance env p) in
      if at eof p
      then ok none
      else if after == 0
      then ok (some (p.sc.rest, advance env p))
      else longer

  unfoldable pub consume_balanced_parens : ParserState → Result (Option (List ℕ × ParserState))
  unfolding balanced_parens measure
  consume_balanced_parens p = balanced_parens (suc (measure p)) 1 p

  unfoldable pub opaque_text :
      ParserState → Option (List ℕ × ParserState) → Result (Expr F × ParserState)
  unfolding between
  opaque_text p none = failed (unterminated_call p.cur.val)
  opaque_text p (some (end, p1)) =
      ok (opaque_metric (p.cur.val ++ utf8 (between p.sc.rest end)), p1)

  -- A call that the parser does not know, `p` at its name. Its text, from a letter or `_` up to the
  -- closing parenthesis, has no space at its ends.
  unfoldable pub opaque_call : ParserState → Result (Expr F × ParserState)
  unfolding at advance consume_balanced_parens opaque_text
  opaque_call p =
      let p1 = advance env p in
      if not (at l_paren p1)
      then failed (unexpected_identifier p.cur.val)
      else do closed ← consume_balanced_parens (advance env p1); opaque_text p closed

  unfoldable pub literal_value : (F → F) → Option F → ParserState → Result (Expr F × ParserState)
  unfolding advance
  literal_value f none p = failed (invalid_number p.cur.val)
  literal_value f (some x) p = ok (literal (f x), advance env p)

  unfoldable pub number_literal : (F → F) → ParserState → Result (Expr F × ParserState)
  unfolding literal_value
  number_literal f p = literal_value f (env.parse_float p.cur.val) p

  unfoldable pub negative_literal : ParserState → Result (Expr F × ParserState)
  unfolding at number_literal
  negative_literal p =
      if at number p then number_literal env.negate p else failed expected_number_after_minus

  -- The loops of `parsePrimary` and `parseExpr` on themselves are parameters here: `expr` and
  -- `primary` are the parsers, on less fuel.
  module _ (expr primary : ParserState → Result (Expr F × ParserState)) where
    -- The name of a range aggregation, or one that the parser does not know.
    unfoldable pub range_or_opaque : Option RangeOp → ParserState → Result (Expr F × ParserState)
    unfolding parse_range_aggregation trailing_grouping opaque_call
    range_or_opaque none p = opaque_call p
    range_or_opaque (some op) p = do
      (ra, p1) ← parse_range_aggregation env primary op p
      (g, p2) ← trailing_grouping env p1
      ok (range_aggregation (record ra { grouping = g }), p2)

    unfoldable pub named_expr : Option VectorOp → ParserState → Result (Expr F × ParserState)
    unfolding range_ops parse_vector_aggregation range_or_opaque
    named_expr (some op) p = parse_vector_aggregation env expr op p
    named_expr none p = range_or_opaque (range_ops p.cur.val) p

    unfoldable pub parenthesised_expr : ParserState → Result (Expr F × ParserState)
    unfolding advance expect
    parenthesised_expr p = do
      (inner, p1) ← expr (advance env p)
      (closing, p2) ← expect env r_paren p1
      ok (inner, p2)

    unfoldable pub primary_step : ParserState → Result (Expr F × ParserState)
    unfolding at advance number_literal negative_literal vector_ops named_expr parenthesised_expr
        parse_log_query
    primary_step p =
        if at eof p
        then failed empty_expression
        else if at number p
        then number_literal (λ x. x) p
        else if at minus p
        then negative_literal (advance env p)
        else if at ident p
        then named_expr (vector_ops p.cur.val) p
        else if at l_paren p
        then parenthesised_expr p
        else if at l_brace p
        then (parse_log_query env p >>= λ (lq, p1). ok (log_query lq, p1))
        else failed (unexpected_token p.cur)

  unfoldable pub group_side : VectorMatching → ParserState → Result (VectorMatching × ParserState)
  unfolding at advance parse_label_list
  group_side vm p = if not (at group_left p || at group_right p) then ok (vm, p) else do
    (include, p1) ← parse_label_list env (advance env p)
    ok (record vm { group_side = p.cur.val; include = include }, p1)

  -- `on` or `ignoring` and what belongs to it.
  unfoldable pub vector_matching : ParserState → Result (Option VectorMatching × ParserState)
  unfolding at advance parse_label_list group_side
  vector_matching p = if not (at on p || at ignoring p) then ok (none, p) else do
    (labels, p1) ← parse_label_list env (advance env p)
    (vm, p2) ←
        group_side
          (record { card = p.cur.val; match_labels = labels; group_side = []; include = [] }) p1
    ok (some vm, p2)

  unfoldable pub skip_bool : ParserState → ParserState
  unfolding at_word at advance
  skip_bool p = if at_word (codes "bool") p then advance env p else p

  -- One operator of the loop and the operands after it; `rhs` is the loop on less fuel.
  unfoldable pub binary_step :
      (ParserState → Result (Expr F × ParserState))
      → (Expr F → ℕ → ParserState → Result (Expr F × ParserState))
      → Expr F
      → ℕ
      → ParserState
      → Result (Expr F × ParserState)
  unfolding binary_precedence next_precedence advance at_word at skip_bool vector_matching
  binary_step primary rhs lhs least p =
      let precedence = binary_precedence p.cur.typ in
      let op = p.cur.val in
      let p1 = advance env p in
      if ltb precedence least then ok (lhs, p) else do
        (vm, p2) ← vector_matching (skip_bool p1)
        (operand, p3) ← primary p2
        (right, p4) ← rhs operand (next_precedence op precedence) p3
        rhs (bin_op lhs right op (at_word (codes "bool") p1) vm) least p4

  unfoldable mutual
    unfolding primary_step binary_step

    pub parse_expr : ℕ → ParserState → Result (Expr F × ParserState)
    parse_expr zero p = out_of_fuel
    parse_expr (suc fuel) p = do (lhs, p1) ← parse_primary fuel p; parse_binary_rhs fuel lhs 1 p1

    pub parse_primary : ℕ → ParserState → Result (Expr F × ParserState)
    parse_primary zero p = out_of_fuel
    parse_primary (suc fuel) p = primary_step (parse_expr fuel) (parse_primary fuel) p

    pub parse_binary_rhs : ℕ → Expr F → ℕ → ParserState → Result (Expr F × ParserState)
    parse_binary_rhs zero lhs least p = out_of_fuel
    parse_binary_rhs (suc fuel) lhs least p =
        binary_step (parse_primary fuel) (parse_binary_rhs fuel) lhs least p

  unfoldable pub parse_to_end : ParserState → Result (Expr F)
  unfolding parse_expr expr_fuel at pos
  parse_to_end p = do
    (e, p1) ← parse_expr (expr_fuel p) p
    if at eof p1 then ok e else failed (trailing_token p1.cur.val (pos p1))

  unfoldable pub parse : List ℕ → Result (Expr F)
  unfolding new_parser advance parse_to_end
  parse input = parse_to_end (advance env (new_parser env input))

  unfoldable pub as_log_query : Expr F → Result LogQuery
  as_log_query (log_query lq) = ok lq
  as_log_query _ = failed not_a_log_query

  -- `ParseLogQuery`
  unfoldable pub parse_log_query_text : List ℕ → Result LogQuery
  unfolding parse as_log_query
  parse_log_query_text input = parse input >>= as_log_query
