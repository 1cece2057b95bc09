-- ===== src/Logql/Parser/Params.antt =====
-- internal/logql/parser.go: the parameters that the aggregations of a parsed query have.
use loki_vl_proxy.Prelude.{
  ℕ, zero, suc, ◌≤◌, ◌<◌, ◌^◌, ◌≡◌, refl, true, false, not, ◌==◌, ltb, Option, none, some, List,
  arith,
}
use loki_vl_proxy.Logql.Env.{Env}
use loki_vl_proxy.Logql.Token.{eof, l_brace, l_paren, r_paren, comma, ident, number, minus}
use loki_vl_proxy.Logql.Result.{
  Result, ok, wrap, IfOk, IfOk-ok, IfOk-failed, IfOk-fuel, IfOk-always, IfOk-if, IfOk-bind,
  IfOk-then, IfOk_use, expected_k, expected_comma_after_k,
}
use loki_vl_proxy.Logql.Ast.{
  RangeOp, VectorOp, RangeAggregation, Expr, log_query, range_aggregation, vector_aggregation,
  bin_op, literal, opaque_metric,
}
use loki_vl_proxy.Logql.Ast.Print.{vector_op_string}
use loki_vl_proxy.Logql.Parser.State.{ParserState, at, advance, expect, new_parser}
use loki_vl_proxy.Logql.Parser.Words.{vector_ops, range_ops}
use loki_vl_proxy.Logql.Parser.Pipeline.{parse_log_query}
use loki_vl_proxy.Logql.Parser.Metric.{
  atoi, in_int64, takes_k, takes_phi, check_range_aggregation_argument, range_argument,
  range_duration, range_offset, at_modifier, optional_phi, without_param, parse_range_aggregation,
  trailing_grouping, k_value, checked_k, parameter_k, grouping_after_expr, parse_vector_aggregation,
}
use loki_vl_proxy.Logql.Parser.Expr.{
  binary_precedence, consume_balanced_parens, opaque_text, opaque_call, literal_value,
  number_literal, negative_literal, range_or_opaque, named_expr, parenthesised_expr, primary_step,
  vector_matching, skip_bool, binary_step, parse_expr, parse_primary, parse_binary_rhs, expr_fuel,
  parse_to_end, parse,
}

module _ {F : Type 0} (env : Env F) where
  -- The parameter of a vector aggregation: a positive int64 for those that take one, none for others.
  unfoldable pub IsParameter : VectorOp → Option F → Type 0
  unfolding takes_k
  IsParameter op none = takes_k op ≡ false
  IsParameter op (some x) =
      (takes_k op ≡ true) × ((k : ℕ) × (1 ≤ k) × (k < 2 ^ 63) × (x ≡ env.of_int k))

  -- Only `quantile_over_time` has a parameter.
  unfoldable pub IsPhi : RangeOp → Option F → Type 0
  unfolding takes_phi
  IsPhi op none = Unit
  IsPhi op (some x) = takes_phi op ≡ true

  unfoldable pub HasParams : Expr F → Type 0
  unfolding IsParameter IsPhi
  HasParams (log_query q) = Unit
  HasParams (range_aggregation r) = IsPhi r.op r.param
  HasParams (vector_aggregation op grouping param inner) = IsParameter op param × HasParams inner
  HasParams (bin_op l r op b vm) = HasParams l × HasParams r
  HasParams (literal x) = Unit
  HasParams (opaque_metric raw) = Unit

  abbrev Good : Expr F × ParserState → Type 0
  Good (e, p) = HasParams e

  atoi-lt : (s : List ℕ) (k : ℕ) → atoi s ≡ some k → k < 2 ^ 63
  unfolding atoi in_int64
  atoi-lt s k e = ground arith

  checked_k-IsParameter :
      (op : VectorOp) (s : List ℕ)
      → takes_k op ≡ true
      → IfOk (λ x. IsParameter op (some x)) (checked_k env op s)
  unfolding checked_k k_value IsParameter
  checked_k-IsParameter op s t = go (atoi s) refl
    where
      go : (o : Option ℕ) → atoi s ≡ o → IfOk (λ x. IsParameter op (some x)) (k_value env op s o)
      go none e = IfOk-failed _ _
      go (some k) e =
          IfOk-if (λ x. IsParameter op (some x)) (k == 0) _ _ (λ z. IfOk-failed _ _)
            λ z. IfOk-ok _ _ (t, (k, ground arith, atoi-lt s k e, refl))

  parameter_k-IsParameter :
      (op : VectorOp) (p : ParserState) → IfOk (λ (o, q). IsParameter op o) (parameter_k env op p)
  unfolding parameter_k IsParameter
  parameter_k-IsParameter op p =
      IfOk-if (λ (o, q). IsParameter op o) (not (takes_k op)) _ _ (λ b. IfOk-ok _ _ (ground arith))
        λ b.
          IfOk-then (λ (o, q). IsParameter op o)
            (wrap (λ e. expected_k (vector_op_string op)) (expect env number p)) _
            λ (tok, p1).
              IfOk-bind (λ x. IsParameter op (some x)) (λ (o, q). IsParameter op o) _ _
                (checked_k-IsParameter op tok.val (ground arith))
                λ x v.
                  IfOk-then (λ (o, q). IsParameter op o)
                    (wrap (λ e. expected_comma_after_k (vector_op_string op)) (expect env comma p1))
                    _ λ (tok2, p2). IfOk-ok _ _ v

  takes_phi-IsPhi : (op : RangeOp) (o : Option F) → takes_phi op ≡ true → IsPhi op o
  unfolding IsPhi
  takes_phi-IsPhi op none e = tt
  takes_phi-IsPhi op (some x) e = e

  optional_phi-IsPhi :
      (op : RangeOp) (p : ParserState) → IfOk (λ (o, q). IsPhi op o) (optional_phi env op p)
  unfolding optional_phi IsPhi
  optional_phi-IsPhi op p =
      IfOk-if (λ (o, q). IsPhi op o) (takes_phi op) _ _
        (λ b. IfOk-always _ _ λ (o, q). takes_phi-IsPhi op o b) λ b. IfOk-ok _ _ tt

  parse_range_aggregation-IsPhi :
      (primary : ParserState → Result (Expr F × ParserState)) (op : RangeOp) (p : ParserState)
      → IfOk (λ (r, q). IsPhi r.op r.param) (parse_range_aggregation env primary op p)
  unfolding parse_range_aggregation
  parse_range_aggregation-IsPhi primary op p =
      let P : RangeAggregation F × ParserState → Type 0 = λ (r, q). IsPhi r.op r.param in
      IfOk-then P (expect env l_paren (advance env p)) _ λ (t, p1).
        IfOk-bind (λ (o, q). IsPhi op o) P _ _ (optional_phi-IsPhi op p1)
          λ (o, p2) phi.
            IfOk-then P (check_range_aggregation_argument env (without_param env o) p2) _ λ c.
              IfOk-then P (range_argument env primary p2) _ λ (lq, p3).
                IfOk-then P (range_duration env p3) _ λ (d, p4).
                  IfOk-then P (range_offset env p4) _ λ (off, p5).
                    IfOk-then P (at_modifier env p5) _
                      λ p6. IfOk-then P (expect env r_paren p6) _ λ (t7, p7). IfOk-ok _ _ phi

  -- Of a parser: what it returns has its parameters.
  abbrev IsGood : (ParserState → Result (Expr F × ParserState)) → Type 0
  IsGood f = (p : ParserState) → IfOk Good (f p)

  parse_vector_aggregation-Good :
      (expr : ParserState → Result (Expr F × ParserState)) (op : VectorOp)
      → IsGood expr
      → IsGood (parse_vector_aggregation env expr op)
  unfolding parse_vector_aggregation HasParams
  parse_vector_aggregation-Good expr op g p =
      IfOk-then Good (trailing_grouping env (advance env p)) _ λ (before, p1).
        IfOk-then Good (expect env l_paren p1) _ λ (t, p2).
          IfOk-bind (λ (o, q). IsParameter op o) Good _ _ (parameter_k-IsParameter op p2)
            λ (o, p3) param. IfOk-bind Good Good _ _ (g p3) λ (inner, p4) good.
              IfOk-then Good (expect env r_paren p4) _ λ (t5, p5).
                IfOk-then Good (grouping_after_expr env before p5) _
                  λ (gr, p6). IfOk-ok _ _ (param, good)

  opaque_call-Good : IsGood (opaque_call env)
  unfolding opaque_call opaque_text HasParams
  opaque_call-Good p =
      IfOk-if Good (not (at l_paren (advance env p))) _ _ (λ b. IfOk-failed _ _)
        λ b. IfOk-then Good (consume_balanced_parens env (advance env (advance env p))) _ λ o. go o
    where
      go : (o : Option (List ℕ × ParserState)) → IfOk Good (opaque_text env p o)
      go none = IfOk-failed _ _
      go (some (s, q)) = IfOk-ok _ _ tt

  number_literal-Good : (f : F → F) → IsGood (number_literal env f)
  unfolding number_literal literal_value HasParams
  number_literal-Good f p = go (env.parse_float p.cur.val)
    where
      go : (o : Option F) → IfOk Good (literal_value env f o p)
      go none = IfOk-failed _ _
      go (some x) = IfOk-ok _ _ tt

  negative_literal-Good : IsGood (negative_literal env)
  unfolding negative_literal
  negative_literal-Good p =
      IfOk-if Good (at number p) _ _ (λ b. number_literal-Good env.negate p) λ b. IfOk-failed _ _

  module _ (expr primary : ParserState → Result (Expr F × ParserState)) (es : IsGood expr) where
    named_expr-Good : (o : Option VectorOp) → IsGood (named_expr env expr primary o)
    unfolding named_expr range_or_opaque HasParams
    named_expr-Good (some op) p = parse_vector_aggregation-Good expr op es p
    named_expr-Good none p = go (range_ops p.cur.val)
      where
        go : (o : Option RangeOp) → IfOk Good (range_or_opaque env expr primary o p)
        go none = opaque_call-Good p
        go (some op) =
            IfOk-bind (λ (r, q). IsPhi r.op r.param) Good _ _
              (parse_range_aggregation-IsPhi primary op p)
              λ (ra, p1) phi. IfOk-then Good (trailing_grouping env p1) _ λ (g, p2). IfOk-ok _ _ phi

    primary_step-Good : IsGood (primary_step env expr primary)
    unfolding primary_step parenthesised_expr HasParams
    primary_step-Good p =
        IfOk-if Good (at eof p) _ _ (λ b. IfOk-failed _ _)
          λ b.
            IfOk-if Good (at number p) _ _ (λ c. number_literal-Good (λ x. x) p)
              λ c.
                IfOk-if Good (at minus p) _ _ (λ d. negative_literal-Good (advance env p))
                  λ d.
                    IfOk-if Good (at ident p) _ _ (λ f. named_expr-Good (vector_ops p.cur.val) p)
                      λ f.
                        IfOk-if Good (at l_paren p) _ _
                          (λ g. IfOk-bind Good Good _ _ (es (advance env p)) λ (e, p1) good.
                            IfOk-then Good (expect env r_paren p1) _ λ (t, p2). IfOk-ok _ _ good)
                          λ g.
                            IfOk-if Good (at l_brace p) _ _
                              (λ h.
                                IfOk-then Good (parse_log_query env p) _ λ (lq, p1). IfOk-ok _ _ tt)
                              λ h. IfOk-failed _ _

  binary_step-Good :
      (primary : ParserState → Result (Expr F × ParserState))
      (rhs : Expr F → ℕ → ParserState → Result (Expr F × ParserState))
      → IsGood primary
      → ((e : Expr F) (least : ℕ) → HasParams e → IsGood (rhs e least))
      → (lhs : Expr F) (least : ℕ) → HasParams lhs
      → IsGood (binary_step env primary rhs lhs least)
  unfolding binary_step HasParams
  binary_step-Good primary rhs ps rs lhs least good p =
      IfOk-if Good (ltb (binary_precedence p.cur.typ) least) _ _ (λ b. IfOk-ok _ _ good)
        λ b. IfOk-then Good (vector_matching env (skip_bool env (advance env p))) _ λ (vm, p2).
          IfOk-bind Good Good _ _ (ps p2) λ (x, p3) gx.
            IfOk-bind Good Good _ _ (rs x _ gx p3) λ (r, p4) gr. rs _ least (good, gr) p4

  parsers-Good :
      (fuel : ℕ)
      → IsGood (parse_primary env fuel)
        × ((e : Expr F) (least : ℕ) → HasParams e → IsGood (parse_binary_rhs env fuel e least))
        × IsGood (parse_expr env fuel)
  unfolding parse_expr
  parsers-Good zero = ((λ p. IfOk-fuel _), (λ e least g p. IfOk-fuel _), λ p. IfOk-fuel _)
  parsers-Good (suc fuel) =
      let (ps, rs, es) = parsers-Good fuel in
      (
        (λ p. primary_step-Good (parse_expr env fuel) (parse_primary env fuel) es p),
        (λ e least g p.
            binary_step-Good (parse_primary env fuel) (parse_binary_rhs env fuel) ps rs e least g
              p),
        λ p. IfOk-bind Good Good _ _ (ps p) λ (lhs, p1) g. rs lhs 1 g p1,
      )

  -- In a parsed query, at any depth: `topk` and `bottomk` have a parameter, a whole number from 1 on
  -- that is an int64, no other vector aggregation has one, and of the range aggregations only
  -- `quantile_over_time` can have one.
  pub parse-HasParams : (input : List ℕ) (e : Expr F) → parse env input ≡ ok e → HasParams e
  unfolding parse parse_to_end
  parse-HasParams input e r = IfOk_use HasParams _ e (go (advance env (new_parser env input))) r
    where
      go : (p : ParserState) → IfOk HasParams (parse_to_end env p)
      go p =
          IfOk-bind Good HasParams _ _ ((parsers-Good (expr_fuel p)).2 p)
            λ (x, p1) g. IfOk-if HasParams (at eof p1) _ _ (λ b. IfOk-ok _ _ g) λ b. IfOk-failed _ _
