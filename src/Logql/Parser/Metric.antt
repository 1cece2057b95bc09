-- ===== src/Logql/Parser/Metric.antt =====
-- internal/logql/parser.go: range and vector aggregations.
use loki_vl_proxy.Prelude.{
  ℕ, zero, suc, ◌+◌, ◌*◌, ◌-◌, ◌^◌, Bool, true, false, ◌&&◌, ◌||◌, not, Option, none, some, List,
  [], ◌∷◌, ◌++◌, if◌then◌else◌, leb, ltb, ◌==◌, length,
}
use loki_vl_proxy.Logql.Text.{codes, utf8, runes_eq, ascii_digit}
use loki_vl_proxy.Logql.Env.{Env}
use loki_vl_proxy.Logql.Quote
use loki_vl_proxy.Logql.Token.{
  eof, error, l_brace, l_paren, r_paren, l_bracket, r_bracket, comma, at_sign, ident, duration,
  number, minus, by, without,
}
use loki_vl_proxy.Logql.Result.{
  ParseFailure, Result, ok, failed, out_of_fuel, ◌>>=◌, wrap, parse_error, invalid_phi,
  expected_phi_after_minus, expected_range, expected_duration, expected_offset,
  expected_paren_after_at, expected_timestamp, expected_k, expected_comma_after_k,
}
use loki_vl_proxy.Logql.Ast.{
  RangeOp, quantile_over_time, VectorOp, topk, bottomk, Grouping, LogQuery, RangeAggregation, Expr,
  log_query, vector_aggregation,
}
use loki_vl_proxy.Logql.Ast.Print.{vector_op_string}
use loki_vl_proxy.Logql.Parser.State.{ParserState, at, at_word, pos, advance, expect, measure}
use loki_vl_proxy.Logql.Parser.Words.{loki_token_name}
use loki_vl_proxy.Logql.Parser.Labels.{parse_grouping}
use loki_vl_proxy.Logql.Parser.Pipeline.{parse_log_query}

-- `strconv.Atoi` on a token that starts with a digit: the value of decimal digits below 2^63.
unfoldable pub decimal : ℕ → List ℕ → Option ℕ
decimal acc [] = some acc
decimal acc (c ∷ cs) = if ascii_digit c then decimal (acc * 10 + (c - b'0')) cs else none

unfoldable pub in_int64 : Option ℕ → Option ℕ
in_int64 none = none
in_int64 (some n) = if ltb n (2 ^ 63) then some n else none

unfoldable pub atoi : List ℕ → Option ℕ
unfolding decimal in_int64
atoi [] = none
atoi (c ∷ cs) = in_int64 (decimal 0 (c ∷ cs))

-- What follows the last digit.
unfoldable pub duration_unit : List ℕ → List ℕ
duration_unit [] = []
duration_unit (c ∷ cs) =
    let unit = duration_unit cs in
    if leb (length cs) (length unit) && not (ascii_digit c) then c ∷ unit else unit

unfoldable pub takes_k : VectorOp → Bool
takes_k topk = true
takes_k bottomk = true
takes_k _ = false

unfoldable pub takes_phi : RangeOp → Bool
takes_phi quantile_over_time = true
takes_phi _ = false

module _ {F : Type 0} (env : Env F) where
  unfoldable pub phi_value : (F → F) → Option F → ParserState → Result (Option F × ParserState)
  unfolding advance expect
  phi_value f none p = failed invalid_phi
  phi_value f (some x) p = do (tok, p1) ← expect env comma (advance env p); ok (some (f x), p1)

  -- The parameter that a number token gives, and the comma after it.
  unfoldable pub phi : (F → F) → ParserState → Result (Option F × ParserState)
  unfolding phi_value
  phi f p = phi_value f (env.parse_float p.cur.val) p

  unfoldable pub negative_phi : ParserState → Result (Option F × ParserState)
  unfolding at phi
  negative_phi p = if at number p then phi env.negate p else failed expected_phi_after_minus

  unfoldable pub parse_quantile_param : ParserState → Result (Option F × ParserState)
  unfolding at advance phi negative_phi
  parse_quantile_param p =
      if at number p
      then phi (λ x. x) p
      else if at minus p
      then negative_phi (advance env p)
      else ok (none, p)

  -- The probe after the opening parentheses.
  unfoldable pub skip_open_parens : ℕ → ParserState → Result ParserState
  unfolding at advance
  skip_open_parens zero p = out_of_fuel
  skip_open_parens (suc fuel) p =
      if at l_paren p then skip_open_parens fuel (advance env p) else ok p

  unfoldable pub argument_error : Bool → ParserState → ParseFailure
  unfolding loki_token_name at pos
  argument_error number_allowed probe =
      let expecting = if number_allowed then codes "NUMBER or { or (" else codes "{ or (" in
      let msg =
        codes "syntax error: unexpected "
        ++ (loki_token_name probe.cur ++ (codes ", expecting " ++ expecting)) in
      if at eof probe
      then parse_error 1 (length (utf8 probe.input) + 1) msg
      else if at ident probe || at number probe
      then parse_error 1 (pos probe - length probe.cur.val + 1) msg
      else parse_error 0 0 msg

  unfoldable pub check_range_aggregation_argument : Bool → ParserState → Result {0} Unit
  unfolding skip_open_parens measure at argument_error
  check_range_aggregation_argument number_allowed p = do
    probe ← skip_open_parens (suc (measure p)) p
    if at l_brace probe
        then ok tt
        else failed (argument_error (number_allowed && not (at l_paren p)) probe)

  unfoldable pub only_log_query : Expr F × ParserState → Result (LogQuery × ParserState)
  only_log_query (log_query lq, p) = ok (lq, p)
  only_log_query _ = failed (
      parse_error 0 0
        (codes "syntax error: unexpected expression in range aggregation, expecting { or ("))

  -- `primary` is `parsePrimary`.
  unfoldable pub range_argument :
      (ParserState → Result (Expr F × ParserState)) → ParserState → Result (LogQuery × ParserState)
  unfolding at parse_log_query only_log_query
  range_argument primary p =
      if at l_brace p then parse_log_query env p else (primary p >>= only_log_query)

  -- The message for `[range:step]`.
  unfoldable pub subquery_error : ℕ → List ℕ → List ℕ → ParseFailure
  unfolding duration_unit
  subquery_error col range lit = parse_error 0 col (
      codes "unknown unit "
      ++ (Quote.quote env.printable (duration_unit range ++ codes ":")
          ++ (codes " in duration " ++ Quote.quote env.printable lit)))

  -- The column is that of the bracket's end.
  unfoldable pub range_duration : ParserState → Result (List ℕ × ParserState)
  unfolding at expect advance wrap pos subquery_error
  range_duration p = if not (at l_bracket p) then failed (expected_range p.cur) else do
    (dur, p1) ← wrap expected_duration (expect env duration (advance env p))
    let p2 = advance env p1
    let step : List ℕ = if at duration p2 then p2.cur.val else []
    if at error p1 && runes_eq p1.cur.val (codes ":")
        then failed (subquery_error (pos p) dur.val (dur.val ++ (codes ":" ++ step)))
        else do (tok, p3) ← expect env r_bracket p1; ok (dur.val, p3)

  unfoldable pub range_offset : ParserState → Result (List ℕ × ParserState)
  unfolding at_word at advance expect wrap
  range_offset p = if not (at_word (codes "offset") p) then ok ([], p) else do
    (dur, p1) ← wrap expected_offset (expect env duration (advance env p))
    ok (dur.val, p1)

  -- After `start` or `end`.
  unfoldable pub empty_parens : ParserState → Result ParserState
  unfolding expect wrap
  empty_parens p = do
    (opening, p1) ← wrap (λ e. expected_paren_after_at l_paren) (expect env l_paren p)
    (closing, p2) ← wrap (λ e. expected_paren_after_at r_paren) (expect env r_paren p1)
    ok p2

  -- The `@` modifier, which is read and forgotten.
  unfoldable pub at_modifier : ParserState → Result ParserState
  unfolding at at_word advance empty_parens
  at_modifier p =
      let p1 = advance env p in
      if not (at at_sign p)
      then ok p
      else if at number p1
      then ok (advance env p1)
      else if at_word (codes "start") p1 || at_word (codes "end") p1
      then empty_parens (advance env p1)
      else failed (expected_timestamp p1.cur.val)

  unfoldable pub optional_phi : RangeOp → ParserState → Result (Option F × ParserState)
  unfolding takes_phi parse_quantile_param
  optional_phi op p = if takes_phi op then parse_quantile_param p else ok (none, p)

  unfoldable pub without_param : Option F → Bool
  without_param none = true
  without_param (some x) = false

  unfoldable pub parse_range_aggregation :
      (ParserState → Result (Expr F × ParserState))
      → RangeOp
      → ParserState
      → Result (RangeAggregation F × ParserState)
  unfolding advance expect optional_phi check_range_aggregation_argument without_param
      range_argument range_duration range_offset at_modifier
  parse_range_aggregation primary op p = do
    (opening, p1) ← expect env l_paren (advance env p)
    (param, p2) ← optional_phi op p1
    checked ← check_range_aggregation_argument (without_param param) p2
    (inner, p3) ← range_argument primary p2
    (range, p4) ← range_duration p3
    (offset, p5) ← range_offset p4
    p6 ← at_modifier p5
    (closing, p7) ← expect env r_paren p6
    ok (
      record {
        op = op;
        inner = inner;
        range = range;
        offset = offset;
        param = param;
        grouping = none;
      },
      p7,
    )

  unfoldable pub trailing_grouping : ParserState → Result (Option Grouping × ParserState)
  unfolding at parse_grouping
  trailing_grouping p =
      if at by p || at without p
      then (parse_grouping env p >>= λ (g, p1). ok (some g, p1))
      else ok (none, p)

  -- The message quotes what was written for `k`.
  unfoldable pub k_value : VectorOp → List ℕ → Option ℕ → Result F
  unfolding vector_op_string
  k_value op s none = failed (
      parse_error 0 0
        (codes "invalid parameter " ++ (vector_op_string op ++ (codes "(" ++ (s ++ codes ",")))))
  k_value op s (some k) =
      if k == 0
      then failed (
          parse_error 0 0 (
            codes "invalid parameter (must be greater than 0) "
            ++ (vector_op_string op ++ (codes "(" ++ s))))
      else ok (env.of_int k)

  unfoldable pub checked_k : VectorOp → List ℕ → Result F
  unfolding atoi k_value
  checked_k op s = k_value op s (atoi s)

  unfoldable pub parameter_k : VectorOp → ParserState → Result (Option F × ParserState)
  unfolding takes_k expect wrap checked_k vector_op_string
  parameter_k op p = if not (takes_k op) then ok (none, p) else do
    (tok, p1) ← wrap (λ e. expected_k (vector_op_string op)) (expect env number p)
    k ← checked_k op tok.val
    (comma_tok, p2) ← wrap (λ e. expected_comma_after_k (vector_op_string op)) (expect env comma p1)
    ok (some k, p2)

  -- A grouping after the expression counts when there is none before it.
  unfoldable pub grouping_after_expr :
      Option Grouping → ParserState → Result (Option Grouping × ParserState)
  unfolding trailing_grouping
  grouping_after_expr (some g) p = ok (some g, p)
  grouping_after_expr none p = trailing_grouping p

  -- `expr` is `parseExpr`.
  unfoldable pub parse_vector_aggregation :
      (ParserState → Result (Expr F × ParserState))
      → VectorOp
      → ParserState
      → Result (Expr F × ParserState)
  unfolding advance trailing_grouping expect parameter_k grouping_after_expr
  parse_vector_aggregation expr op p = do
    (before, p1) ← trailing_grouping (advance env p)
    (opening, p2) ← expect env l_paren p1
    (param, p3) ← parameter_k op p2
    (inner, p4) ← expr p3
    (closing, p5) ← expect env r_paren p4
    (grouping, p6) ← grouping_after_expr before p5
    ok (vector_aggregation op grouping param inner, p6)
