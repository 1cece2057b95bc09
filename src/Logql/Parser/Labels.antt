-- ===== src/Logql/Parser/Labels.antt =====
-- internal/logql/parser.go: label lists, groupings and stream selectors.
use loki_vl_proxy.Prelude.{
  ℕ, zero, suc, true, false, not, Option, none, some, List, [], ◌∷◌, if◌then◌else◌,
}
use loki_vl_proxy.Logql.Env.{Env}
use loki_vl_proxy.Logql.Token.{
  TokType, l_brace, r_brace, l_paren, r_paren, comma, eq, neq, re_match, re_not_match, ident,
  without,
}
use loki_vl_proxy.Logql.Result.{
  Result, ok, failed, out_of_fuel, ◌>>=◌, wrap, expected_label_name, expected_label_operator,
  expected_label_value,
}
use loki_vl_proxy.Logql.Ast.{
  MatchOp, match_eq, match_neq, match_re, match_not_re, LabelMatcher, StreamSelector, Grouping,
}
use loki_vl_proxy.Logql.Parser.State.{ParserState, at, advance, expect, measure}
use loki_vl_proxy.Logql.Parser.Strings.{expect_string_or_raw}

unfoldable pub matcher_op : TokType → Option MatchOp
matcher_op eq = some match_eq
matcher_op neq = some match_neq
matcher_op re_match = some match_re
matcher_op re_not_match = some match_not_re
matcher_op _ = none

module _ {F : Type 0} (env : Env F) where
  unfoldable pub skip_comma : ParserState → ParserState
  unfolding at advance
  skip_comma p = if at comma p then advance env p else p

  -- The names inside the parentheses.
  unfoldable pub label_names : ℕ → ParserState → Result (List (List ℕ) × ParserState)
  unfolding at advance skip_comma
  label_names zero p = out_of_fuel
  label_names (suc fuel) p = if not (at ident p) then ok ([], p) else do
    (labels, p1) ← label_names fuel (skip_comma (advance env p))
    ok (p.cur.val ∷ labels, p1)

  -- From the opening parenthesis to the closing one.
  unfoldable pub parenthesised_labels : ParserState → Result (List (List ℕ) × ParserState)
  unfolding expect label_names measure
  parenthesised_labels p = do
    (opening, p1) ← expect env l_paren p
    (labels, p2) ← label_names (suc (measure p1)) p1
    (closing, p3) ← expect env r_paren p2
    ok (labels, p3)

  unfoldable pub parse_label_list : ParserState → Result (List (List ℕ) × ParserState)
  unfolding at parenthesised_labels
  parse_label_list p = if at l_paren p then parenthesised_labels p else ok ([], p)

  unfoldable pub parse_grouping : ParserState → Result (Grouping × ParserState)
  unfolding at advance parenthesised_labels
  parse_grouping p = do
    (labels, p1) ← parenthesised_labels (advance env p)
    ok (record { without_labels = at without p; labels = labels }, p1)

  unfoldable pub matcher_value :
      List ℕ → MatchOp → ParserState → Result (LabelMatcher × ParserState)
  unfolding expect_string_or_raw wrap
  matcher_value name op p = do
    (value, p1) ← wrap (expected_label_value name) (expect_string_or_raw env p)
    ok (record { name = name; op = op; value = value }, p1)

  unfoldable pub parse_label_matcher : ParserState → Result (LabelMatcher × ParserState)
  unfolding expect wrap matcher_op advance matcher_value
  parse_label_matcher p = do
    (name, p1) ← wrap expected_label_name (expect env ident p)
    elim (matcher_op p1.cur.typ) [
      | none ↦ failed (expected_label_operator p1.cur)
      | some op ↦ matcher_value name.val op (advance env p1)
    ]

  unfoldable pub label_matchers : ℕ → ParserState → Result (List LabelMatcher × ParserState)
  unfolding parse_label_matcher at advance
  label_matchers zero p = out_of_fuel
  label_matchers (suc fuel) p = do
    (m, p1) ← parse_label_matcher p
    elim (at comma p1) [
      | false ↦ ok (m ∷ [], p1)
      | true ↦ do (ms, p2) ← label_matchers fuel (advance env p1); ok (m ∷ ms, p2)
    ]

  unfoldable pub matchers_to_brace : ParserState → Result (StreamSelector × ParserState)
  unfolding label_matchers measure expect
  matchers_to_brace p = do
    (ms, p1) ← label_matchers (suc (measure p)) p
    (closing, p2) ← expect env r_brace p1
    ok (record { matchers = ms }, p2)

  unfoldable pub parse_stream_selector : ParserState → Result (StreamSelector × ParserState)
  unfolding expect at advance matchers_to_brace
  parse_stream_selector p = do
    (opening, p1) ← expect env l_brace p
    if at r_brace p1 then ok (record { matchers = [] }, advance env p1) else matchers_to_brace p1
