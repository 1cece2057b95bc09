-- ===== src/Logql/Parser/Pipeline.antt =====
-- internal/logql/parser.go: the stages of a pipeline and the log query.
use loki_vl_proxy.Prelude.{
  ℕ, zero, suc, Option, none, some, List, [], ◌∷◌, ◌++◌, if◌then◌else◌, not,
}
use loki_vl_proxy.Logql.Text.{codes, runes_eq}
use loki_vl_proxy.Logql.Env.{Env}
use loki_vl_proxy.Logql.Token.{l_paren, pipe, ident}
use loki_vl_proxy.Logql.Result.{
  Result, ok, failed, out_of_fuel, ◌>>=◌, expected_stage_name, identifier_after, unexpected_call,
}
use loki_vl_proxy.Logql.Ast.{
  ParserType, DropMatcher, parser_json, parser_logfmt, parser_regexp, parser_pattern, parser_unpack,
  Stage, parser_stage, label_filter, drop_stage, keep_stage, decolorize, line_format, LogQuery,
}
use loki_vl_proxy.Logql.Parser.State.{ParserState, at, advance, measure}
use loki_vl_proxy.Logql.Parser.Strings.{
  is_line_filter_operator, expect_string_or_raw, parse_line_filter_stage,
}
use loki_vl_proxy.Logql.Parser.Labels.{parse_stream_selector}
use loki_vl_proxy.Logql.Parser.Fields.{
  parse_unwrap, parse_drop_keep_list, consume_explicit_field_list, parse_label_format,
  consume_rest_of_stage,
}

module _ {F : Type 0} (env : Env F) where
  -- `| json` and `| logfmt`, `p` at their name.
  unfoldable pub extraction_stage : ParserType → ParserState → Result (Stage × ParserState)
  unfolding advance consume_explicit_field_list
  extraction_stage t p = do
    ((param, fields), p1) ← consume_explicit_field_list env p.sc.rest (advance env p)
    ok (parser_stage (record { typ = t; param = param; fields = fields }), p1)

  -- `| regexp` and `| pattern`.
  unfoldable pub capture_stage : ParserType → ParserState → Result (Stage × ParserState)
  unfolding advance expect_string_or_raw
  capture_stage t p = do
    (param, p1) ← expect_string_or_raw env (advance env p)
    ok (parser_stage (record { typ = t; param = param; fields = [] }), p1)

  unfoldable pub drop_keep_stage :
      (List (List ℕ) → List DropMatcher → Stage) → ParserState → Result (Stage × ParserState)
  unfolding advance parse_drop_keep_list
  drop_keep_stage stage p = do
    ((labels, matchers), p1) ← parse_drop_keep_list env (advance env p)
    ok (stage labels matchers, p1)

  unfoldable pub line_format_stage : ParserState → Result (Stage × ParserState)
  unfolding advance expect_string_or_raw
  line_format_stage p = do
    (template, p1) ← expect_string_or_raw env (advance env p)
    ok (line_format template, p1)

  -- A stage that keeps its text, after the text `kw`.
  unfoldable pub text_stage : List ℕ → ParserState → Result (Stage × ParserState)
  unfolding consume_rest_of_stage
  text_stage kw p = do (raw, p1) ← consume_rest_of_stage env p; ok (label_filter (kw ++ raw), p1)

  -- A word that names no stage.
  unfoldable pub other_stage : List ℕ → ParserState → Result (Stage × ParserState)
  unfolding at text_stage
  other_stage kw p =
      if at ident p
      then failed (identifier_after p.cur.val kw)
      else if at l_paren p
      then failed (unexpected_call kw)
      else text_stage kw p

  -- The switch on the word after `|`.
  unfoldable pub named_stage : List ℕ → ParserState → Result (Stage × ParserState)
  unfolding extraction_stage capture_stage drop_keep_stage line_format_stage other_stage advance
      parse_unwrap parse_label_format
  named_stage kw p =
      if runes_eq kw (codes "json")
      then extraction_stage parser_json p
      else if runes_eq kw (codes "logfmt")
      then extraction_stage parser_logfmt p
      else if runes_eq kw (codes "regexp")
      then capture_stage parser_regexp p
      else if runes_eq kw (codes "pattern")
      then capture_stage parser_pattern p
      else if runes_eq kw (codes "unpack")
      then ok
          (parser_stage (record { typ = parser_unpack; param = []; fields = [] }), advance env p)
      else if runes_eq kw (codes "drop")
      then drop_keep_stage drop_stage p
      else if runes_eq kw (codes "keep")
      then drop_keep_stage keep_stage p
      else if runes_eq kw (codes "decolorize")
      then ok (decolorize, advance env p)
      else if runes_eq kw (codes "unwrap")
      then parse_unwrap env (advance env p)
      else if runes_eq kw (codes "line_format")
      then line_format_stage p
      else if runes_eq kw (codes "label_format")
      then parse_label_format env (advance env p)
      else other_stage kw (advance env p)

  unfoldable pub parse_pipe_body : ParserState → Result (Stage × ParserState)
  unfolding at text_stage named_stage
  parse_pipe_body p =
      if at l_paren p
      then text_stage [] p
      else if not (at ident p)
      then failed (expected_stage_name p.cur.typ)
      else named_stage p.cur.val p

  unfoldable pub some_stage : Result (Stage × ParserState) → Result (Option Stage × ParserState)
  some_stage r = r >>= λ (s, p). ok (some s, p)

  -- `none` when the pipeline ends.
  unfoldable pub parse_pipeline_stage : ParserState → Result (Option Stage × ParserState)
  unfolding some_stage at advance parse_pipe_body parse_line_filter_stage is_line_filter_operator
  parse_pipeline_stage p =
      if is_line_filter_operator p.cur.typ
      then some_stage (parse_line_filter_stage env p)
      else if at pipe p
      then some_stage (parse_pipe_body (advance env p))
      else ok (none, p)

  unfoldable pub parse_pipeline : ℕ → ParserState → Result (List Stage × ParserState)
  unfolding parse_pipeline_stage
  parse_pipeline zero p = out_of_fuel
  parse_pipeline (suc fuel) p = do
    (stage, p1) ← parse_pipeline_stage p
    elim stage [
      | none ↦ ok ([], p1)
      | some s ↦ do (ss, p2) ← parse_pipeline fuel p1; ok (s ∷ ss, p2)
    ]

  unfoldable pub parse_log_query : ParserState → Result (LogQuery × ParserState)
  unfolding parse_stream_selector parse_pipeline measure
  parse_log_query p = do
    (selector, p1) ← parse_stream_selector env p
    (pipeline, p2) ← parse_pipeline (suc (measure p1)) p1
    ok (record { selector = selector; pipeline = pipeline }, p2)
