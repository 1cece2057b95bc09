-- ===== src/Logql/Parser/Fields.antt =====
-- internal/logql/parser.go: the operands of the pipeline stages.
use loki_vl_proxy.Prelude.{
  ℕ, zero, suc, ◌-◌, Bool, true, false, ◌&&◌, ◌||◌, not, Option, none, some, List, [], ◌∷◌, ◌++◌,
  if◌then◌else◌, ◌==◌,
}
use loki_vl_proxy.Logql.Text.{Wide, codes, utf8, span, is_space}
use loki_vl_proxy.Logql.Env.{Env}
use loki_vl_proxy.Logql.Token.{
  TokType, Token, eof, l_paren, r_paren, l_bracket, r_bracket, comma, pipe, eq, re_match, pipe_eq,
  bang_eq, pipe_tilde, bang_tilde, pipe_gt, bang_gt, ident,
}
use loki_vl_proxy.Logql.Result.{
  Result, ok, failed, out_of_fuel, ◌>>=◌, expected_unwrap_label, empty_drop_or_keep,
}
use loki_vl_proxy.Logql.Ast.{ExtractionField, DropMatcher, LabelFormat, Stage, unwrap, label_format}
use loki_vl_proxy.Logql.Scanner.{is_empty}
use loki_vl_proxy.Logql.Parser.State.{
  ParserState, zero_token, at, same_type, advance, expect, measure, between,
}
use loki_vl_proxy.Logql.Parser.Words.{syntax_error, append_stage_token, starts_label_filter_operand}
use loki_vl_proxy.Logql.Parser.Strings.{is_string, expect_string_or_raw}

-- The operators of a condition in `drop` and `keep`.
unfoldable pub drop_op : TokType → Option (List ℕ)
drop_op eq = some (codes "=")
drop_op bang_eq = some (codes "!=")
drop_op re_match = some (codes "=~")
drop_op bang_tilde = some (codes "!~")
drop_op _ = none

unfoldable pub trim_right : Wide → List ℕ → List ℕ
trim_right u [] = []
trim_right u (c ∷ cs) =
    let after = trim_right u cs in if is_empty after && is_space u c then [] else c ∷ after

-- `strings.TrimSpace`
unfoldable pub trim_space : Wide → List ℕ → List ℕ
unfolding trim_right
trim_space u cs = trim_right u (span (is_space u) cs).1

-- Whether the text of a stage ends at a token, by the text so far, the open parentheses and the
-- two tokens before.
unfoldable pub stage_ends : List ℕ → ℕ → Token → Token → TokType → Bool
unfolding same_type starts_label_filter_operand
stage_ends b depth prev prev_prev t =
    let new_filter =
      not (is_empty b)
      && (not (same_type prev.typ ident) || not (starts_label_filter_operand prev_prev)) in
    elim t [
      | eof ↦ true
      | pipe ↦ true
      | pipe_eq ↦ true
      | pipe_tilde ↦ true
      | pipe_gt ↦ true
      | bang_gt ↦ true
      | l_bracket ↦ true
      | r_paren ↦ depth == 0
      | bang_eq ↦ new_filter
      | bang_tilde ↦ new_filter
      | _ ↦ false
    ]

unfoldable pub depth_after : ℕ → TokType → ℕ
depth_after depth l_paren = suc depth
depth_after depth r_paren = depth - 1
depth_after depth _ = depth

module _ {F : Type 0} (env : Env F) where
  unfoldable pub to_bracket : ℕ → ParserState → Result ParserState
  unfolding at advance
  to_bracket zero p = out_of_fuel
  to_bracket (suc fuel) p =
      if at r_bracket p || at eof p then ok p else to_bracket fuel (advance env p)

  unfoldable pub close_bracket : ParserState → ParserState
  unfolding at advance
  close_bracket p = if at r_bracket p then advance env p else p

  unfoldable pub consume_range : ParserState → Result ParserState
  unfolding at advance to_bracket close_bracket measure
  consume_range p =
      if not (at l_bracket p)
      then ok p
      else do p1 ← to_bracket (suc (measure (advance env p))) (advance env p); ok (close_bracket p1)

  -- After the opening parenthesis of a converter.
  unfoldable pub unwrap_converted : List ℕ → ParserState → Result (Stage × ParserState)
  unfolding at advance consume_range expect
  unwrap_converted converter p =
      if at r_paren p
      then (consume_range (advance env p) >>= λ p1. ok (unwrap [] converter, p1))
      else do
        (label, p1) ← expect env ident p
        (closing, p2) ← expect env r_paren p1
        ok (unwrap label.val converter, p2)

  unfoldable pub parse_unwrap : ParserState → Result (Stage × ParserState)
  unfolding at advance consume_range unwrap_converted
  parse_unwrap p =
      let p1 = advance env p in
      if at l_bracket p
      then (consume_range p >>= λ p2. ok (unwrap [] [], p2))
      else if not (at ident p)
      then failed expected_unwrap_label
      else if at l_paren p1
      then unwrap_converted p.cur.val (advance env p1)
      else ok (unwrap p.cur.val [], p1)

  -- After the name: a condition with its operator, or nothing.
  unfoldable pub drop_keep_item :
      List ℕ
      → Option (List ℕ)
      → ParserState
      → Result ((List (List ℕ) × List DropMatcher) × ParserState)
  unfolding advance expect_string_or_raw
  drop_keep_item name none p = ok ((name ∷ [], []), p)
  drop_keep_item name (some op) p = do
    (value, p1) ← expect_string_or_raw env (advance env p)
    ok (([], record { name = name; op = op; value = value } ∷ []), p1)

  unfoldable pub drop_keep_items :
      ℕ → ParserState → Result ((List (List ℕ) × List DropMatcher) × ParserState)
  unfolding at advance drop_op drop_keep_item
  drop_keep_items zero p = out_of_fuel
  drop_keep_items (suc fuel) p = if not (at ident p) then ok (([], []), p) else do
    let named = advance env p
    ((ls, ms), p1) ← drop_keep_item p.cur.val (drop_op named.cur.typ) named
    elim (at comma p1) [
      | false ↦ ok ((ls, ms), p1)
      | true ↦ do
        ((labels, matchers), p2) ← drop_keep_items fuel (advance env p1)
        ok ((ls ++ labels, ms ++ matchers), p2)
    ]

  unfoldable pub parse_drop_keep_list :
      ParserState → Result ((List (List ℕ) × List DropMatcher) × ParserState)
  unfolding at drop_keep_items measure
  parse_drop_keep_list p =
      if at ident p then drop_keep_items (suc (measure p)) p else failed empty_drop_or_keep

  -- After the name of a field: its expression, and what follows the field.
  unfoldable pub extraction_expression :
      List ℕ → List ℕ → ParserState → Result ((List ℕ × List ℕ) × ParserState)
  unfolding at advance is_string syntax_error
  extraction_expression name end p =
      let p1 = advance env p in
      if not (at eq p)
      then ok ((name, end), p)
      else if not (is_string p1.cur.typ)
      then failed (syntax_error (codes "STRING") p1)
      else ok ((p1.cur.val, p1.sc.rest), advance env p1)

  -- The fields, and what follows the last one or its comma.
  unfoldable pub extraction_fields :
      ℕ → List ℕ → ParserState → Result ((List ℕ × List ExtractionField) × ParserState)
  unfolding at advance extraction_expression syntax_error
  extraction_fields zero end p = out_of_fuel
  extraction_fields (suc fuel) end p = if not (at ident p) then ok ((end, []), p) else do
    ((expression, end1), p1) ← extraction_expression p.cur.val p.sc.rest (advance env p)
    let p2 = advance env p1
    let field : ExtractionField = record { name = p.cur.val; expression = expression }
    if not (at comma p1)
        then ok ((end1, field ∷ []), p1)
        else if not (at ident p2)
        then failed (syntax_error (codes "IDENTIFIER") p2)
        else do
          ((end2, fields), p3) ← extraction_fields fuel p1.sc.rest p2
          ok ((end2, field ∷ fields), p3)

  -- `start` is what followed the stage's name.
  unfoldable pub consume_explicit_field_list :
      List ℕ → ParserState → Result ((List ℕ × List ExtractionField) × ParserState)
  unfolding extraction_fields between trim_space measure
  consume_explicit_field_list start p = do
    ((end, fields), p1) ← extraction_fields (suc (measure p)) start p
    ok ((utf8 (trim_space env.classes (between start end)), fields), p1)

  -- One entry, after the text of those before.
  unfoldable pub label_format_entry :
      List ℕ → ParserState → Result ((List ℕ × LabelFormat) × ParserState)
  unfolding at advance is_string syntax_error append_stage_token
  label_format_entry raw p =
      let p1 = advance env p in
      let p2 = advance env p1 in
      if not (at ident p)
      then failed (syntax_error (codes "IDENTIFIER") p)
      else if not (at eq p1)
      then failed (syntax_error (codes "=") p1)
      else if not (is_string p2.cur.typ || at ident p2)
      then failed (syntax_error (codes "IDENTIFIER or STRING") p2)
      else ok (
        (
          append_stage_token env (append_stage_token env (append_stage_token env raw p.cur) p1.cur)
              p2.cur,
          record { name = p.cur.val; value = p2.cur.val; rename = at ident p2 },
        ),
        advance env p2,
      )

  unfoldable pub label_formats :
      ℕ → List ℕ → ParserState → Result ((List ℕ × List LabelFormat) × ParserState)
  unfolding label_format_entry at advance append_stage_token
  label_formats zero raw p = out_of_fuel
  label_formats (suc fuel) raw p = do
    ((raw1, format), p1) ← label_format_entry raw p
    elim (at comma p1) [
      | false ↦ ok ((raw1, format ∷ []), p1)
      | true ↦ do
        ((raw2, formats), p2) ←
            label_formats fuel (append_stage_token env raw1 p1.cur) (advance env p1)
        ok ((raw2, format ∷ formats), p2)
    ]

  unfoldable pub parse_label_format : ParserState → Result (Stage × ParserState)
  unfolding label_formats measure
  parse_label_format p = do
    ((raw, formats), p1) ← label_formats (suc (measure p)) [] p
    ok (label_format raw formats, p1)

  unfoldable pub rest_of_stage :
      ℕ → List ℕ → ℕ → Token → Token → ParserState → Result (List ℕ × ParserState)
  unfolding stage_ends append_stage_token depth_after advance
  rest_of_stage zero b depth prev prev_prev p = out_of_fuel
  rest_of_stage (suc fuel) b depth prev prev_prev p =
      if stage_ends b depth prev prev_prev p.cur.typ
      then ok (b, p)
      else rest_of_stage fuel (append_stage_token env b p.cur) (depth_after depth p.cur.typ) p.cur
          prev (advance env p)

  unfoldable pub consume_rest_of_stage : ParserState → Result (List ℕ × ParserState)
  unfolding rest_of_stage measure
  consume_rest_of_stage p = rest_of_stage (suc (measure p)) [] 0 zero_token zero_token p
