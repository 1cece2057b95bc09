-- ===== src/Logql/Parser/Progress/Pipeline.antt =====
-- internal/logql/parser.go: the stages of a pipeline take text and end.
use loki_vl_proxy.Prelude.{
  ℕ, zero, suc, ◌≤◌, ◌<◌, refl, not, Option, none, some, List, [], ◌∷◌, length, arith,
}
use loki_vl_proxy.Logql.Text.{codes, runes_eq}
use loki_vl_proxy.Logql.Env.{Env}
use loki_vl_proxy.Logql.Token.{l_paren, ident, pipe}
use loki_vl_proxy.Logql.Result.{Result, ok, ◌>>=◌, Yields, Yields_if, Yields_bind, gives, fails}
use loki_vl_proxy.Logql.Ast.{ParserType, DropMatcher, Stage}
use loki_vl_proxy.Logql.Parser.State.{ParserState, at, same_type, tok_code, measure, advance}
use loki_vl_proxy.Logql.Parser.Strings.{is_line_filter_operator}
use loki_vl_proxy.Logql.Parser.Pipeline.{
  extraction_stage, capture_stage, drop_keep_stage, line_format_stage, text_stage, other_stage,
  named_stage, parse_pipe_body, some_stage, parse_pipeline_stage, parse_pipeline, parse_log_query,
}
use loki_vl_proxy.Logql.Parser.Progress.Steps.{
  Within, measure_of_not_eof, at_not_eof, advance-suc, step,
}
use loki_vl_proxy.Logql.Parser.Progress.Strings.{
  expect_string_or_raw-Within, is_line_filter_operator_not_eof, parse_line_filter_stage-Within,
}
use loki_vl_proxy.Logql.Parser.Progress.Labels.{parse_stream_selector-Within}
use loki_vl_proxy.Logql.Parser.Progress.Fields.{
  parse_unwrap-Within, parse_drop_keep_list-Within, consume_explicit_field_list-Within,
  parse_label_format-Within, consume_rest_of_stage-Within,
}

module _ {F : Type 0} (env : Env F) where
  text_stage-Within :
      (kw : List ℕ) (p : ParserState) (n : ℕ)
      → measure p ≤ n
      → Yields (Within n) (text_stage env kw p)
  unfolding text_stage
  text_stage-Within kw p n h =
      step n n _ _ (consume_rest_of_stage-Within env p n h) λ raw p1 h1. gives _ _ h1

  other_stage-Within :
      (kw : List ℕ) (p : ParserState) (n : ℕ)
      → measure p ≤ n
      → Yields (Within n) (other_stage env kw p)
  unfolding other_stage
  other_stage-Within kw p n h =
      Yields_if (Within n) (at ident p) _ _ (λ b. fails _ _)
        λ b.
          Yields_if (Within n) (at l_paren p) _ _ (λ c. fails _ _) λ c. text_stage-Within kw p n h

  module _ (p : ParserState) (n : ℕ) (h : measure (advance env p) ≤ n) where
    extraction_stage-Within : (t : ParserType) → Yields (Within n) (extraction_stage env t p)
    unfolding extraction_stage
    extraction_stage-Within t =
        step n n _ _ (consume_explicit_field_list-Within env _ (advance env p) n h)
          λ (a, b) p1 h1. gives _ _ h1

    capture_stage-Within : (t : ParserType) → Yields (Within n) (capture_stage env t p)
    unfolding capture_stage
    capture_stage-Within t =
        step n n _ _ (expect_string_or_raw-Within env (advance env p) n (omega arith))
          λ a p1 h1. gives _ _ h1

    drop_keep_stage-Within :
        (stage : List (List ℕ) → List DropMatcher → Stage)
        → Yields (Within n) (drop_keep_stage env stage p)
    unfolding drop_keep_stage
    drop_keep_stage-Within stage =
        step n n _ _ (parse_drop_keep_list-Within env (advance env p) n h)
          λ (a, b) p1 h1. gives _ _ h1

    line_format_stage-Within : Yields (Within n) (line_format_stage env p)
    unfolding line_format_stage
    line_format_stage-Within =
        step n n _ _ (expect_string_or_raw-Within env (advance env p) n (omega arith))
          λ a p1 h1. gives _ _ h1

    named_stage-Within : (kw : List ℕ) → Yields (Within n) (named_stage env kw p)
    unfolding named_stage
    named_stage-Within kw =
        Yields_if (Within n) (runes_eq kw (codes "json")) _ _ (λ b. extraction_stage-Within _)
          λ b.
            Yields_if (Within n) (runes_eq kw (codes "logfmt")) _ _ (λ b. extraction_stage-Within _)
              λ b.
                Yields_if (Within n) (runes_eq kw (codes "regexp")) _ _
                  (λ b. capture_stage-Within _)
                  λ b.
                    Yields_if (Within n) (runes_eq kw (codes "pattern")) _ _
                      (λ b. capture_stage-Within _)
                      λ b.
                        Yields_if (Within n) (runes_eq kw (codes "unpack")) _ _ (λ b. gives _ _ h)
                          λ b.
                            Yields_if (Within n) (runes_eq kw (codes "drop")) _ _
                              (λ b. drop_keep_stage-Within _)
                              λ b.
                                Yields_if (Within n) (runes_eq kw (codes "keep")) _ _
                                  (λ b. drop_keep_stage-Within _)
                                  λ b.
                                    Yields_if (Within n) (runes_eq kw (codes "decolorize")) _ _
                                      (λ b. gives _ _ h)
                                      λ b.
                                        Yields_if (Within n) (runes_eq kw (codes "unwrap")) _ _
                                          (λ b. parse_unwrap-Within env _ n h)
                                          λ b.
                                            Yields_if (Within n) (runes_eq kw (codes "line_format"))
                                              _ _ (λ b. line_format_stage-Within)
                                              λ b.
                                                Yields_if (Within n)
                                                  (runes_eq kw (codes "label_format")) _ _
                                                  (λ b. parse_label_format-Within env _ n h)
                                                  λ b. other_stage-Within kw (advance env p) n h

  parse_pipe_body-Within :
      (p : ParserState) (n : ℕ) → measure p ≤ n → Yields (Within n) (parse_pipe_body env p)
  unfolding parse_pipe_body same_type tok_code
  parse_pipe_body-Within p n h =
      Yields_if (Within n) (at l_paren p) _ _ (λ b. text_stage-Within [] p n h)
        λ b.
          Yields_if (Within n) (not (at ident p)) _ _ (λ c. fails _ _)
            λ c.
              let less = advance-suc env p (at_not_eof ident p (ground arith) refl) in
              named_stage-Within p n (omega arith) p.cur.val

  -- A stage takes text, and no stage leaves the state as it is.
  After : ℕ → Option Stage × ParserState → Type 0
  After m (none, p) = measure p ≤ m
  After m (some s, p) = measure p < m

  some_stage-After :
      (k m : ℕ) (r : Result (Stage × ParserState))
      → k < m
      → Yields (Within k) r
      → Yields (After m) (some_stage env r)
  unfolding some_stage After
  some_stage-After k m r lt y =
      Yields_bind (Within k) (After m) r _ y λ (s, p) h. gives _ _ (omega arith)

  parse_pipeline_stage-After :
      (p : ParserState) → Yields (After (measure p)) (parse_pipeline_stage env p)
  unfolding parse_pipeline_stage same_type tok_code After
  parse_pipeline_stage-After p =
      Yields_if (After (measure p)) (is_line_filter_operator p.cur.typ) _ _
        (λ b.
          let m = measure_of_not_eof p (is_line_filter_operator_not_eof p b) in
          some_stage-After (length p.sc.rest) (measure p) _ (omega arith)
            (parse_line_filter_stage-Within env p (length p.sc.rest) b (omega arith)))
        λ b.
          Yields_if (After (measure p)) (at pipe p) _ _
            (λ c.
              let less = advance-suc env p (at_not_eof pipe p c refl) in
              some_stage-After (measure (advance env p)) (measure p) _ less
                (parse_pipe_body-Within (advance env p) (measure (advance env p)) (omega arith)))
            λ c. gives _ _ (omega arith)

  parse_pipeline-Within :
      (fuel : ℕ) (p : ParserState) (n : ℕ)
      → n < fuel
      → measure p ≤ n
      → Yields (Within n) (parse_pipeline env fuel p)
  unfolding parse_pipeline After
  parse_pipeline-Within zero p n lt h = ground arith
  parse_pipeline-Within (suc fuel) p n lt h =
      Yields_bind (After (measure p)) (Within n) _ _ (parse_pipeline_stage-After p)
        (λ (o, p1) h1. go (λ p1 k l h1. parse_pipeline-Within fuel p1 k l h1) o p1 h1)
    where
      go :
          ((p1 : ParserState) (k : ℕ)
            → k < fuel
            → measure p1 ≤ k
            → Yields (Within k) (parse_pipeline env fuel p1))
          → (o : Option Stage) (p1 : ParserState) → After (measure p) (o, p1)
          → Yields (Within n) (elim o [
            | none ↦ ok ([], p1)
            | some s ↦ do (ss, p2) ← parse_pipeline env fuel p1; ok (s ∷ ss, p2)
          ])
      go ih none p1 h1 = gives _ _ (omega arith)
      go ih (some s) p1 h1 =
          step (measure p1) n _ _ (ih p1 (measure p1) (omega arith) (omega arith))
            λ ss p2 h2. gives _ _ (omega arith)

  pub parse_log_query-Within :
      (p : ParserState) (n : ℕ) → measure p ≤ suc n → Yields (Within n) (parse_log_query env p)
  unfolding parse_log_query
  parse_log_query-Within p n h = step n n _ _ (parse_stream_selector-Within env p n h) λ s p1 h1.
      step (measure p1) n _ _
        (parse_pipeline-Within (suc (measure p1)) p1 (measure p1) (omega arith) (omega arith))
        λ ss p2 h2. gives _ _ (omega arith)
