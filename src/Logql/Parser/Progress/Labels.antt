-- ===== src/Logql/Parser/Progress/Labels.antt =====
-- internal/logql/parser.go: label lists and stream selectors take text and end.
use loki_vl_proxy.Prelude.{
  ℕ, zero, suc, ◌≤◌, ◌<◌, ◌≡◌, refl, inl, inr, false, not, Option, none, some, List, arith,
  Bool-cases,
}
use loki_vl_proxy.Logql.Env.{Env}
use loki_vl_proxy.Logql.Token.{TokType, eof, l_brace, r_brace, l_paren, r_paren, comma, ident}
use loki_vl_proxy.Logql.Result.{
  failed, expected_label_operator, Yields, Yields_if, Yields-wrap, gives, fails,
}
use loki_vl_proxy.Logql.Ast.{MatchOp}
use loki_vl_proxy.Logql.Parser.State.{ParserState, at, same_type, tok_code, measure, advance}
use loki_vl_proxy.Logql.Parser.Labels.{
  matcher_op, skip_comma, label_names, parenthesised_labels, parse_label_list, parse_grouping,
  matcher_value, parse_label_matcher, label_matchers, matchers_to_brace, parse_stream_selector,
}
use loki_vl_proxy.Logql.Parser.Progress.Steps.{
  Within, at_not_eof, advance-lt, advance-suc, expect-Within, step, relax,
}
use loki_vl_proxy.Logql.Parser.Progress.Strings.{expect_string_or_raw-Within}

matcher_op_not_eof :
    (p : ParserState) (op : MatchOp) → matcher_op p.cur.typ ≡ some op → at eof p ≡ false
unfolding matcher_op at same_type tok_code
matcher_op_not_eof p op e = go p.cur.typ e
  where
    go : (t : TokType) → matcher_op t ≡ some op → same_type t eof ≡ false
    go t e = ground arith

module _ {F : Type 0} (env : Env F) where
  skip_comma-le : (p : ParserState) → measure (skip_comma env p) ≤ measure p
  unfolding skip_comma same_type tok_code
  skip_comma-le p = elim (Bool-cases (at comma p)) [
    | inl c ↦ let less = advance-suc env p (at_not_eof comma p c refl) in simp c (omega arith)
    | inr c ↦ simp c (omega arith)
  ]

  label_names-Within :
      (fuel : ℕ) (p : ParserState) (n : ℕ)
      → measure p < fuel
      → measure p ≤ n
      → Yields (Within n) (label_names env fuel p)
  unfolding label_names same_type tok_code
  label_names-Within zero p n lt h = ground arith
  label_names-Within (suc fuel) p n lt h =
      Yields_if (Within n) (not (at ident p)) _ _ (λ b. gives _ _ h)
        λ b.
          let less = advance-suc env p (at_not_eof ident p (ground arith) refl) in
          let le = skip_comma-le (advance env p) in
          step n n _ _
            (label_names-Within fuel (skip_comma env (advance env p)) n (omega arith) (omega arith))
            λ ls p1 h1. gives _ _ h1

  parenthesised_labels-Within :
      (p : ParserState) (n : ℕ) → measure p ≤ suc n → Yields (Within n) (parenthesised_labels env p)
  unfolding parenthesised_labels same_type tok_code
  parenthesised_labels-Within p n h = step n n _ _ (expect-Within env l_paren p n refl h) λ t p1 h1.
      step n n _ _ (label_names-Within (suc (measure p1)) p1 n (omega arith) h1) λ ls p2 h2.
        step n n _ _ (expect-Within env r_paren p2 n refl (omega arith)) λ t3 p3 h3. gives _ _ h3

  pub parse_label_list-Within :
      (p : ParserState) (n : ℕ) → measure p ≤ n → Yields (Within n) (parse_label_list env p)
  unfolding parse_label_list
  parse_label_list-Within p n h =
      Yields_if (Within n) (at l_paren p) _ _ (λ b. parenthesised_labels-Within p n (omega arith))
        λ b. gives _ _ h

  pub parse_grouping-Within :
      (p : ParserState) (n : ℕ)
      → at eof p ≡ false
      → measure p ≤ n
      → Yields (Within n) (parse_grouping env p)
  unfolding parse_grouping
  parse_grouping-Within p n e h =
      let less = advance-suc env p e in
      step n n _ _ (parenthesised_labels-Within (advance env p) n (omega arith))
        λ ls p1 h1. gives _ _ h1

  matcher_value-Within :
      (name : List ℕ) (op : MatchOp) (p : ParserState) (n : ℕ)
      → measure p ≤ n
      → Yields (Within n) (matcher_value env name op p)
  unfolding matcher_value
  matcher_value-Within name op p n h =
      step n n _ _ (Yields-wrap (Within n) _ _ (expect_string_or_raw-Within env p n (omega arith)))
        λ v p1 h1. gives _ _ h1

  parse_label_matcher-Within :
      (p : ParserState) (n : ℕ) → measure p ≤ suc n → Yields (Within n) (parse_label_matcher env p)
  unfolding parse_label_matcher same_type tok_code
  parse_label_matcher-Within p n h =
      step n n _ _ (Yields-wrap (Within n) _ _ (expect-Within env ident p n refl h))
        λ t p1 h1. value t.val p1 h1 _ refl
    where
      value :
          (name : List ℕ) (p1 : ParserState)
          → measure p1 ≤ n
          → (o : Option MatchOp) → matcher_op p1.cur.typ ≡ o
          → Yields (Within n) (elim o [
            | none ↦ failed (expected_label_operator p1.cur)
            | some op ↦ matcher_value env name op (advance env p1)
          ])
      value name p1 h1 none e = fails _ _
      value name p1 h1 (some op) e =
          let less = advance-suc env p1 (matcher_op_not_eof p1 op e) in
          matcher_value-Within name op (advance env p1) n (omega arith)

  label_matchers-Within :
      (fuel : ℕ) (p : ParserState) (n : ℕ)
      → n < fuel
      → measure p ≤ suc n
      → Yields (Within n) (label_matchers env fuel p)
  unfolding label_matchers same_type tok_code
  label_matchers-Within zero p n lt h = ground arith
  label_matchers-Within (suc fuel) p n lt h =
      step n n _ _ (parse_label_matcher-Within p n h) λ m p1 h1. elim (Bool-cases (at comma p1)) [
        | inr c ↦ simp c (gives _ _ h1)
        | inl c ↦
            let less = advance-suc env p1 (at_not_eof comma p1 c refl) in
            simp c (
              step n n _ _
                (relax _ n _ (omega arith) (
                  label_matchers-Within fuel (advance env p1) (measure (advance env p1))
                    (omega arith) (omega arith)))
                λ ms p2 h2. gives _ _ h2)
      ]

  matchers_to_brace-Within :
      (p : ParserState) (n : ℕ) → measure p ≤ n → Yields (Within n) (matchers_to_brace env p)
  unfolding matchers_to_brace same_type tok_code
  matchers_to_brace-Within p n h =
      step n n _ _
        (relax _ n _ h
          (label_matchers-Within (suc (measure p)) p (measure p) (omega arith) (omega arith)))
        λ ms p1 h1.
          step n n _ _ (expect-Within env r_brace p1 n refl (omega arith)) λ t p2 h2. gives _ _ h2

  pub parse_stream_selector-Within :
      (p : ParserState) (n : ℕ)
      → measure p ≤ suc n
      → Yields (Within n) (parse_stream_selector env p)
  unfolding parse_stream_selector same_type tok_code
  parse_stream_selector-Within p n h =
      step n n _ _ (expect-Within env l_brace p n refl h) λ t p1 h1.
        Yields_if (Within n) (at r_brace p1) _ _
          (λ b. gives _ _ (advance-lt env p1 n (at_not_eof r_brace p1 b refl) (omega arith)))
          λ b. matchers_to_brace-Within p1 n h1
