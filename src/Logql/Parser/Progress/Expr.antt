-- ===== src/Logql/Parser/Progress/Expr.antt =====
-- internal/logql/parser.go: the parser of expressions ends.
use loki_vl_proxy.Prelude.{
  ℕ, zero, suc, ◌+◌, ◌-◌, ◌≤◌, ◌<◌, ◌≡◌, ◌≢◌, refl, inl, inr, false, ◌||◌, not, ◌==◌, ltb, Option,
  none, some, List, arith, Bool-cases,
}
use loki_vl_proxy.Logql.Text.{codes}
use loki_vl_proxy.Logql.Env.{Env}
use loki_vl_proxy.Logql.Token.{
  TokType, eof, l_brace, l_paren, r_paren, ident, number, minus, on, ignoring, group_left,
  group_right,
}
use loki_vl_proxy.Logql.Result.{
  Result, out_of_fuel, Yields, Yields_terminates, Yields_if, Yields_bind, gives, fails,
}
use loki_vl_proxy.Logql.Ast.{RangeOp, VectorOp, VectorMatching, Expr}
use loki_vl_proxy.Logql.Parser.State.{
  ParserState, at, at_word, same_type, tok_code, measure, advance, new_parser,
}
use loki_vl_proxy.Logql.Parser.Fields.{depth_after}
use loki_vl_proxy.Logql.Parser.Words.{range_ops}
use loki_vl_proxy.Logql.Parser.Expr.{
  binary_precedence, next_precedence, balanced_parens, consume_balanced_parens, opaque_text,
  opaque_call, literal_value, number_literal, negative_literal, range_or_opaque, named_expr,
  parenthesised_expr, primary_step, group_side, vector_matching, skip_bool, binary_step, parse_expr,
  parse_primary, parse_binary_rhs, expr_fuel, parse_to_end, parse,
}
use loki_vl_proxy.Logql.Parser.Progress.Steps.{
  Within, at_not_eof, advance-lt, advance-suc, expect-Within, step,
}
use loki_vl_proxy.Logql.Parser.Progress.Labels.{parse_label_list-Within}
use loki_vl_proxy.Logql.Parser.Progress.Pipeline.{parse_log_query-Within}
use loki_vl_proxy.Logql.Parser.Progress.Metric.{
  Returns, Takes, at_word_not_eof, trailing_grouping-Within, parse_range_aggregation-Within,
  parse_vector_aggregation-Within,
}

binary_precedence_eof :
    (p : ParserState) (least : ℕ)
    → 1 ≤ least
    → ltb (binary_precedence p.cur.typ) least ≡ false
    → at eof p ≡ false
unfolding binary_precedence at same_type tok_code
binary_precedence_eof p least h e = go p.cur.typ e
  where
    go : (t : TokType) → ltb (binary_precedence t) least ≡ false → same_type t eof ≡ false
    go eof e = ground arith
    go _ e = refl

next_precedence-pos : (op : List ℕ) (k : ℕ) → 1 ≤ k → 1 ≤ next_precedence op k
unfolding next_precedence
next_precedence-pos op k h = ground arith

-- Where a call is closed, at most `n` is left to read.
Closed : ℕ → Option (List ℕ × ParserState) → Type 0
Closed n none = Unit
Closed n (some (s, q)) = measure q ≤ n

module _ {F : Type 0} (env : Env F) where
  balanced_parens-Closed :
      (fuel depth : ℕ) (p : ParserState) (n : ℕ)
      → measure p < fuel
      → measure p ≤ n
      → Yields (Closed n) (balanced_parens env fuel depth p)
  unfolding balanced_parens Closed
  balanced_parens-Closed zero depth p n lt h = ground arith
  balanced_parens-Closed (suc fuel) depth p n lt h =
      Yields_if (Closed n) (at eof p) _ _ (λ b. gives _ _ tt)
        λ b.
          let less = advance-suc env p b in
          Yields_if (Closed n) (depth_after depth p.cur.typ == 0) _ _ (λ c. gives _ _ (omega arith))
            λ c. balanced_parens-Closed fuel _ (advance env p) n (omega arith) (omega arith)

  opaque_text-Within :
      (p : ParserState) (n : ℕ) (o : Option (List ℕ × ParserState))
      → Closed n o
      → Yields (Within n) (opaque_text env p o)
  unfolding opaque_text Closed
  opaque_text-Within p n none h = fails _ _
  opaque_text-Within p n (some (s, q)) h = gives _ _ h

  module _ (p : ParserState) (n : ℕ) (e : at eof p ≡ false) (h : measure p ≤ suc n) where
    opaque_call-Within : Yields (Within n) (opaque_call env p)
    unfolding opaque_call consume_balanced_parens same_type tok_code
    opaque_call-Within =
        let p1 = advance env p in
        let less = advance-suc env p e in
        Yields_if (Within n) (not (at l_paren p1)) _ _ (λ b. fails _ _)
          λ b.
            let less1 = advance-suc env p1 (at_not_eof l_paren p1 (ground arith) refl) in
            Yields_bind (Closed n) (Within n) _ _
              (balanced_parens-Closed (suc (measure (advance env p1))) 1 (advance env p1) n
                (omega arith) (omega arith))
              λ o c. opaque_text-Within p n o c

    number_literal-Within : (f : F → F) → Yields (Within n) (number_literal env f p)
    unfolding number_literal literal_value
    number_literal-Within f = go (env.parse_float p.cur.val)
      where
        go : (o : Option F) → Yields (Within n) (literal_value env f o p)
        go none = fails _ _
        go (some x) = gives _ _ (advance-lt env p n e h)

  negative_literal-Within :
      (p : ParserState) (n : ℕ) → measure p ≤ suc n → Yields (Within n) (negative_literal env p)
  unfolding negative_literal same_type tok_code
  negative_literal-Within p n h =
      Yields_if (Within n) (at number p) _ _
        (λ b. number_literal-Within p n (at_not_eof number p b refl) h _) λ b. fails _ _

  module _ (expr primary : ParserState → Result (Expr F × ParserState)) (p : ParserState) (n : ℕ)
      (es : Takes (measure p) expr) (ps : Takes (measure p) primary) (h : measure p ≤ suc n) where
    range_or_opaque-Within :
        (o : Option RangeOp)
        → at eof p ≡ false
        → Yields (Within n) (range_or_opaque env expr primary o p)
    unfolding range_or_opaque
    range_or_opaque-Within none e = opaque_call-Within p n e h
    range_or_opaque-Within (some op) e =
        step n n _ _ (parse_range_aggregation-Within env primary op p n ps e h)
          λ ra p1 h1. step n n _ _ (trailing_grouping-Within env p1 n h1) λ g p2 h2. gives _ _ h2

    named_expr-Within :
        (o : Option VectorOp)
        → at eof p ≡ false
        → Yields (Within n) (named_expr env expr primary o p)
    unfolding named_expr
    named_expr-Within none e = range_or_opaque-Within (range_ops p.cur.val) e
    named_expr-Within (some op) e = parse_vector_aggregation-Within env expr op p n es e h

    parenthesised_expr-Within :
        at eof p ≡ false → Yields (Within n) (parenthesised_expr env expr primary p)
    unfolding parenthesised_expr same_type tok_code
    parenthesised_expr-Within e =
        let less = advance-suc env p e in
        step n n _ _ (es (advance env p) n less (omega arith)) λ x p1 h1.
          step n n _ _ (expect-Within env r_paren p1 n refl (omega arith)) λ t p2 h2. gives _ _ h2

    primary_step-Within : Yields (Within n) (primary_step env expr primary p)
    unfolding primary_step same_type tok_code
    primary_step-Within =
        Yields_if (Within n) (at eof p) _ _ (λ b. fails _ _)
          λ e.
            let less = advance-suc env p e in
            Yields_if (Within n) (at number p) _ _ (λ b. number_literal-Within p n e h _)
              λ b.
                Yields_if (Within n) (at minus p) _ _
                  (λ c. negative_literal-Within (advance env p) n (omega arith))
                  λ c.
                    Yields_if (Within n) (at ident p) _ _ (λ d. named_expr-Within _ e)
                      λ d.
                        Yields_if (Within n) (at l_paren p) _ _ (λ f. parenthesised_expr-Within e)
                          λ f.
                            Yields_if (Within n) (at l_brace p) _ _
                              (λ g.
                                step n n _ _ (parse_log_query-Within env p n h)
                                  λ lq p1 h1. gives _ _ h1)
                              λ g. fails _ _

  skip_bool-le : (p : ParserState) → measure (skip_bool env p) ≤ measure p
  unfolding skip_bool at_word same_type tok_code
  skip_bool-le p = elim (Bool-cases (at_word (codes "bool") p)) [
    | inl c ↦
        let less = advance-suc env p (at_word_not_eof (codes "bool") p c) in simp c (omega arith)
    | inr c ↦ simp c (omega arith)
  ]

  either_not_eof :
      (t t' : TokType) (p : ParserState)
      → same_type t eof ≡ false
      → same_type t' eof ≡ false
      → not (at t p || at t' p) ≡ false
      → at eof p ≡ false
  either_not_eof t t' p d d' e = elim (Bool-cases (at t p)) [
    | inl s ↦ at_not_eof t p s d
    | inr s ↦ at_not_eof t' p (ground arith) d'
  ]

  group_side-Within :
      (vm : VectorMatching) (p : ParserState) (n : ℕ)
      → measure p ≤ n
      → Yields (Within n) (group_side env vm p)
  unfolding group_side same_type tok_code
  group_side-Within vm p n h =
      Yields_if (Within n) (not (at group_left p || at group_right p)) _ _ (λ b. gives _ _ h)
        λ b.
          let less = advance-suc env p (either_not_eof group_left group_right p refl refl b) in
          step n n _ _ (parse_label_list-Within env (advance env p) n (omega arith))
            λ ls p1 h1. gives _ _ h1

  vector_matching-Within :
      (p : ParserState) (n : ℕ) → measure p ≤ n → Yields (Within n) (vector_matching env p)
  unfolding vector_matching same_type tok_code
  vector_matching-Within p n h =
      Yields_if (Within n) (not (at on p || at ignoring p)) _ _ (λ b. gives _ _ h)
        λ b.
          let less = advance-suc env p (either_not_eof on ignoring p refl refl b) in
          step n n _ _ (parse_label_list-Within env (advance env p) n (omega arith))
            λ ls p1 h1. step n n _ _ (group_side-Within _ p1 n h1) λ vm p2 h2. gives _ _ h2

  -- The loop over the operators that bind at least as much as `least`.
  abbrev Loops : ℕ → (Expr F → ℕ → ParserState → Result (Expr F × ParserState)) → Type 0
  Loops m rhs =
      (lhs : Expr F) (least : ℕ) (q : ParserState) (k : ℕ)
      → 1 ≤ least
      → measure q < m
      → measure q ≤ k
      → Yields (Within k) (rhs lhs least q)

  binary_step-Within :
      (primary : ParserState → Result (Expr F × ParserState))
      (rhs : Expr F → ℕ → ParserState → Result (Expr F × ParserState)) (lhs : Expr F) (least : ℕ)
      (p : ParserState) (n : ℕ)
      → Takes (measure p) primary
      → Loops (measure p) rhs
      → 1 ≤ least
      → measure p ≤ n
      → Yields (Within n) (binary_step env primary rhs lhs least p)
  unfolding binary_step
  binary_step-Within primary rhs lhs least p n ps rs l h =
      Yields_if (Within n) (ltb (binary_precedence p.cur.typ) least) _ _ (λ b. gives _ _ h)
        λ b.
          let less = advance-suc env p (binary_precedence_eof p least l b) in
          let m = measure (advance env p) in
          let le = skip_bool-le (advance env p) in
          step m n _ _ (vector_matching-Within (skip_bool env (advance env p)) m le) λ vm p2 h2.
            step m n _ _ (ps p2 m (omega arith) (omega arith)) λ x p3 h3.
              step m n _ _
                (rs x _ p3 m
                  (next_precedence-pos _ _ (precedence_pos (binary_precedence p.cur.typ) b))
                  (omega arith) h3)
                λ r p4 h4. rs _ least p4 n l (omega arith) (omega arith)
    where
      precedence_pos : (k : ℕ) → ltb k least ≡ false → 1 ≤ k
      precedence_pos k e = ground arith

  -- Fuel above twice what is left is enough.
  module _ (fuel : ℕ) where
    abbrev EnoughPrimary : Type 0
    EnoughPrimary =
        (p : ParserState) (n : ℕ)
        → measure p + measure p < fuel
        → measure p ≤ suc n
        → Yields (Within n) (parse_primary env fuel p)

    abbrev EnoughLoop : Type 0
    EnoughLoop =
        (lhs : Expr F) (least : ℕ) (p : ParserState) (n : ℕ)
        → 1 ≤ least
        → measure p + measure p < fuel
        → measure p ≤ n
        → Yields (Within n) (parse_binary_rhs env fuel lhs least p)

    abbrev EnoughExpr : Type 0
    EnoughExpr =
        (p : ParserState) (n : ℕ)
        → suc (measure p + measure p) < fuel
        → measure p ≤ suc n
        → Yields (Within n) (parse_expr env fuel p)

  pub enough_fuel : (fuel : ℕ) → EnoughPrimary fuel × EnoughLoop fuel × EnoughExpr fuel
  unfolding parse_expr
  enough_fuel zero =
      ((λ p n f h. ground arith), (λ lhs least p n l f h. ground arith), (λ p n f h. ground arith))
  enough_fuel (suc fuel) =
      let (ps, ls, es) = enough_fuel fuel in
      (
        (λ p n f h.
            primary_step-Within (parse_expr env fuel) (parse_primary env fuel) p n
              (λ q k lt le. es q k (omega arith) le) (λ q k lt le. ps q k (omega arith) le) h),
        (λ lhs least p n l f h.
            binary_step-Within (parse_primary env fuel) (parse_binary_rhs env fuel) lhs least p n
              (λ q k lt le. ps q k (omega arith) le)
              (λ lhs2 least2 q k l2 lt le. ls lhs2 least2 q k l2 (omega arith) le) l h),
        (λ p n f h.
            step (measure p - 1) n _ _ (ps p (measure p - 1) (omega arith) (omega arith))
              λ lhs p1 h1. ls lhs 1 p1 n (omega arith) (omega arith) (omega arith)),
      )

  parse_to_end_fuel : (p : ParserState) → parse_to_end env p ≢ out_of_fuel
  unfolding parse_to_end expr_fuel
  parse_to_end_fuel p = Yields_terminates Returns _ (
      Yields_bind (Within (measure p)) Returns _ _
        ((enough_fuel (expr_fuel p)).2 p (measure p) (omega arith) (omega arith))
        λ (e, p1) h. Yields_if Returns (at eof p1) _ _ (λ b. gives _ _ tt) λ b. fails _ _)

  -- The parser ends on every query, whatever the libraries of the environment say: the fuel that
  -- `parse` gives is enough for it to return an expression or an error.
  pub parse-total : (input : List ℕ) → parse env input ≢ out_of_fuel
  unfolding parse
  parse-total input = parse_to_end_fuel (advance env (new_parser env input))
