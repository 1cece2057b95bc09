-- ===== src/Logql/Parser/Progress/Metric.antt =====
-- internal/logql/parser.go: range and vector aggregations take text and end, if the parser of their
-- argument does.
use loki_vl_proxy.Prelude.{
  ℕ, zero, suc, ◌≤◌, ◌<◌, ◌≡◌, refl, inl, inr, Bool, true, false, ◌&&◌, ◌||◌, not, ◌==◌, Option,
  none, some, List, arith, Bool-cases,
}
use loki_vl_proxy.Logql.Text.{codes, runes_eq}
use loki_vl_proxy.Logql.Env.{Env}
use loki_vl_proxy.Logql.Token.{
  eof, error, l_brace, l_paren, r_paren, l_bracket, r_bracket, comma, at_sign, ident, duration,
  number, minus, by, without,
}
use loki_vl_proxy.Logql.Result.{Result, Yields, Yields_if, Yields_bind, Yields-wrap, gives, fails}
use loki_vl_proxy.Logql.Ast.{
  RangeOp, VectorOp, Grouping, Expr, log_query, range_aggregation, vector_aggregation, bin_op,
  literal, opaque_metric,
}
use loki_vl_proxy.Logql.Parser.State.{
  ParserState, at, at_word, same_type, tok_code, measure, advance,
}
use loki_vl_proxy.Logql.Parser.Metric.{
  atoi, takes_k, takes_phi, phi_value, phi, negative_phi, parse_quantile_param, skip_open_parens,
  check_range_aggregation_argument, only_log_query, range_argument, range_duration, range_offset,
  empty_parens, at_modifier, optional_phi, parse_range_aggregation, trailing_grouping, k_value,
  checked_k, parameter_k, grouping_after_expr, parse_vector_aggregation, without_param,
}
use loki_vl_proxy.Logql.Parser.Progress.Steps.{
  Within, Rest, at_not_eof, advance-suc, expect-Within, step, step_rest,
}
use loki_vl_proxy.Logql.Parser.Progress.Labels.{parse_grouping-Within}
use loki_vl_proxy.Logql.Parser.Progress.Pipeline.{parse_log_query-Within}

pub at_word_not_eof : (s : List ℕ) (p : ParserState) → at_word s p ≡ true → at eof p ≡ false
unfolding at_word
at_word_not_eof s p e = at_not_eof ident p (ground arith) refl

abbrev pub Returns {ℓ} : {A : Type ℓ} → A → Type 0
Returns a = Unit

-- A parser that takes text from the states with less than `m` left.
abbrev pub Takes {ℓ} : {A : Type ℓ} → ℕ → (ParserState → Result (A × ParserState)) → Type 0
Takes m f = (q : ParserState) (k : ℕ) → measure q < m → measure q ≤ suc k → Yields (Within k) (f q)

module _ {F : Type 0} (env : Env F) where
  module _ (p : ParserState) (n : ℕ) (h : measure p ≤ n) where
    phi_value-Within :
        (f : F → F) (x : Option F) → at eof p ≡ false → Yields (Within n) (phi_value env f x p)
    unfolding phi_value same_type tok_code
    phi_value-Within f none e = fails _ _
    phi_value-Within f (some x) e =
        let less = advance-suc env p e in
        step n n _ _ (expect-Within env comma (advance env p) n refl (omega arith))
          λ t p1 h1. gives _ _ h1

    phi-Within : (f : F → F) → at number p ≡ true → Yields (Within n) (phi env f p)
    unfolding phi same_type tok_code
    phi-Within f e = phi_value-Within f _ (at_not_eof number p e refl)

    negative_phi-Within : Yields (Within n) (negative_phi env p)
    unfolding negative_phi
    negative_phi-Within =
        Yields_if (Within n) (at number p) _ _ (λ b. phi-Within _ b) λ b. fails _ _

  optional_phi-Within :
      (op : RangeOp) (p : ParserState) (n : ℕ)
      → measure p ≤ n
      → Yields (Within n) (optional_phi env op p)
  unfolding optional_phi parse_quantile_param same_type tok_code
  optional_phi-Within op p n h =
      Yields_if (Within n) (takes_phi op) _ _
        (λ b.
          Yields_if (Within n) (at number p) _ _ (λ c. phi-Within p n h _ c)
            λ c.
              Yields_if (Within n) (at minus p) _ _
                (λ d.
                  let less = advance-suc env p (at_not_eof minus p d refl) in
                  negative_phi-Within (advance env p) n (omega arith))
                λ d. gives _ _ h)
        λ b. gives _ _ h

  skip_open_parens-Returns :
      (fuel : ℕ) (p : ParserState) → measure p < fuel → Yields Returns (skip_open_parens env fuel p)
  unfolding skip_open_parens same_type tok_code
  skip_open_parens-Returns zero p lt = ground arith
  skip_open_parens-Returns (suc fuel) p lt =
      Yields_if Returns (at l_paren p) _ _
        (λ b.
          let less = advance-suc env p (at_not_eof l_paren p b refl) in
          skip_open_parens-Returns fuel (advance env p) (omega arith))
        λ b. gives _ _ tt

  check_range_aggregation_argument-Returns :
      (b : Bool) (p : ParserState) → Yields Returns (check_range_aggregation_argument env b p)
  unfolding check_range_aggregation_argument
  check_range_aggregation_argument-Returns b p =
      Yields_bind Returns Returns _ _ (skip_open_parens-Returns (suc (measure p)) p (omega arith))
        λ q u. Yields_if Returns (at l_brace q) _ _ (λ c. gives _ _ tt) λ c. fails _ _

  only_log_query-Within :
      (n : ℕ) (e : Expr F) (p : ParserState)
      → measure p ≤ n
      → Yields (Within n) (only_log_query env (e, p))
  unfolding only_log_query
  only_log_query-Within n (log_query lq) p h = gives _ _ h
  only_log_query-Within n (range_aggregation r) p h = fails _ _
  only_log_query-Within n (vector_aggregation o g x e) p h = fails _ _
  only_log_query-Within n (bin_op l r o b v) p h = fails _ _
  only_log_query-Within n (literal x) p h = fails _ _
  only_log_query-Within n (opaque_metric s) p h = fails _ _

  range_argument-Within :
      (primary : ParserState → Result (Expr F × ParserState)) (p : ParserState) (n : ℕ)
      → Takes (suc (measure p)) primary
      → measure p ≤ n
      → Yields (Within n) (range_argument env primary p)
  unfolding range_argument
  range_argument-Within primary p n ih h =
      Yields_if (Within n) (at l_brace p) _ _ (λ b. parse_log_query-Within env p n (omega arith))
        λ b.
          step n n _ _ (ih p n (omega arith) (omega arith))
            λ e p1 h1. only_log_query-Within n e p1 h1

  range_duration-Within :
      (p : ParserState) (n : ℕ) → measure p ≤ n → Yields (Within n) (range_duration env p)
  unfolding range_duration same_type tok_code
  range_duration-Within p n h =
      Yields_if (Within n) (not (at l_bracket p)) _ _ (λ b. fails _ _)
        λ b.
          let less = advance-suc env p (at_not_eof l_bracket p (ground arith) refl) in
          step n n _ _
            (Yields-wrap (Within n) _ _
              (expect-Within env duration (advance env p) n refl (omega arith)))
            λ t p1 h1.
              Yields_if (Within n) (at error p1 && runes_eq p1.cur.val (codes ":")) _ _
                (λ c. fails _ _)
                λ c.
                  step n n _ _ (expect-Within env r_bracket p1 n refl (omega arith))
                    λ t2 p2 h2. gives _ _ h2

  range_offset-Within :
      (p : ParserState) (n : ℕ) → measure p ≤ n → Yields (Within n) (range_offset env p)
  unfolding range_offset same_type tok_code
  range_offset-Within p n h =
      Yields_if (Within n) (not (at_word (codes "offset") p)) _ _ (λ b. gives _ _ h)
        λ b.
          let less = advance-suc env p (at_word_not_eof (codes "offset") p (ground arith)) in
          step n n _ _
            (Yields-wrap (Within n) _ _
              (expect-Within env duration (advance env p) n refl (omega arith)))
            λ t p1 h1. gives _ _ h1

  empty_parens-Rest :
      (p : ParserState) (n : ℕ) → measure p ≤ n → Yields (Rest n) (empty_parens env p)
  unfolding empty_parens same_type tok_code
  empty_parens-Rest p n h =
      Yields_bind (Within n) (Rest n) _ _
        (Yields-wrap (Within n) _ _ (expect-Within env l_paren p n refl (omega arith)))
        λ (t, p1) h1.
          Yields_bind (Within n) (Rest n) _ _
            (Yields-wrap (Within n) _ _ (expect-Within env r_paren p1 n refl (omega arith)))
            λ (t2, p2) h2. gives _ _ h2

  at_modifier-Rest : (p : ParserState) (n : ℕ) → measure p ≤ n → Yields (Rest n) (at_modifier env p)
  unfolding at_modifier same_type tok_code
  at_modifier-Rest p n h =
      Yields_if (Rest n) (not (at at_sign p)) _ _ (λ b. gives _ _ h)
        λ b.
          let p1 = advance env p in
          let less = advance-suc env p (at_not_eof at_sign p (ground arith) refl) in
          Yields_if (Rest n) (at number p1) _ _
            (λ c.
              let less1 = advance-suc env p1 (at_not_eof number p1 c refl) in
              gives _ _ (omega arith))
            λ c.
              Yields_if (Rest n) (at_word (codes "start") p1 || at_word (codes "end") p1) _ _
                (λ d.
                  let less1 = advance-suc env p1 (start_or_end p1 d) in
                  empty_parens-Rest (advance env p1) n (omega arith))
                λ d. fails _ _
    where
      start_or_end :
          (q : ParserState)
          → (at_word (codes "start") q || at_word (codes "end") q) ≡ true
          → at eof q ≡ false
      start_or_end q e = elim (Bool-cases (at_word (codes "start") q)) [
        | inl s ↦ at_word_not_eof (codes "start") q s
        | inr s ↦ at_word_not_eof (codes "end") q (ground arith)
      ]

  pub trailing_grouping-Within :
      (p : ParserState) (n : ℕ) → measure p ≤ n → Yields (Within n) (trailing_grouping env p)
  unfolding trailing_grouping same_type tok_code
  trailing_grouping-Within p n h =
      Yields_if (Within n) (at by p || at without p) _ _
        (λ b.
          step n n _ _ (parse_grouping-Within env p n (by_or_without p b) h)
            λ g p1 h1. gives _ _ h1)
        λ b. gives _ _ h
    where
      by_or_without : (q : ParserState) → (at by q || at without q) ≡ true → at eof q ≡ false
      by_or_without q e = elim (Bool-cases (at by q)) [
        | inl s ↦ at_not_eof by q s refl
        | inr s ↦ at_not_eof without q (ground arith) refl
      ]

  pub parse_range_aggregation-Within :
      (primary : ParserState → Result (Expr F × ParserState)) (op : RangeOp) (p : ParserState)
      (n : ℕ)
      → Takes (measure p) primary
      → at eof p ≡ false
      → measure p ≤ suc n
      → Yields (Within n) (parse_range_aggregation env primary op p)
  unfolding parse_range_aggregation same_type tok_code
  parse_range_aggregation-Within primary op p n ih e h =
      let less = advance-suc env p e in
      let m = measure (advance env p) in
      step m n _ _ (expect-Within env l_paren (advance env p) m refl (omega arith)) λ t p1 h1.
        step m n _ _ (optional_phi-Within op p1 m h1) λ x p2 h2.
          Yields_bind Returns (Within n) _ _
            (check_range_aggregation_argument-Returns (without_param env x) p2)
            λ c u.
              step m n _ _ (range_argument-Within primary p2 m (λ q k l. ih q k (omega arith)) h2)
                λ lq p3 h3. step m n _ _ (range_duration-Within p3 m h3) λ d p4 h4.
                  step m n _ _ (range_offset-Within p4 m h4) λ o p5 h5.
                    step_rest m n _ _ (at_modifier-Rest p5 m h5) λ p6 h6.
                      step m n _ _ (expect-Within env r_paren p6 m refl (omega arith))
                        λ t7 p7 h7. gives _ _ (omega arith)

  checked_k-Returns : (op : VectorOp) (s : List ℕ) → Yields Returns (checked_k env op s)
  unfolding checked_k k_value
  checked_k-Returns op s = go (atoi s)
    where
      go : (o : Option ℕ) → Yields Returns (k_value env op s o)
      go none = fails _ _
      go (some k) = Yields_if Returns (k == 0) _ _ (λ b. fails _ _) λ b. gives _ _ tt

  parameter_k-Within :
      (op : VectorOp) (p : ParserState) (n : ℕ)
      → measure p ≤ n
      → Yields (Within n) (parameter_k env op p)
  unfolding parameter_k same_type tok_code
  parameter_k-Within op p n h =
      Yields_if (Within n) (not (takes_k op)) _ _ (λ b. gives _ _ h)
        λ b.
          step n n _ _
            (Yields-wrap (Within n) _ _ (expect-Within env number p n refl (omega arith)))
            λ t p1 h1. Yields_bind Returns (Within n) _ _ (checked_k-Returns op t.val) λ k u.
              step n n _ _
                (Yields-wrap (Within n) _ _ (expect-Within env comma p1 n refl (omega arith)))
                λ t2 p2 h2. gives _ _ h2

  grouping_after_expr-Within :
      (g : Option Grouping) (p : ParserState) (n : ℕ)
      → measure p ≤ n
      → Yields (Within n) (grouping_after_expr env g p)
  unfolding grouping_after_expr
  grouping_after_expr-Within none p n h = trailing_grouping-Within p n h
  grouping_after_expr-Within (some g) p n h = gives _ _ h

  pub parse_vector_aggregation-Within :
      (expr : ParserState → Result (Expr F × ParserState)) (op : VectorOp) (p : ParserState) (n : ℕ)
      → Takes (measure p) expr
      → at eof p ≡ false
      → measure p ≤ suc n
      → Yields (Within n) (parse_vector_aggregation env expr op p)
  unfolding parse_vector_aggregation same_type tok_code
  parse_vector_aggregation-Within expr op p n ih e h =
      let less = advance-suc env p e in
      let m = measure (advance env p) in
      step m n _ _ (trailing_grouping-Within (advance env p) m (omega arith)) λ g p1 h1.
        step m n _ _ (expect-Within env l_paren p1 m refl (omega arith)) λ t p2 h2.
          step m n _ _ (parameter_k-Within op p2 m h2) λ k p3 h3.
            step m n _ _ (ih p3 m (omega arith) (omega arith)) λ x p4 h4.
              step m n _ _ (expect-Within env r_paren p4 m refl (omega arith)) λ t5 p5 h5.
                step m n _ _ (grouping_after_expr-Within g p5 m h5)
                  λ g6 p6 h6. gives _ _ (omega arith)
