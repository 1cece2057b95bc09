-- ===== src/Logql/Parser/Progress/Strings.antt =====
-- internal/logql/parser.go, ip_filter.go: string operands and line filters take text and end.
use loki_vl_proxy.Prelude.{
  ℕ, zero, suc, ◌≤◌, ◌<◌, ◌≡◌, refl, inl, inr, Bool, true, false, ◌&&◌, ◌||◌, not, List, arith,
  Bool-cases,
}
use loki_vl_proxy.Logql.Text.{codes, runes_eq}
use loki_vl_proxy.Logql.Env.{Env}
use loki_vl_proxy.Logql.Token.{TokType, eof, l_paren, r_paren, ident, or_, pipe_eq, bang_eq}
use loki_vl_proxy.Logql.Result.{Result, Yields, Yields_if, gives, fails}
use loki_vl_proxy.Logql.Parser.State.{
  ParserState, at, same_type, tok_code, at_word, peek_typ, measure, advance,
}
use loki_vl_proxy.Logql.Parser.Strings.{
  is_string, is_line_filter_operator, valid_ip_pattern, call_operand, string_operand,
  expect_string_or_raw, or_operands, parse_line_filter_or_list, line_filter_operand,
  parse_line_filter_stage,
}
use loki_vl_proxy.Logql.Parser.Progress.Steps.{
  Within, at_not_eof, advance-lt, advance-suc, expect-Within, step,
}

pub is_string_not_eof : (p : ParserState) → is_string p.cur.typ ≡ true → at eof p ≡ false
unfolding is_string at same_type tok_code
is_string_not_eof p e = ground arith

pub is_line_filter_operator_not_eof :
    (p : ParserState) → is_line_filter_operator p.cur.typ ≡ true → at eof p ≡ false
unfolding is_line_filter_operator at same_type tok_code
is_line_filter_operator_not_eof p e = go p.cur.typ e
  where
    go : (t : TokType) → is_line_filter_operator t ≡ true → same_type t eof ≡ false
    go t e = ground arith

module _ {F : Type 0} (env : Env F) where
  call_operand-Within :
      (operand : ParserState → Result (List ℕ × ParserState)) (name : List ℕ) (p : ParserState)
      (n : ℕ)
      → ((q : ParserState) → suc (measure q) ≤ measure p → Yields (Within n) (operand q))
      → measure p ≤ n
      → Yields (Within n) (call_operand env operand name p)
  unfolding call_operand same_type tok_code
  call_operand-Within operand name p n ih h = elim (Bool-cases (at l_paren p)) [
    | inr o ↦ simp o (fails _ _)
    | inl o ↦
        let lt = advance-suc env p (at_not_eof l_paren p o refl) in
        simp o (
          step n n _ _ (ih (advance env p) lt) λ val p1 h1.
            step n n _ _ (expect-Within env r_paren p1 n refl (omega arith)) λ tok p2 h2.
              Yields_if (Within n) (runes_eq name (codes "ip") && not (valid_ip_pattern env val)) _
                _ (λ b. fails _ _) λ b. gives _ _ h2)
  ]

  pub string_operand-Within :
      (fuel : ℕ) (p : ParserState) (n : ℕ)
      → measure p < fuel
      → measure p ≤ suc n
      → Yields (Within n) (string_operand env fuel p)
  unfolding string_operand same_type tok_code
  string_operand-Within zero p n lt h = ground arith
  string_operand-Within (suc fuel) p n lt h =
      Yields_if (Within n) (is_string p.cur.typ) _ _
        (λ e. gives _ _ (advance-lt env p n (is_string_not_eof p e) h))
        λ e.
          Yields_if (Within n) (at ident p) _ _
            (λ i.
              let less = advance-suc env p (at_not_eof ident p i refl) in
              call_operand-Within (string_operand env fuel) p.cur.val (advance env p) n
                (λ q l. string_operand-Within fuel q n (omega arith) (omega arith)) (omega arith))
            λ i. fails _ _

  pub expect_string_or_raw-Within :
      (p : ParserState) (n : ℕ) → measure p ≤ suc n → Yields (Within n) (expect_string_or_raw env p)
  unfolding expect_string_or_raw
  expect_string_or_raw-Within p n h = string_operand-Within (suc (measure p)) p n (omega arith) h

  or_operands-Within :
      (fuel : ℕ) (p : ParserState) (n : ℕ)
      → measure p < fuel
      → measure p ≤ n
      → Yields (Within n) (or_operands env fuel p)
  unfolding or_operands same_type tok_code
  or_operands-Within zero p n lt h = ground arith
  or_operands-Within (suc fuel) p n lt h =
      Yields_if (Within n) (not (at or_ p && is_string (peek_typ env p))) _ _ (λ b. gives _ _ h)
        λ b.
          let less = advance-suc env p (at_not_eof or_ p (ground arith) refl) in
          step (measure (advance env p)) n _ _
            (expect_string_or_raw-Within (advance env p) _ (omega arith))
            λ val p1 h1.
              step n n _ _ (or_operands-Within fuel p1 n (omega arith) (omega arith))
                λ vals p2 h2. gives _ _ h2

  pub parse_line_filter_or_list-Within :
      (p : ParserState) (n : ℕ)
      → measure p ≤ n
      → Yields (Within n) (parse_line_filter_or_list env p)
  unfolding parse_line_filter_or_list
  parse_line_filter_or_list-Within p n h = or_operands-Within (suc (measure p)) p n (omega arith) h

  line_filter_operand-Within :
      (ip : Bool) (p : ParserState) (n : ℕ)
      → measure p ≤ n
      → Yields (Within n) (line_filter_operand env ip p)
  unfolding line_filter_operand
  line_filter_operand-Within true p n h =
      step n n _ _ (expect_string_or_raw-Within p n (omega arith)) λ value p1 h1. gives _ _ h1
  line_filter_operand-Within false p n h =
      step n n _ _ (expect_string_or_raw-Within p n (omega arith)) λ value p1 h1.
        step n n _ _ (parse_line_filter_or_list-Within p1 n h1) λ alts p2 h2. gives _ _ h2

  pub parse_line_filter_stage-Within :
      (p : ParserState) (n : ℕ)
      → is_line_filter_operator p.cur.typ ≡ true
      → measure p ≤ suc n
      → Yields (Within n) (parse_line_filter_stage env p)
  unfolding parse_line_filter_stage
  parse_line_filter_stage-Within p n e h =
      let less = advance-lt env p n (is_line_filter_operator_not_eof p e) h in
      Yields_if (Within n)
        (at_word (codes "ip") (advance env p) && not (at pipe_eq p || at bang_eq p)) _ _
        (λ b. fails _ _)
        λ b.
          step n n _ _ (line_filter_operand-Within _ (advance env p) n less)
            λ (value, alts) p1 h1. gives _ _ h1
