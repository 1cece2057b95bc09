-- ===== src/Logql/Parser/Progress/Fields.antt =====
-- internal/logql/parser.go: the operands of the pipeline stages take text and end.
use loki_vl_proxy.Prelude.{
  ℕ, zero, suc, ◌≤◌, ◌<◌, ◌≡◌, refl, inl, inr, true, false, ◌||◌, not, Option, none, some, List, [],
  arith, Bool-cases,
}
use loki_vl_proxy.Logql.Env.{Env}
use loki_vl_proxy.Logql.Token.{
  TokType, Token, eof, l_paren, r_paren, l_bracket, r_bracket, comma, eq, ident,
}
use loki_vl_proxy.Logql.Result.{Yields, Yields_if, Yields_bind, gives, fails}
use loki_vl_proxy.Logql.Parser.State.{
  ParserState, zero_token, at, same_type, tok_code, measure, advance,
}
use loki_vl_proxy.Logql.Parser.Strings.{is_string}
use loki_vl_proxy.Logql.Parser.Fields.{
  drop_op, stage_ends, to_bracket, close_bracket, consume_range, unwrap_converted, parse_unwrap,
  drop_keep_item, drop_keep_items, parse_drop_keep_list, extraction_expression, extraction_fields,
  consume_explicit_field_list, label_format_entry, label_formats, parse_label_format, rest_of_stage,
  consume_rest_of_stage,
}
use loki_vl_proxy.Logql.Parser.Progress.Steps.{
  Within, Rest, at_not_eof, advance-suc, expect-Within, step, step_rest, relax,
}
use loki_vl_proxy.Logql.Parser.Progress.Strings.{expect_string_or_raw-Within, is_string_not_eof}

drop_op_not_eof : (p : ParserState) (op : List ℕ) → drop_op p.cur.typ ≡ some op → at eof p ≡ false
unfolding drop_op at same_type tok_code
drop_op_not_eof p op e = go p.cur.typ e
  where
    go : (t : TokType) → drop_op t ≡ some op → same_type t eof ≡ false
    go t e = ground arith

stage_ends_eof :
    (b : List ℕ) (depth : ℕ) (prev prev_prev : Token) (p : ParserState)
    → stage_ends b depth prev prev_prev p.cur.typ ≡ false
    → at eof p ≡ false
unfolding stage_ends at same_type tok_code
stage_ends_eof b depth prev prev_prev p e = go p.cur.typ e
  where
    go : (t : TokType) → stage_ends b depth prev prev_prev t ≡ false → same_type t eof ≡ false
    go eof e = cc
    go _ e = refl

module _ {F : Type 0} (env : Env F) where
  to_bracket-Rest :
      (fuel : ℕ) (p : ParserState) (n : ℕ)
      → measure p < fuel
      → measure p ≤ n
      → Yields (Rest n) (to_bracket env fuel p)
  unfolding to_bracket
  to_bracket-Rest zero p n lt h = ground arith
  to_bracket-Rest (suc fuel) p n lt h =
      Yields_if (Rest n) (at r_bracket p || at eof p) _ _ (λ e. gives _ _ h)
        λ e.
          let less = advance-suc env p (ground arith) in
          to_bracket-Rest fuel (advance env p) n (omega arith) (omega arith)

  close_bracket-le : (p : ParserState) → measure (close_bracket env p) ≤ measure p
  unfolding close_bracket same_type tok_code
  close_bracket-le p = elim (Bool-cases (at r_bracket p)) [
    | inl c ↦ let less = advance-suc env p (at_not_eof r_bracket p c refl) in simp c (omega arith)
    | inr c ↦ simp c (omega arith)
  ]

  consume_range-Rest :
      (p : ParserState) (n : ℕ) → measure p ≤ n → Yields (Rest n) (consume_range env p)
  unfolding consume_range same_type tok_code
  consume_range-Rest p n h =
      Yields_if (Rest n) (not (at l_bracket p)) _ _ (λ b. gives _ _ h)
        λ b.
          let less = advance-suc env p (at_not_eof l_bracket p (ground arith) refl) in
          Yields_bind (Rest n) (Rest n) _ _
            (to_bracket-Rest (suc (measure (advance env p))) (advance env p) n (omega arith)
              (omega arith))
            λ p1 h1. let le = close_bracket-le p1 in gives _ _ (omega arith)

  unwrap_converted-Within :
      (converter : List ℕ) (p : ParserState) (n : ℕ)
      → measure p ≤ n
      → Yields (Within n) (unwrap_converted env converter p)
  unfolding unwrap_converted same_type tok_code
  unwrap_converted-Within converter p n h =
      Yields_if (Within n) (at r_paren p) _ _
        (λ c.
          let less = advance-suc env p (at_not_eof r_paren p c refl) in
          step_rest n n _ _ (consume_range-Rest (advance env p) n (omega arith))
            λ p1 h1. gives _ _ h1)
        λ c. step n n _ _ (expect-Within env ident p n refl (omega arith)) λ t p1 h1.
          step n n _ _ (expect-Within env r_paren p1 n refl (omega arith)) λ t2 p2 h2. gives _ _ h2

  pub parse_unwrap-Within :
      (p : ParserState) (n : ℕ) → measure p ≤ n → Yields (Within n) (parse_unwrap env p)
  unfolding parse_unwrap same_type tok_code
  parse_unwrap-Within p n h =
      Yields_if (Within n) (at l_bracket p) _ _
        (λ c. step_rest n n _ _ (consume_range-Rest p n h) λ p1 h1. gives _ _ h1)
        λ c.
          Yields_if (Within n) (not (at ident p)) _ _ (λ i. fails _ _)
            λ i.
              let less = advance-suc env p (at_not_eof ident p (ground arith) refl) in
              Yields_if (Within n) (at l_paren (advance env p)) _ _
                (λ o.
                  let less2 =
                    advance-suc env (advance env p) (at_not_eof l_paren (advance env p) o refl) in
                  unwrap_converted-Within _ (advance env (advance env p)) n (omega arith))
                λ o. gives _ _ (omega arith)

  drop_keep_item-Within :
      (name : List ℕ) (o : Option (List ℕ)) (p : ParserState) (n : ℕ)
      → drop_op p.cur.typ ≡ o
      → measure p ≤ n
      → Yields (Within n) (drop_keep_item env name o p)
  unfolding drop_keep_item
  drop_keep_item-Within name none p n e h = gives _ _ h
  drop_keep_item-Within name (some op) p n e h =
      let less = advance-suc env p (drop_op_not_eof p op e) in
      step n n _ _ (expect_string_or_raw-Within env (advance env p) n (omega arith))
        λ value p1 h1. gives _ _ h1

  drop_keep_items-Within :
      (fuel : ℕ) (p : ParserState) (n : ℕ)
      → n < fuel
      → measure p ≤ n
      → Yields (Within n) (drop_keep_items env fuel p)
  unfolding drop_keep_items same_type tok_code
  drop_keep_items-Within zero p n lt h = ground arith
  drop_keep_items-Within (suc fuel) p n lt h =
      Yields_if (Within n) (not (at ident p)) _ _ (λ b. gives _ _ h)
        λ b.
          let less = advance-suc env p (at_not_eof ident p (ground arith) refl) in
          step n n _ _ (drop_keep_item-Within _ _ (advance env p) n refl (omega arith))
            λ (ls, ms) p1 h1. elim (Bool-cases (at comma p1)) [
              | inr c ↦ simp c (gives _ _ h1)
              | inl c ↦
                  let less1 = advance-suc env p1 (at_not_eof comma p1 c refl) in
                  let k = measure (advance env p1) in
                  simp c (
                    step k n _ _
                      (drop_keep_items-Within fuel (advance env p1) k (omega arith) (omega arith))
                      λ ls2 p2 h2. gives _ _ (omega arith))
            ]

  pub parse_drop_keep_list-Within :
      (p : ParserState) (n : ℕ) → measure p ≤ n → Yields (Within n) (parse_drop_keep_list env p)
  unfolding parse_drop_keep_list
  parse_drop_keep_list-Within p n h =
      Yields_if (Within n) (at ident p) _ _
        (λ b.
          relax (measure p) n _ h
            (drop_keep_items-Within (suc (measure p)) p (measure p) (omega arith) (omega arith)))
        λ b. fails _ _

  extraction_expression-Within :
      (name end : List ℕ) (p : ParserState) (n : ℕ)
      → measure p ≤ n
      → Yields (Within n) (extraction_expression env name end p)
  unfolding extraction_expression same_type tok_code
  extraction_expression-Within name end p n h =
      Yields_if (Within n) (not (at eq p)) _ _ (λ b. gives _ _ h)
        λ b.
          let p1 = advance env p in
          let less = advance-suc env p (at_not_eof eq p (ground arith) refl) in
          Yields_if (Within n) (not (is_string p1.cur.typ)) _ _ (λ c. fails _ _)
            λ c.
              let less1 = advance-suc env p1 (is_string_not_eof p1 (ground arith)) in
              gives _ _ (omega arith)

  extraction_fields-Within :
      (fuel : ℕ) (end : List ℕ) (p : ParserState) (n : ℕ)
      → n < fuel
      → measure p ≤ n
      → Yields (Within n) (extraction_fields env fuel end p)
  unfolding extraction_fields same_type tok_code
  extraction_fields-Within zero end p n lt h = ground arith
  extraction_fields-Within (suc fuel) end p n lt h =
      Yields_if (Within n) (not (at ident p)) _ _ (λ b. gives _ _ h)
        λ b.
          let less = advance-suc env p (at_not_eof ident p (ground arith) refl) in
          step n n _ _ (extraction_expression-Within _ _ (advance env p) n (omega arith))
            λ (x, end1) p1 h1.
              Yields_if (Within n) (not (at comma p1)) _ _ (λ c. gives _ _ h1)
                λ c.
                  let less1 = advance-suc env p1 (at_not_eof comma p1 (ground arith) refl) in
                  let k = measure (advance env p1) in
                  Yields_if (Within n) (not (at ident (advance env p1))) _ _ (λ d. fails _ _)
                    λ d.
                      step k n _ _
                        (extraction_fields-Within fuel _ (advance env p1) k (omega arith)
                          (omega arith))
                        λ fs p2 h2. gives _ _ (omega arith)

  pub consume_explicit_field_list-Within :
      (start : List ℕ) (p : ParserState) (n : ℕ)
      → measure p ≤ n
      → Yields (Within n) (consume_explicit_field_list env start p)
  unfolding consume_explicit_field_list
  consume_explicit_field_list-Within start p n h =
      step (measure p) n _ _
        (extraction_fields-Within (suc (measure p)) start p (measure p) (omega arith) (omega arith))
        λ (end, fs) p1 h1. gives _ _ (omega arith)

  label_format_entry-Within :
      (raw : List ℕ) (p : ParserState) (n : ℕ)
      → measure p ≤ n
      → Yields (Within n) (label_format_entry env raw p)
  unfolding label_format_entry same_type tok_code
  label_format_entry-Within raw p n h =
      let p1 = advance env p in
      let p2 = advance env p1 in
      Yields_if (Within n) (not (at ident p)) _ _ (λ b. fails _ _)
        λ b.
          Yields_if (Within n) (not (at eq p1)) _ _ (λ c. fails _ _)
            λ c.
              Yields_if (Within n) (not (is_string p2.cur.typ || at ident p2)) _ _ (λ d. fails _ _)
                λ d.
                  let less = advance-suc env p (at_not_eof ident p (ground arith) refl) in
                  let less1 = advance-suc env p1 (at_not_eof eq p1 (ground arith) refl) in
                  let less2 = advance-suc env p2 (operand_not_eof p2 (ground arith)) in
                  gives _ _ (omega arith)
    where
      operand_not_eof :
          (q : ParserState) → (is_string q.cur.typ || at ident q) ≡ true → at eof q ≡ false
      operand_not_eof q e = elim (Bool-cases (at ident q)) [
        | inl i ↦ at_not_eof ident q i refl
        | inr i ↦ is_string_not_eof q (ground arith)
      ]

  label_formats-Within :
      (fuel : ℕ) (raw : List ℕ) (p : ParserState) (n : ℕ)
      → n < fuel
      → measure p ≤ n
      → Yields (Within n) (label_formats env fuel raw p)
  unfolding label_formats same_type tok_code
  label_formats-Within zero raw p n lt h = ground arith
  label_formats-Within (suc fuel) raw p n lt h =
      step n n _ _ (label_format_entry-Within raw p n h) λ (raw1, f) p1 h1.
        elim (Bool-cases (at comma p1)) [
          | inr c ↦ simp c (gives _ _ h1)
          | inl c ↦
              let less1 = advance-suc env p1 (at_not_eof comma p1 c refl) in
              let k = measure (advance env p1) in
              simp c (
                step k n _ _
                  (label_formats-Within fuel _ (advance env p1) k (omega arith) (omega arith))
                  λ fs p2 h2. gives _ _ (omega arith))
        ]

  pub parse_label_format-Within :
      (p : ParserState) (n : ℕ) → measure p ≤ n → Yields (Within n) (parse_label_format env p)
  unfolding parse_label_format
  parse_label_format-Within p n h =
      step (measure p) n _ _
        (label_formats-Within (suc (measure p)) [] p (measure p) (omega arith) (omega arith))
        λ (raw, fs) p1 h1. gives _ _ (omega arith)

  rest_of_stage-Within :
      (fuel : ℕ) (b : List ℕ) (depth : ℕ) (prev prev_prev : Token) (p : ParserState) (n : ℕ)
      → measure p < fuel
      → measure p ≤ n
      → Yields (Within n) (rest_of_stage env fuel b depth prev prev_prev p)
  unfolding rest_of_stage
  rest_of_stage-Within zero b depth prev prev_prev p n lt h = ground arith
  rest_of_stage-Within (suc fuel) b depth prev prev_prev p n lt h =
      Yields_if (Within n) (stage_ends b depth prev prev_prev p.cur.typ) _ _ (λ e. gives _ _ h)
        λ e.
          let less = advance-suc env p (stage_ends_eof b depth prev prev_prev p e) in
          rest_of_stage-Within fuel _ _ _ _ (advance env p) n (omega arith) (omega arith)

  pub consume_rest_of_stage-Within :
      (p : ParserState) (n : ℕ) → measure p ≤ n → Yields (Within n) (consume_rest_of_stage env p)
  unfolding consume_rest_of_stage
  consume_rest_of_stage-Within p n h =
      rest_of_stage-Within (suc (measure p)) [] 0 zero_token zero_token p n (omega arith) h
