-- ===== src/Logql/Parser/IpFilter.antt =====
-- internal/logql/ip_filter.go: a line filter on an address is what the code says it accepts.
use loki_vl_proxy.Prelude.{
  ℕ, suc, ◌-◌, ◌≤◌, ◌≡◌, ◌⊎◌, refl, sym, ap, subst, ◌∙◌, inl, inr, Bool, true, false, ◌&&◌, ◌||◌,
  not, leb, List, [], ◌∷◌, ◌++◌, length, length-append, take, drop, arith, ==_iff,
}
use loki_vl_proxy.Logql.Text.{codes, runes_eq}
use loki_vl_proxy.Logql.Env.{Env}
use loki_vl_proxy.Logql.Token.{
  TokType, ident, l_paren, r_paren, pipe_eq, bang_eq, pipe_tilde, bang_tilde, pipe_gt, bang_gt,
}
use loki_vl_proxy.Logql.Result.{
  Result, ok, Yields, Yields_if, Yields_bind, Yields_mono, gives, fails, Yields_ok,
}
use loki_vl_proxy.Logql.Ast.{contains, excludes, Stage, LineFilterStage, line_filter}
use loki_vl_proxy.Logql.Parser.State.{
  ParserState, at, at_word, same_type, tok_code, measure, advance,
}
use loki_vl_proxy.Logql.Parser.Strings.{
  is_string, trim_prefix, trim_suffix, line_filter_op, valid_ip_pattern, call_operand,
  string_operand, expect_string_or_raw, line_filter_operand, parse_line_filter_stage,
}
use loki_vl_proxy.Logql.Parser.Progress.Steps.{Within, at_not_eof, advance-suc, expect-Within}
use loki_vl_proxy.Logql.Parser.Progress.Strings.{
  string_operand-Within, parse_line_filter_or_list-Within, expect_string_or_raw-Within,
}

runes_eq_sound : (xs ys : List ℕ) → runes_eq xs ys ≡ true → xs ≡ ys
unfolding runes_eq
runes_eq_sound [] [] e = refl
runes_eq_sound [] (y ∷ ys) e = cc
runes_eq_sound (x ∷ xs) [] e = cc
runes_eq_sound (x ∷ xs) (y ∷ ys) e =
    let heads : x ≡ y = ground arith in let tails = runes_eq_sound xs ys (ground arith) in cc

runes_eq_refl : (xs : List ℕ) → runes_eq xs xs ≡ true
unfolding runes_eq
runes_eq_refl [] = refl
runes_eq_refl (x ∷ xs) = simp (runes_eq_refl xs, (==_iff x x).1 refl)

drop-append : (xs ys : List ℕ) → drop (length xs) (xs ++ ys) ≡ ys
drop-append [] ys = refl
drop-append (x ∷ xs) ys = drop-append xs ys

take-append : (xs ys : List ℕ) → take (length xs) (xs ++ ys) ≡ xs
take-append [] ys = refl
take-append (x ∷ xs) ys = ap (λ z. x ∷ z) (take-append xs ys)

trim_prefix-append : (xs ys : List ℕ) → trim_prefix xs (xs ++ ys) ≡ ys
unfolding trim_prefix
trim_prefix-append xs ys = simp (take-append xs ys, runes_eq_refl xs, drop-append xs ys)

trim_suffix-append : (xs ys : List ℕ) → trim_suffix ys (xs ++ ys) ≡ xs
unfolding trim_suffix
trim_suffix-append xs ys =
    let n : length (xs ++ ys) - length ys ≡ length xs =
      let l = length-append xs ys in omega arith in
    let le : leb (length ys) (length (xs ++ ys)) ≡ true =
      let l = length-append xs ys in ground arith in
    simp (n, le, drop-append xs ys, runes_eq_refl ys, take-append xs ys)

-- What the text of a call of `ip` is cut down to.
abbrev inside : List ℕ → List ℕ
inside v = trim_suffix (codes ")") (trim_prefix (codes "ip(") v)

inside_call :
    (name val : List ℕ)
    → runes_eq name (codes "ip") ≡ true
    → inside (name ++ (codes "(" ++ (val ++ codes ")"))) ≡ val
inside_call name val e =
    subst (λ z. inside (z ++ (codes "(" ++ (val ++ codes ")"))) ≡ val)
      (sym (runes_eq_sound name (codes "ip") e))
      (ap (trim_suffix (codes ")")) (trim_prefix-append (codes "ip(") (val ++ codes ")"))
        ∙ trim_suffix-append val (codes ")"))

ident_not_string :
    (s : List ℕ) (q : ParserState) → is_string q.cur.typ ≡ true → at_word s q ≡ true → ⊥
unfolding is_string at_word at same_type tok_code
ident_not_string s q e w = ground arith

word_at : (s : List ℕ) (q : ParserState) → at_word s q ≡ true → runes_eq q.cur.val s ≡ true
unfolding at_word
word_at s q w = ground arith

equality_op :
    (p : ParserState)
    → (at pipe_eq p || at bang_eq p) ≡ true
    → (line_filter_op p.cur.typ ≡ contains) ⊎ (line_filter_op p.cur.typ ≡ excludes)
unfolding line_filter_op at same_type tok_code
equality_op p e = go p.cur.typ e
  where
    go :
        (t : TokType)
        → (same_type t pipe_eq || same_type t bang_eq) ≡ true
        → (line_filter_op t ≡ contains) ⊎ (line_filter_op t ≡ excludes)
    go bang_eq e = inr refl
    go pipe_tilde e = cc
    go bang_tilde e = cc
    go pipe_gt e = cc
    go bang_gt e = cc
    go _ e = inl refl

module _ {F : Type 0} (env : Env F) where
  -- Of an operand that was read: a call of `ip` has a pattern that is valid.
  abbrev Checked : Bool → List ℕ × ParserState → Type 0
  Checked ip (v, p) = ip ≡ true → valid_ip_pattern env (inside v) ≡ true

  call_operand-Checked :
      (operand : ParserState → Result (List ℕ × ParserState)) (name : List ℕ) (p : ParserState)
      → ((q : ParserState) → suc (measure q) ≤ measure p → Yields (Within (measure p)) (operand q))
      → Yields (Checked (runes_eq name (codes "ip"))) (call_operand env operand name p)
  unfolding call_operand same_type tok_code
  call_operand-Checked operand name p ih =
      Yields_if (Checked (runes_eq name (codes "ip"))) (not (at l_paren p)) _ _ (λ o. fails _ _)
        λ o.
          Yields_bind (Within (measure p)) _ _ _
            (ih (advance env p) (advance-suc env p (at_not_eof l_paren p (ground arith) refl)))
            λ (val, p1) h.
              Yields_bind (Within (measure p1)) _ _ _
                (expect-Within env r_paren p1 (measure p1) refl (omega arith))
                λ (tok, p2) h2.
                  Yields_if (Checked (runes_eq name (codes "ip")))
                    (runes_eq name (codes "ip") && not (valid_ip_pattern env val)) _ _
                    (λ b. fails _ _)
                    λ b. gives _ _ λ e.
                      subst (λ z. valid_ip_pattern env z ≡ true) (sym (inside_call name val e))
                        (ground arith)

  expect_string_or_raw-Checked :
      (p : ParserState) → Yields (Checked (at_word (codes "ip") p)) (expect_string_or_raw env p)
  unfolding expect_string_or_raw string_operand
  expect_string_or_raw-Checked p =
      Yields_if (Checked (at_word (codes "ip") p)) (is_string p.cur.typ) _ _
        (λ s. gives _ _ λ e. elim (ident_not_string (codes "ip") p s e) [ ])
        λ s.
          Yields_if (Checked (at_word (codes "ip") p)) (at ident p) _ _
            (λ i.
              Yields_mono (Checked (runes_eq p.cur.val (codes "ip"))) _ _
                (λ (v, q) c e. c (word_at (codes "ip") p e))
                (call_operand-Checked (string_operand env (measure p)) p.cur.val (advance env p)
                  λ q l.
                    string_operand-Within env (measure p) q (measure (advance env p))
                      (let less = advance-suc env p (at_not_eof ident p i refl) in omega arith)
                      (omega arith)))
            λ i. fails _ _

  -- Of a line filter on an address.
  abbrev AddressFilter : LineFilterStage → Type 0
  AddressFilter s =
      ((s.op ≡ contains) ⊎ (s.op ≡ excludes))
      × (valid_ip_pattern env s.value ≡ true)
      × (s.or_list ≡ [])

  line_filter_operand-Checked :
      (ip : Bool) (p : ParserState)
      → at_word (codes "ip") p ≡ ip
      → Yields
          (λ ((value, alts), q). ip ≡ true → (valid_ip_pattern env value ≡ true) × (alts ≡ []))
          (line_filter_operand env ip p)
  unfolding line_filter_operand
  line_filter_operand-Checked true p w =
      Yields_bind (Checked (at_word (codes "ip") p)) _ _ _ (expect_string_or_raw-Checked p)
        λ (value, p1) c. gives _ _ λ e. (c w, refl)
  line_filter_operand-Checked false p w =
      Yields_bind (Within (measure p)) _ _ _
        (expect_string_or_raw-Within env p (measure p) (omega arith))
        λ (value, p1) h1.
          Yields_bind (Within (measure p1)) _ _ _
            (parse_line_filter_or_list-Within env p1 (measure p1) (omega arith))
            λ (alts, p2) h2. gives _ _ λ e. cc

  abbrev IsChecked : Stage × ParserState → Type 0
  IsChecked (stage, q) =
      (s : LineFilterStage) → stage ≡ line_filter s → s.ip ≡ true → AddressFilter s

  parse_line_filter_stage-IsChecked :
      (p : ParserState) → Yields IsChecked (parse_line_filter_stage env p)
  unfolding parse_line_filter_stage
  parse_line_filter_stage-IsChecked p =
      let p1 = advance env p in
      Yields_if IsChecked (at_word (codes "ip") p1 && not (at pipe_eq p || at bang_eq p)) _ _
        (λ b. fails _ _)
        λ b.
          Yields_bind _ IsChecked _ _
            (line_filter_operand-Checked (at_word (codes "ip") p1) p1 refl)
            λ ((value, alts), p2) c. gives _ _ λ s e i.
              let read : LineFilterStage = record {
                op = line_filter_op p.cur.typ;
                value = value;
                ip = at_word (codes "ip") p1;
                or_list = alts;
              } in
              let same : read ≡ s = cc in
              subst (λ z. z.ip ≡ true → AddressFilter z) same
                (λ w. (equality_op p (ground arith), (c w).0, (c w).1)) i

  -- A line filter that is read as one on an address has `|=` or `!=`, no second value, and a pattern
  -- that `validIPPattern` accepts: an address, a prefix or a range.
  pub parse_line_filter_stage-ip :
      (p q : ParserState) (s : LineFilterStage)
      → parse_line_filter_stage env p ≡ ok (line_filter s, q)
      → s.ip ≡ true
      → ((s.op ≡ contains) ⊎ (s.op ≡ excludes))
        × (valid_ip_pattern env s.value ≡ true)
        × (s.or_list ≡ [])
  parse_line_filter_stage-ip p q s e =
      Yields_ok IsChecked _ _ (parse_line_filter_stage-IsChecked p) e s refl
